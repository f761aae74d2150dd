-- ===== src/State/Post.antt =====
-- Postconditions of code that may fault, and the parts of the world that code leaves alone.
use eigrpd.Base.{
  ℕ, ◌≡◌, refl, ◌∙◌, Bool, true, false, Option, none, some, if◌then◌else◌, inl, inr, Option-cases,
}
use eigrpd.State.Records.{World, Route, Prefix}
use mathlib.Core.Path.{subst}
use eigrpd.State.Monad.{
  M, and_then, pure, fault, expect, get, modify, ◌>>=◌, when, load_route, load_prefix,
}

-- A run that returns satisfies the postcondition.
pub data Ends {A : Type 0} (Q : A → World → Type 0) : Option (A × World) → Type 0 where
  faults : Ends Q none
  ends : {a : A} {w : World} → Q a w → Ends Q (some (a, w))

-- A run returns, and satisfies the postcondition.
pub data Returns {A : Type 0} (Q : A → World → Type 0) : Option (A × World) → Type 0 where
  returns : {a : A} {w : World} → Q a w → Returns Q (some (a, w))

module _ {A : Type 0} {Q : A → World → Type 0} where
  pub Ends-mono :
      {P : A → World → Type 0} {r : Option (A × World)}
      → Ends P r
      → ((a : A) (w : World) → P a w → Q a w)
      → Ends Q r
  Ends-mono faults h = faults
  Ends-mono (ends p) h = ends (h _ _ p)

  Ends-some : {a : A} {w : World} → Ends Q (some (a, w)) → Q a w
  Ends-some (ends q) = q

  -- What a run that returned satisfies.
  pub Ends-at : {r : Option (A × World)} {a : A} {w : World} → Ends Q r → r ≡ some (a, w) → Q a w
  Ends-at h e = Ends-some (subst (Ends Q) e h)

  pub Returns-Ends : {r : Option (A × World)} → Returns Q r → Ends Q r
  Returns-Ends (returns q) = ends q

module _ {A B : Type 0} {Q : B → World → Type 0} where
  pub Ends-bind :
      (P : A → World → Type 0) (m : M A) (k : A → M B) (w : World)
      → Ends P (m w)
      → ((a : A) (v : World) → P a v → Ends Q (k a v))
      → Ends Q ((m >>= k) w)
  unfolding ◌>>=◌
  Ends-bind P m k w h next = go (m w) h
    where
      go : (r : Option (A × World)) → Ends P r → Ends Q (and_then r k)
      go _ faults = faults
      go _ (ends p) = next _ _ p

  pub Returns-bind :
      (P : A → World → Type 0) (m : M A) (k : A → M B) (w : World)
      → Returns P (m w)
      → ((a : A) (v : World) → P a v → Returns Q (k a v))
      → Returns Q ((m >>= k) w)
  unfolding ◌>>=◌
  Returns-bind P m k w h next = go (m w) h
    where
      go : (r : Option (A × World)) → Returns P r → Returns Q (and_then r k)
      go _ (returns p) = next _ _ p

module _ {B : Type 0} {Q : B → World → Type 0} where
  -- A cell that is loaded is in the heap.
  pub Ends-load_prefix :
      (p : ℕ) (k : Prefix → M B) (w : World)
      → ((d : Prefix) → w.prefixes p ≡ some d → Ends Q (k d w))
      → Ends Q ((load_prefix p >>= k) w)
  unfolding load_prefix ◌>>=◌
  Ends-load_prefix p k w h = elim (Option-cases (w.prefixes p)) [
    | inl e ↦ rw e faults
    | inr (d, e) ↦ rw e (h d e)
  ]

  pub Ends-load_route :
      (p : ℕ) (k : Route → M B) (w : World)
      → ((r : Route) → w.routes p ≡ some r → Ends Q (k r w))
      → Ends Q ((load_route p >>= k) w)
  unfolding load_route ◌>>=◌
  Ends-load_route p k w h = elim (Option-cases (w.routes p)) [
    | inl e ↦ rw e faults
    | inr (r, e) ↦ rw e (h r e)
  ]

  pub Ends-expect :
      {A : Type 0} (o : Option A) (k : A → M B) (w : World)
      → ((a : A) → o ≡ some a → Ends Q (k a w))
      → Ends Q ((expect o >>= k) w)
  unfolding ◌>>=◌
  Ends-expect none k w h = faults
  Ends-expect (some a) k w h = h a refl

  pub Ends-get : (k : World → M B) (w : World) → Ends Q (k w w) → Ends Q ((get >>= k) w)
  unfolding ◌>>=◌
  Ends-get k w h = h

module _ {Q : Unit {0} → World → Type 0} where
  pub Ends-when :
      (b : Bool) (m : M (Unit {0})) (w : World)
      → (b ≡ true → Ends Q (m w))
      → (b ≡ false → Q tt w)
      → Ends Q (when b m w)
  unfolding when pure
  Ends-when true m w h q = h refl
  Ends-when false m w h q = ends (q refl)

-- `m` leaves a view of the world as it was.
pub record Keeps {X A : Type 0} (f : World → X) (m : M A) : Type 0 where
  pub at : (w : World) → Ends (λ _ v. f v ≡ f w) (m w)

module _ {X : Type 0} {f : World → X} where
  module _ {A : Type 0} where
    pub Keeps-pure : (a : A) → Keeps f (pure a)
    unfolding pure
    Keeps-pure a = record { at = λ w. ends refl }

    pub Keeps-fault : Keeps f (fault {A = A})
    unfolding fault
    Keeps-fault = record { at = λ w. faults }

    pub Keeps-expect : (o : Option A) → Keeps f (expect o)
    unfolding expect
    Keeps-expect none = record { at = λ w. faults }
    Keeps-expect (some a) = record { at = λ w. ends refl }

    pub Keeps-if : (b : Bool) (m n : M A) → Keeps f m → Keeps f n → Keeps f (if b then m else n)
    Keeps-if true m n km kn = km
    Keeps-if false m n km kn = kn

  pub Keeps-get : Keeps f get
  unfolding get
  Keeps-get = record { at = λ w. ends refl }

  pub Keeps-modify : (g : World → World) → ((w : World) → f (g w) ≡ f w) → Keeps f (modify g)
  unfolding modify
  Keeps-modify g h = record { at = λ w. ends (h w) }

  pub Keeps-when : (b : Bool) (m : M (Unit {0})) → Keeps f m → Keeps f (when b m)
  unfolding when
  Keeps-when b m km = Keeps-if b m (pure tt) km (Keeps-pure tt)

  module _ {A B : Type 0} where
    pub Keeps-bind :
        (m : M A) (k : A → M B) → Keeps f m → ((a : A) → Keeps f (k a)) → Keeps f (m >>= k)
    Keeps-bind m k km kk = record {
      at = λ w.
          Ends-bind (λ _ v. f v ≡ f w) m k w (km.at w)
            λ a v e. Ends-mono ((kk a).at v) λ b u e'. e' ∙ e;
    }

pub ruleset keeps_rules =
    (Keeps-pure, Keeps-fault, Keeps-expect, Keeps-if, Keeps-get, Keeps-when, Keeps-bind)

-- `m` leaves a view of the world as it was, and returns a value with a property.
pub record Gives {X A : Type 0} (f : World → X) (P : A → Type 0) (m : M A) : Type 0 where
  pub at : (w : World) → Ends (λ a v. (f v ≡ f w) × P a) (m w)

module _ {X A : Type 0} {f : World → X} {P : A → Type 0} where
  pub Gives-pure : (a : A) → P a → Gives f P (pure a)
  unfolding pure
  Gives-pure a h = record { at = λ w. ends (refl, h) }

  pub Gives-bind :
      {B : Type 0} (Q : B → Type 0) (m : M B) (k : B → M A)
      → Gives f Q m
      → ((b : B) → Q b → Gives f P (k b))
      → Gives f P (m >>= k)
  Gives-bind Q m k gm gk = record {
    at = λ w.
        Ends-bind (λ b v. (f v ≡ f w) × Q b) m k w (gm.at w)
          λ b v (e, q). Ends-mono ((gk b q).at v) λ a u (e', p). (e' ∙ e, p);
  }

  -- Nothing is known of the value that the first part returns.
  pub Gives-after :
      {B : Type 0} (m : M B) (k : B → M A)
      → Keeps f m
      → ((b : B) → Gives f P (k b))
      → Gives f P (m >>= k)
  Gives-after m k km gk = record {
    at = λ w.
        Ends-bind (λ b v. f v ≡ f w) m k w (km.at w)
          λ b v e. Ends-mono ((gk b).at v) λ a u (e', p). (e' ∙ e, p);
  }

-- A run that returns keeps a property of the world.
pub record Stays {A : Type 0} (P : World → Type 0) (m : M A) : Type 0 where
  pub at : (w : World) → P w → Ends (λ _ v. P v) (m w)

module _ {P : World → Type 0} where
  module _ {A : Type 0} where
    pub Stays-pure : (a : A) → Stays P (pure a)
    unfolding pure
    Stays-pure a = record { at = λ w p. ends p }

    pub Stays-if : (b : Bool) (m n : M A) → Stays P m → Stays P n → Stays P (if b then m else n)
    Stays-if true m n sm sn = sm
    Stays-if false m n sm sn = sn

    -- What leaves a view alone keeps a property of that view.
    pub Stays-Keeps :
        {X : Type 0} {f : World → X} (m : M A)
        → ((w v : World) → f v ≡ f w → P w → P v)
        → Keeps f m
        → Stays P m
    Stays-Keeps m h k = record { at = λ w p. Ends-mono (k.at w) λ a v e. h w v e p }

  pub Stays-when : (b : Bool) (m : M (Unit {0})) → Stays P m → Stays P (when b m)
  unfolding when
  Stays-when b m sm = Stays-if b m (pure tt) sm (Stays-pure tt)

  module _ {A B : Type 0} where
    pub Stays-bind :
        (m : M A) (k : A → M B) → Stays P m → ((a : A) → Stays P (k a)) → Stays P (m >>= k)
    Stays-bind m k sm sk = record {
      at = λ w p. Ends-bind (λ _ v. P v) m k w (sm.at w p) λ a v q. (sk a).at v q;
    }

-- A run that cannot return is a fault.
pub Ends-never : {A : Type 0} {r : Option (A × World)} → Ends (λ _ _. ⊥) r → r ≡ none
Ends-never faults = refl
Ends-never (ends never) = absurd never
