-- ===== src/State/Monad.antt =====
-- Code that reads and writes the world. `none` is a fault: a null or freed pointer is read, a
-- number is divided by 0, or an `assert` fails.
use eigrpd.Base.{ℕ, Bool, Option, none, some, [], ◌∷◌, ◌++◌, ◌==◌, if◌then◌else◌}
use eigrpd.State.Records.{World, Route, Prefix, Neighbor, Interface, ZebraCall}

abbrev pub M : Type 0 → Type 0
M A = World → Option (A × World)

module _ {A : Type 0} where
  unfoldable pub pure : A → M A
  pure a w = some (a, w)

  unfoldable pub fault : M A
  fault w = none

  abbrev give : Option A → M A
  give none w = none
  give (some a) w = some (a, w)

  -- A value that may be absent, with a fault in its place.
  unfoldable pub expect : Option A → M A
  expect o w = give o w

unfoldable pub get : M World
get w = some (w, w)

unfoldable pub modify : (World → World) → M (Unit {0})
modify f w = some (tt, f w)

module _ {A B : Type 0} where
  abbrev pub and_then : Option (A × World) → (A → M B) → Option (B × World)
  and_then none f = none
  and_then (some (a, w)) f = f a w

  -- Opening this opens the five actions above too.
  infixl 5 ◌>>=◌
  unfoldable pub ◌>>=◌ : M A → (A → M B) → M B
  unfolding pure fault expect get modify
  ◌>>=◌ m f w = and_then (m w) f

infixl 5 ◌>>◌
abbrev pub ◌>>◌ : {B : Type 0} → M (Unit {0}) → M B → M B
m >> k = m >>= λ _. k

unfoldable pub when : Bool → M (Unit {0}) → M (Unit {0})
when b m = if b then m else pure tt

-- Writing one cell of a heap.
abbrev pub write {ℓ} : {A : Type ℓ} → (ℕ → Option A) → ℕ → Option A → ℕ → Option A
write h p c q = if q == p then c else h q

unfoldable pub load_route : ℕ → M Route
load_route p = get >>= λ w. expect (w.routes p)

unfoldable pub store_route : ℕ → Route → M (Unit {0})
store_route p r = modify λ w. record w { routes = write w.routes p (some r) }

-- XFREE; a cell that is free already is a fault.
unfoldable pub free_route : ℕ → M (Unit {0})
free_route p = load_route p >>= λ _. modify λ w. record w { routes = write w.routes p none }

unfoldable pub load_prefix : ℕ → M Prefix
load_prefix p = get >>= λ w. expect (w.prefixes p)

unfoldable pub store_prefix : ℕ → Prefix → M (Unit {0})
store_prefix p d = modify λ w. record w { prefixes = write w.prefixes p (some d) }

unfoldable pub free_prefix : ℕ → M (Unit {0})
free_prefix p = load_prefix p >>= λ _. modify λ w. record w { prefixes = write w.prefixes p none }

unfoldable pub load_nbr : ℕ → M Neighbor
load_nbr p = get >>= λ w. expect (w.nbrs p)

unfoldable pub load_intf : ℕ → M Interface
load_intf p = get >>= λ w. expect (w.intfs p)

-- Changing the fields of one cell.
unfoldable pub update_route : ℕ → (Route → Route) → M (Unit {0})
update_route p f = do r ← load_route p; store_route p (f r)

unfoldable pub update_prefix : ℕ → (Prefix → Prefix) → M (Unit {0})
update_prefix p f = do d ← load_prefix p; store_prefix p (f d)

unfoldable pub update_nbr : ℕ → (Neighbor → Neighbor) → M (Unit {0})
update_nbr p f = do n ← load_nbr p; modify (λ w. record w { nbrs = write w.nbrs p (some (f n)) })

unfoldable pub update_intf : ℕ → (Interface → Interface) → M (Unit {0})
update_intf p f = do
  i ← load_intf p
  modify (λ w. record w { intfs = write w.intfs p (some (f i)) })

unfoldable pub zebra_call : ZebraCall → M (Unit {0})
zebra_call c = modify λ w. record w { zebra = w.zebra ++ c ∷ [] }
