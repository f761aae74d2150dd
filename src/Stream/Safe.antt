-- ===== src/Stream/Safe.antt =====
-- Reading inside the bounds: code that moves the place to read at, forth and no further than the
-- end, on any bytes.
use eigrpd.Base.{
  ℕ, suc, zero, ◌+◌, ◌≤◌, ◌≡◌, refl, ap, ◌∙◌, inl, inr, Bool, true, false, Option, none, some, leb,
  if◌then◌else◌, arith, Bool-cases,
}
use eigrpd.Stream.{Buffer, S, ◌>>=◌, pure, StreamLib, remaining, has, get_bytes}

-- `t` is `s` read to a place between its own and its end.
pub record Moved (s t : Buffer) : Type 0 where
  pub same : t ≡ record s { getp = t.getp }
  pub forth : s.getp ≤ t.getp
  pub within : t.getp ≤ s.endp

-- Where so many bytes are left to be read, `m` stays inside the stream.
pub record Safe {A : Type 0} (n : ℕ) (m : S A) : Type 0 where
  pub at : (s : Buffer) → s.getp + n ≤ s.endp → s.endp ≤ s.size → Moved s (m s).1

read_again :
    (s t : Buffer) (g : ℕ)
    → t ≡ record s { getp = t.getp }
    → record t { getp = g } ≡ record s { getp = g }
read_again s t g e = ap {A = Buffer} (λ b. record b { getp = g }) e

pub Moved-on : (s t u : Buffer) → Moved s t → Moved t u → Moved s u
Moved-on s t u m n =
    let end : t.endp ≡ s.endp = ap (λ b. b.endp) m.same in
    record {
      same = n.same ∙ read_again s t u.getp m.same;
      forth = omega (arith, m.forth, n.forth);
      within = omega (arith, n.within, end);
    }

trans : (s : Buffer) (g : ℕ) (u : Buffer) → s.getp ≤ g → Moved (record s { getp = g }) u → Moved s u
trans s g u h m = record { same = m.same; forth = omega (arith, m.forth); within = m.within }

pub within_end : (s t : Buffer) → Moved s t → t.getp + 0 ≤ t.endp
within_end s t m =
    let end : t.endp ≡ s.endp = ap (λ b. b.endp) m.same in omega (arith, m.within, end)

pub within_size : (s t : Buffer) → Moved s t → s.endp ≤ s.size → t.endp ≤ t.size
within_size s t m h =
    let end : t.endp ≡ s.endp = ap (λ b. b.endp) m.same in
    let size : t.size ≡ s.size = ap (λ b. b.size) m.same in omega (arith, h, end, size)

module _ ⦃sl : StreamLib⦄ {A : Type 0} where
  pub Safe-pure : (n : ℕ) (a : A) → Safe n (pure a)
  unfolding pure
  Safe-pure n a = record {
    at = λ s h l. record { same = refl; forth = omega arith; within = omega arith };
  }

  pub Safe-weaken : (n k : ℕ) (m : S A) → n ≤ k → Safe n m → Safe k m
  Safe-weaken n k m h p = record { at = λ s q l. p.at s (omega arith) l }

  pub Safe-getc : (n : ℕ) (k : ℕ → S A) → ((c : ℕ) → Safe n (k c)) → Safe (suc n) (sl.getc >>= k)
  unfolding ◌>>=◌
  Safe-getc n k p = record {
    at = λ s h l.
        let moved : Moved s (k (sl.getc s).0 (sl.getc s).1).1 = rw (sl.getc_lem s (omega arith)) (
          trans s (s.getp + 1) _ (omega arith)
            ((p _).at (record s { getp = s.getp + 1 }) (omega arith) l)) in
        moved;
  }

  pub Safe-getw :
      (n : ℕ) (k : ℕ → S A) → ((c : ℕ) → Safe n (k c)) → Safe (suc (suc n)) (sl.getw >>= k)
  unfolding ◌>>=◌
  Safe-getw n k p = record {
    at = λ s h l.
        let moved : Moved s (k (sl.getw s).0 (sl.getw s).1).1 = rw (sl.getw_lem s (omega arith)) (
          trans s (s.getp + 2) _ (omega arith)
            ((p _).at (record s { getp = s.getp + 2 }) (omega arith) l)) in
        moved;
  }

  pub Safe-getl :
      (n : ℕ) (k : ℕ → S A)
      → ((c : ℕ) → Safe n (k c))
      → Safe (suc (suc (suc (suc n)))) (sl.getl >>= k)
  unfolding ◌>>=◌
  Safe-getl n k p = record {
    at = λ s h l.
        let moved : Moved s (k (sl.getl s).0 (sl.getl s).1).1 = rw (sl.getl_lem s (omega arith)) (
          trans s (s.getp + 4) _ (omega arith)
            ((p _).at (record s { getp = s.getp + 4 }) (omega arith) l)) in
        moved;
  }

  pub Safe-bind :
      {B : Type 0} (n : ℕ) (m : S B) (k : B → S A)
      → Safe n m
      → ((b : B) → Safe 0 (k b))
      → Safe n (m >>= k)
  unfolding ◌>>=◌
  Safe-bind n m k p q = record {
    at = λ s h l. Moved-on s (m s).1 _ (p.at s h l) (
        (q (m s).0).at (m s).1 (within_end s (m s).1 (p.at s h l))
          (within_size s (m s).1 (p.at s h l) l));
  }

  pub Safe-has :
      (n : ℕ) (k : Bool → S A) → Safe n (k true) → Safe 0 (k false) → Safe 0 (has n >>= k)
  unfolding ◌>>=◌ has
  Safe-has n k p q = record {
    at = λ s h l. elim (Bool-cases (leb n (remaining s))) [
      | inl enough ↦
          (let moved : Moved s (k (leb n (remaining s)) s).1 =
              rw enough (p.at s (ground arith) l) in
            moved)
      | inr short ↦
          (let moved : Moved s (k (leb n (remaining s)) s).1 = rw short (q.at s h l) in moved)
    ];
  }

  pub Safe-assoc :
      {B C : Type 0} (n : ℕ) (m : S B) (j : B → S C) (k : C → S A)
      → Safe n (m >>= λ x. (j x >>= k))
      → Safe n ((m >>= j) >>= k)
  unfolding ◌>>=◌
  Safe-assoc n m j k p = p

  pub Safe-pure_bind :
      {B : Type 0} (n : ℕ) (b : B) (k : B → S A) → Safe n (k b) → Safe n (pure b >>= k)
  unfolding ◌>>=◌
  Safe-pure_bind n b k p = p

  pub Safe-choice :
      {B : Type 0} (n : ℕ) (o : Option B) (m : S A) (k : B → S A)
      → Safe n m
      → ((b : B) → Safe n (k b))
      → Safe n (elim o [ none ↦ m | some b ↦ k b ])
  Safe-choice n none m k p q = p
  Safe-choice n (some b) m k p q = q b

  pub Safe-if : (n : ℕ) (b : Bool) (m k : S A) → Safe n m → Safe n k → Safe n (if b then m else k)
  Safe-if n true m k p q = p
  Safe-if n false m k p q = q

module _ ⦃sl : StreamLib⦄ where
  pub get_bytes-Safe : (n : ℕ) → Safe n (get_bytes n)
  unfolding get_bytes
  get_bytes-Safe zero = Safe-pure 0 _
  get_bytes-Safe (suc n) =
      Safe-getc n _ λ c. Safe-bind n (get_bytes n) _ (get_bytes-Safe n) λ cs. Safe-pure 0 _
