-- ===== src/Stream/Reading.antt =====
-- Reading runs of bytes.
use eigrpd.Base.{
  ℕ, ◌+◌, ◌*◌, ◌≤◌, ◌≡◌, refl, sym, ap, ◌∙◌, true, List, [], ◌∷◌, ◌++◌, length-append, leb, length,
  arith, Bool,
}
use mathlib.Core.Path.{subst}
use eigrpd.Stream.{has, remaining, get_bytes, Buffer, S, ◌>>=◌, pure, StreamLib}
use eigrpd.Stream.Runs.{Holds, Holds-append, Holds-two, Holds-four, append_nil}

-- `m` takes a run of bytes off the stream and returns a value.
pub record Reads {A : Type 0} (m : S A) (xs : List ℕ) (a : A) : Type 0 where
  pub at :
      (s : Buffer)
      → Holds s.byte s.getp xs
      → s.getp + length xs ≤ s.endp
      → m s ≡ (a, record s { getp = s.getp + length xs })

pub Reads-cast :
    {A : Type 0} (m : S A) (xs ys : List ℕ) (a b : A)
    → Reads m xs a
    → xs ≡ ys
    → a ≡ b
    → Reads m ys b
Reads-cast m xs ys a b r e f = subst (λ l. Reads m l b) e (subst (λ c. Reads m xs c) f r)

module _ ⦃sl : StreamLib⦄ {A : Type 0} where
  pub Reads-pure : (a : A) → Reads (pure a) [] a
  unfolding pure
  Reads-pure a = record { at = λ s h l. ap (λ n. (a, record s { getp = n })) (omega arith) }

  pub Reads-getc :
      (k : ℕ → S A) (c : ℕ) (xs : List ℕ) (a : A)
      → Reads (k c) xs a
      → Reads (sl.getc >>= k) (c ∷ xs) a
  unfolding ◌>>=◌
  Reads-getc k c xs a r = record {
    at = λ s h l.
        rw (sl.getc_lem s (omega arith), h.0)
          (r.at (record s { getp = s.getp + 1 }) h.1 (omega arith)
            ∙ ap (λ n. (a, record s { getp = n })) (omega arith));
  }

  pub Reads-getw :
      (k : ℕ → S A) (h l : ℕ) (xs : List ℕ) (a : A)
      → Reads (k (h * 256 + l)) xs a
      → Reads (sl.getw >>= k) (h ∷ l ∷ xs) a
  unfolding ◌>>=◌
  Reads-getw k h l xs a r = record {
    at = λ s p q.
        rw (sl.getw_lem s (omega arith), p.0, p.1.0)
          (r.at (record s { getp = s.getp + 2 }) (Holds-two s.byte s.getp xs p.1.1) (omega arith)
            ∙ ap (λ n. (a, record s { getp = n })) (omega arith));
  }

  pub Reads-getl :
      (k : ℕ → S A) (b c d e : ℕ) (xs : List ℕ) (a : A)
      → Reads (k (((b * 256 + c) * 256 + d) * 256 + e)) xs a
      → Reads (sl.getl >>= k) (b ∷ c ∷ d ∷ e ∷ xs) a
  unfolding ◌>>=◌
  Reads-getl k b c d e xs a r = record {
    at = λ s p q.
        rw (sl.getl_lem s (omega arith), p.0, p.1.0, p.1.1.0, p.1.1.1.0)
          (r.at (record s { getp = s.getp + 4 }) (Holds-four s.byte s.getp xs p.1.1.1.1)
              (omega arith)
            ∙ ap (λ n. (a, record s { getp = n })) (omega arith));
  }

  pub Reads-assoc :
      {B C : Type 0} (m : S B) (j : B → S C) (k : C → S A) (xs : List ℕ) (a : A)
      → Reads (m >>= λ x. (j x >>= k)) xs a
      → Reads ((m >>= j) >>= k) xs a
  unfolding ◌>>=◌
  Reads-assoc m j k xs a r = r

  pub Reads-pure_bind :
      {B : Type 0} (k : B → S A) (b : B) (xs : List ℕ) (a : A)
      → Reads (k b) xs a
      → Reads (pure b >>= k) xs a
  unfolding ◌>>=◌
  Reads-pure_bind k b xs a r = r

  pub has_step :
      (k : Bool → S A) (n : ℕ) (s : Buffer) → s.getp + n ≤ s.endp → (has n >>= k) s ≡ k true s
  unfolding ◌>>=◌ has
  has_step k n s h = let enough : leb n (remaining s) ≡ true = ground arith in rw enough refl

  -- One number read, whatever follows.
  pub getw_step :
      (k : ℕ → S A) (h l : ℕ) (xs : List ℕ) (s : Buffer)
      → Holds s.byte s.getp (h ∷ l ∷ xs)
      → s.getp + 2 ≤ s.endp
      → ((sl.getw >>= k) s ≡ k (h * 256 + l) (record s { getp = s.getp + 2 }))
        × Holds s.byte (s.getp + 2) xs
  unfolding ◌>>=◌
  getw_step k h l xs s p e =
      (rw (sl.getw_lem s e, p.0, p.1.0) refl, Holds-two s.byte s.getp xs p.1.1)

  pub getl_step :
      (k : ℕ → S A) (b c d e : ℕ) (xs : List ℕ) (s : Buffer)
      → Holds s.byte s.getp (b ∷ c ∷ d ∷ e ∷ xs)
      → s.getp + 4 ≤ s.endp
      → ((sl.getl >>= k) s
          ≡ k (((b * 256 + c) * 256 + d) * 256 + e) (record s { getp = s.getp + 4 }))
        × Holds s.byte (s.getp + 4) xs
  unfolding ◌>>=◌
  getl_step k b c d e xs s p q = (
    rw (sl.getl_lem s q, p.0, p.1.0, p.1.1.0, p.1.1.1.0) refl,
    Holds-four s.byte s.getp xs p.1.1.1.1,
  )

  -- A run that is read, and what follows it.
  pub Reads-bind :
      {B : Type 0} (m : S B) (k : B → S A) (xs ys : List ℕ) (b : B) (a : A)
      → Reads m xs b
      → Reads (k b) ys a
      → Reads (m >>= k) (xs ++ ys) a
  unfolding ◌>>=◌
  Reads-bind m k xs ys b a r q = record {
    at = λ s h l.
        let sum : length (xs ++ ys) ≡ length xs + length ys = length-append xs ys in
        let (front, back) = Holds-append s.byte s.getp xs ys h in
        rw (r.at s front (omega arith)) (
          q.at (record s { getp = s.getp + length xs }) back (omega arith)
          ∙ ap (λ n. (a, record s { getp = n })) (omega arith));
  }

  -- A run whose value is passed on.
  pub Reads-map :
      {B : Type 0} (m : S B) (f : B → A) (xs : List ℕ) (b : B)
      → Reads m xs b
      → Reads (m >>= λ x. pure (f x)) xs (f b)
  Reads-map m f xs b r =
      subst (λ l. Reads (m >>= λ x. pure (f x)) l (f b)) (append_nil xs)
        (Reads-bind m _ xs [] b (f b) r (Reads-pure (f b)))

  -- A run, and a part that returns and does nothing else.
  pub Reads-ret :
      {B : Type 0} (m : S B) (k : B → S A) (xs : List ℕ) (b : B) (a : A)
      → Reads m xs b
      → k b ≡ pure a
      → Reads (m >>= k) xs a
  Reads-ret m k xs b a r e =
      subst (λ l. Reads (m >>= k) l a) (append_nil xs)
        (Reads-bind m k xs [] b a r (subst (λ n. Reads n [] a) (sym e) (Reads-pure a)))

  -- The bytes left to be read are enough.
  pub Reads-has :
      (k : Bool → S A) (n : ℕ) (xs : List ℕ) (a : A)
      → n ≤ length xs
      → Reads (k true) xs a
      → Reads (has n >>= k) xs a
  unfolding ◌>>=◌ has
  Reads-has k n xs a e r = record {
    at = λ s h l. let enough : leb n (remaining s) ≡ true = ground arith in rw enough (r.at s h l);
  }

module _ ⦃sl : StreamLib⦄ where
  bytes_read : (xs : List ℕ) → Reads (get_bytes (length xs)) xs xs
  unfolding get_bytes
  bytes_read [] = Reads-pure []
  bytes_read (x ∷ xs) =
      Reads-getc _ x xs (x ∷ xs)
        (Reads-map (get_bytes (length xs)) (λ ys. x ∷ ys) xs xs (bytes_read xs))

  pub get_bytes-Reads : (n : ℕ) (xs : List ℕ) → length xs ≡ n → Reads (get_bytes n) xs xs
  get_bytes-Reads n xs e = subst (λ m. Reads (get_bytes m) xs xs) e (bytes_read xs)
