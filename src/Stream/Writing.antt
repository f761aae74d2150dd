-- ===== src/Stream/Writing.antt =====
-- Writing runs of bytes.
use eigrpd.Base.{
  ℕ, ◌+◌, ◌≤◌, ◌≡◌, ap, ◌∙◌, List, [], ◌∷◌, ◌++◌, ◌/◌, map, length-append, length, u8, arith,
}
use mathlib.Core.Path.{subst}
use eigrpd.Stream.{
  put_bytes, Buffer, S, ◌>>=◌, ◌>>◌, pure, over, with_bytes, bytes_w, bytes_l, StreamLib,
}
use eigrpd.Stream.Runs.{over-cons, over_two, over_four, over-append, append_nil}

-- `m` writes a run of bytes and returns a value.
pub record Puts {A : Type 0} (m : S A) (xs : List ℕ) (a : A) : Type 0 where
  pub at : (s : Buffer) → s.endp + length xs ≤ s.size → m s ≡ (a, with_bytes s xs (length xs))

pub Puts-cast :
    {A : Type 0} (m : S A) (xs ys : List ℕ) (a : A) → Puts m xs a → xs ≡ ys → Puts m ys a
Puts-cast m xs ys a p e = subst (λ l. Puts m l a) e p

module _ ⦃sl : StreamLib⦄ {A : Type 0} where
  pub Puts-pure : (a : A) → Puts (pure a) [] a
  unfolding pure
  Puts-pure a = record { at = λ s l. ap (λ n. (a, record s { endp = n })) (omega arith) }

  pub Puts-putc :
      (k : S A) (c : ℕ) (xs : List ℕ) (a : A) → Puts k xs a → Puts (sl.putc c >> k) (u8 c ∷ xs) a
  unfolding ◌>>=◌
  Puts-putc k c xs a p = record {
    at = λ s l. rw (sl.putc_lem s c (omega arith)) (
        p.at (with_bytes s (u8 c ∷ []) 1) (omega arith)
        ∙ ap (λ b. (a, record s { byte = b; endp = s.endp + 1 + length xs }))
            (over-cons s.byte (u8 c) s.endp xs)
        ∙ ap (λ n. (a, record s { byte = over s.byte s.endp (u8 c ∷ xs); endp = n }))
            (omega arith));
  }

  pub Puts-putw :
      (k : S A) (n : ℕ) (xs : List ℕ) (a : A)
      → Puts k xs a
      → Puts (sl.putw n >> k) (u8 (n / 256) ∷ u8 n ∷ xs) a
  unfolding ◌>>=◌
  Puts-putw k n xs a p = record {
    at = λ s l. rw (sl.putw_lem s n (omega arith)) (
        p.at (with_bytes s (bytes_w n) 2) (omega arith)
        ∙ ap (λ b. (a, record s { byte = b; endp = s.endp + 2 + length xs }))
            (over_two s.byte s.endp _ _ xs)
        ∙ ap (λ m. (a, record s { byte = over s.byte s.endp (u8 (n / 256) ∷ u8 n ∷ xs); endp = m }))
            (omega arith));
  }

  pub Puts-putl :
      (k : S A) (n : ℕ) (xs : List ℕ) (a : A)
      → Puts k xs a
      → Puts (sl.putl n >> k) (u8 (n / 16777216) ∷ u8 (n / 65536) ∷ u8 (n / 256) ∷ u8 n ∷ xs) a
  unfolding ◌>>=◌
  Puts-putl k n xs a p = record {
    at = λ s l. rw (sl.putl_lem s n (omega arith)) (
        p.at (with_bytes s (bytes_l n) 4) (omega arith)
        ∙ ap (λ b. (a, record s { byte = b; endp = s.endp + 4 + length xs }))
            (over_four s.byte s.endp _ _ _ _ xs)
        ∙ ap
            (λ m. (
              a,
              record s {
                byte =
                    over s.byte s.endp
                      (u8 (n / 16777216) ∷ u8 (n / 65536) ∷ u8 (n / 256) ∷ u8 n ∷ xs);
                endp = m;
              },
            ))
            (omega arith));
  }

  pub Puts-bind :
      {B : Type 0} (m : S B) (k : B → S A) (xs ys : List ℕ) (b : B) (a : A)
      → Puts m xs b
      → Puts (k b) ys a
      → Puts (m >>= k) (xs ++ ys) a
  unfolding ◌>>=◌
  Puts-bind m k xs ys b a p q = record {
    at = λ s l.
        let sum : length (xs ++ ys) ≡ length xs + length ys = length-append xs ys in
        rw (p.at s (omega arith)) (
          q.at (with_bytes s xs (length xs)) (omega arith)
          ∙ ap (λ f. (a, record s { byte = f; endp = s.endp + length xs + length ys }))
              (over-append s.byte s.endp xs ys)
          ∙ ap (λ n. (a, record s { byte = over s.byte s.endp (xs ++ ys); endp = n }))
              (omega arith));
  }

  pub Puts-map :
      {B : Type 0} (m : S B) (f : B → A) (xs : List ℕ) (b : B)
      → Puts m xs b
      → Puts (m >>= λ x. pure (f x)) xs (f b)
  Puts-map m f xs b p =
      subst (λ l. Puts (m >>= λ x. pure (f x)) l (f b)) (append_nil xs)
        (Puts-bind m _ xs [] b (f b) p (Puts-pure (f b)))

module _ ⦃sl : StreamLib⦄ where
  pub put_bytes-Puts : (xs : List ℕ) → Puts (put_bytes xs) (map u8 xs) tt
  unfolding put_bytes
  put_bytes-Puts [] = Puts-pure tt
  put_bytes-Puts (x ∷ xs) = Puts-putc _ x _ tt (put_bytes-Puts xs)
