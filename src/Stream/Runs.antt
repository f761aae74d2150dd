-- ===== src/Stream/Runs.antt =====
-- Runs of bytes that a buffer holds, and runs laid over it.
use eigrpd.Base.{
  ℕ, suc, ◌+◌, ◌≤◌, ◌<◌, ◌≡◌, refl, sym, ap, ◌∙◌, fun_ext, List, [], ◌∷◌, ◌++◌, ◌==◌, if◌then◌else◌,
  length, arith,
}
use mathlib.Core.Path.{subst}
use eigrpd.Stream.{over}

-- The bytes that a buffer holds from a place on.
abbrev pub Holds : (ℕ → ℕ) → ℕ → List ℕ → Type 0
Holds byte i [] = Unit
Holds byte i (x ∷ xs) = (byte i ≡ x) × Holds byte (i + 1) xs

over_first :
    (b : ℕ → ℕ) (x i k j : ℕ) (ys : List ℕ)
    → i < k
    → over (λ n. if n == i then x else b n) k ys j ≡ (if j == i then x else over b k ys j)
over_first b x i k j [] h = refl
over_first b x i k j (y ∷ ys) h = ground (arith, over_first b x i (k + 1) j ys)

pub over-cons :
    (b : ℕ → ℕ) (x i : ℕ) (ys : List ℕ) → over (over b i (x ∷ [])) (i + 1) ys ≡ over b i (x ∷ ys)
over-cons b x i ys = fun_ext λ j. over_first b x i (i + 1) j ys (omega arith)

over_before : (b : ℕ → ℕ) (k j : ℕ) (ys : List ℕ) → j < k → over b k ys j ≡ b j
over_before b k j [] h = refl
over_before b k j (y ∷ ys) h = ground (arith, over_before b (k + 1) j ys)

Holds-same :
    (b c : ℕ → ℕ) (i : ℕ) (xs : List ℕ)
    → ((j : ℕ) → i ≤ j → b j ≡ c j)
    → Holds b i xs
    → Holds c i xs
Holds-same b c i [] e h = tt
Holds-same b c i (x ∷ xs) e (p, h) =
    (sym (e i (omega arith)) ∙ p, Holds-same b c (i + 1) xs (λ j q. e j (omega arith)) h)

-- What is laid over a buffer is held.
pub Holds-over : (b : ℕ → ℕ) (i : ℕ) (xs : List ℕ) → Holds (over b i xs) i xs
Holds-over b i [] = tt
Holds-over b i (x ∷ xs) = (
  ground arith,
  Holds-same (over b (i + 1) xs) _ (i + 1) xs (λ j q. ground arith) (Holds-over b (i + 1) xs),
)

pub over_two :
    (b : ℕ → ℕ) (i x y : ℕ) (ys : List ℕ)
    → over (over b i (x ∷ y ∷ [])) (i + 2) ys ≡ over b i (x ∷ y ∷ ys)
over_two b i x y ys =
    sym (ap (λ h. over h (i + 2) ys) (over-cons b x i (y ∷ [])))
    ∙ ap (λ n. over (over (over b i (x ∷ [])) (i + 1) (y ∷ [])) n ys) (omega arith)
    ∙ over-cons (over b i (x ∷ [])) y (i + 1) ys
    ∙ over-cons b x i (y ∷ ys)

pub over_four :
    (b : ℕ → ℕ) (i x y z v : ℕ) (ys : List ℕ)
    → over (over b i (x ∷ y ∷ z ∷ v ∷ [])) (i + 4) ys ≡ over b i (x ∷ y ∷ z ∷ v ∷ ys)
over_four b i x y z v ys =
    sym (ap (λ h. over h (i + 4) ys) (over_two b i x y (z ∷ v ∷ [])))
    ∙ ap (λ n. over (over (over b i (x ∷ y ∷ [])) (i + 2) (z ∷ v ∷ [])) n ys) (omega arith)
    ∙ over_two (over b i (x ∷ y ∷ [])) (i + 2) z v ys
    ∙ over_two b i x y (z ∷ v ∷ ys)

pub over-append :
    (b : ℕ → ℕ) (i : ℕ) (xs ys : List ℕ)
    → over (over b i xs) (i + length xs) ys ≡ over b i (xs ++ ys)
over-append b i [] ys = ap (λ n. over b n ys) (omega arith)
over-append b i (x ∷ xs) ys =
    sym (ap (λ h. over h (i + suc (length xs)) ys) (over-cons b x i xs))
    ∙ ap (λ n. over (over (over b i (x ∷ [])) (i + 1) xs) n ys) (omega arith)
    ∙ over-append (over b i (x ∷ [])) (i + 1) xs ys
    ∙ over-cons b x i (xs ++ ys)

pub Holds-two : (b : ℕ → ℕ) (i : ℕ) (xs : List ℕ) → Holds b (i + 1 + 1) xs → Holds b (i + 2) xs
Holds-two b i xs h = subst (λ n. Holds b n xs) (omega arith) h

pub Holds-four :
    (b : ℕ → ℕ) (i : ℕ) (xs : List ℕ) → Holds b (i + 1 + 1 + 1 + 1) xs → Holds b (i + 4) xs
Holds-four b i xs h = subst (λ n. Holds b n xs) (omega arith) h

pub Holds-append :
    (b : ℕ → ℕ) (i : ℕ) (xs ys : List ℕ)
    → Holds b i (xs ++ ys)
    → Holds b i xs × Holds b (i + length xs) ys
Holds-append b i [] ys h = (tt, subst (λ n. Holds b n ys) (omega arith) h)
Holds-append b i (x ∷ xs) ys (e, h) =
    (let (front, back) = Holds-append b (i + 1) xs ys h in
      ((e, front), subst (λ n. Holds b n ys) (omega arith) back))

pub append_nil : (xs : List ℕ) → xs ++ [] ≡ xs
append_nil [] = refl
append_nil (x ∷ xs) = ap (λ r. x ∷ r) (append_nil xs)
