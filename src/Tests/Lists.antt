-- ===== src/Tests/Lists.antt =====
-- Lists as the linked list library's documentation describes them, which satisfy its laws.
use eigrpd.Base.{
  ℕ, ◌≡◌, ◌≢◌, ◌⊎◌, inl, inr, refl, ap, Bool, true, false, List, [], ◌∷◌, ◌++◌, All, ◌==◌,
  if◌then◌else◌, Ordering, arith,
}
use eigrpd.LinkList.{LinkList, Head}

abbrev pub lookup : List ℕ → ℕ → Bool
lookup [] x = false
lookup (y ∷ l) x = if y == x then true else lookup l x

abbrev pub delete : List ℕ → ℕ → List ℕ
delete [] x = []
delete (y ∷ l) x = if y == x then l else y ∷ delete l x

abbrev pub delete_tail : List ℕ → List ℕ
delete_tail [] = []
delete_tail (x ∷ []) = []
delete_tail (x ∷ y ∷ l) = x ∷ delete_tail (y ∷ l)

pub delete_tail-append : (l : List ℕ) (x : ℕ) → delete_tail (l ++ x ∷ []) ≡ l
delete_tail-append [] x = refl
delete_tail-append (y ∷ []) x = refl
delete_tail-append (y ∷ z ∷ l) x = ap (λ r. y ∷ r) (delete_tail-append (z ∷ l) x)

abbrev pub is_lt : Ordering → Bool
is_lt Ordering.lt = true
is_lt Ordering.eq = false
is_lt Ordering.gt = false

abbrev pub add_sort : (ℕ → ℕ → Ordering) → List ℕ → ℕ → List ℕ
add_sort cmp [] x = x ∷ []
add_sort cmp (y ∷ l) x = if is_lt (cmp x y) then x ∷ y ∷ l else y ∷ add_sort cmp l x

Ordering-cases : (o : Ordering) → (o ≡ Ordering.lt) ⊎ (o ≢ Ordering.lt)
Ordering-cases o = ground arith

abbrev pub Sorted : (ℕ → ℕ → Ordering) → List ℕ → ℕ → Type 0
Sorted cmp l x =
    (front : List ℕ) × (back : List ℕ) × (l ≡ front ++ back)
    × (add_sort cmp l x ≡ front ++ x ∷ back)
    × All (λ y. cmp x y ≢ Ordering.lt) front
    × Head (λ y. cmp x y ≡ Ordering.lt) back

pub add_sort_lem : (cmp : ℕ → ℕ → Ordering) (l : List ℕ) (x : ℕ) → Sorted cmp l x
add_sort_lem cmp [] x = ([], [], refl, refl, tt, tt)
add_sort_lem cmp (y ∷ l) x = elim (Ordering-cases (cmp x y)) [
  | inl e ↦ ([], y ∷ l, refl, (rw e refl), tt, e)
  | inr n ↦ behind n (add_sort_lem cmp l x)
]
  where
    behind : cmp x y ≢ Ordering.lt → Sorted cmp l x → Sorted cmp (y ∷ l) x
    behind n (front, back, eq, placed, all, head) =
        (y ∷ front, back, ap (λ r. y ∷ r) eq, ground (arith, placed), (n, all), head)

instance abbrev pub link_list : LinkList
link_list = record {
  add = λ l x. l ++ x ∷ [];
  add_lem = λ l x. refl;
  lookup = lookup;
  lookup-nil = λ x. refl;
  lookup-cons = λ y l x. refl;
  delete = delete;
  delete-nil = λ x. refl;
  delete-cons = λ y l x. refl;
  delete_tail = delete_tail;
  delete_tail-append = delete_tail-append;
  add_sort = add_sort;
  add_sort_lem = λ cmp l x. add_sort_lem cmp l x;
}
