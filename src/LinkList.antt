-- ===== src/LinkList.antt =====
-- FRR's linked list library (lib/linklist.h), which the daemon calls and does not implement:
-- a parameter of the model. A list holds pointers, which are compared by address.
use eigrpd.Base.{
  ℕ, ◌≡◌, ◌≢◌, Bool, true, false, List, [], ◌∷◌, ◌++◌, All, ◌==◌, if◌then◌else◌, Ordering,
}

-- The first element of a list, if there is one, satisfies a predicate.
abbrev pub Head : (ℕ → Type 0) → List ℕ → Type 0
Head P [] = Unit
Head P (x ∷ xs) = P x

pub record LinkList : Type 0 where
  -- listnode_add: at the end of the list.
  pub add : List ℕ → ℕ → List ℕ
  pub add_lem : (l : List ℕ) (x : ℕ) → add l x ≡ l ++ x ∷ []
  -- listnode_lookup: whether the list holds the pointer.
  pub lookup : List ℕ → ℕ → Bool
  pub lookup-nil : (x : ℕ) → lookup [] x ≡ false
  pub lookup-cons :
      (y : ℕ) (l : List ℕ) (x : ℕ) → lookup (y ∷ l) x ≡ (if y == x then true else lookup l x)
  -- listnode_delete: the first occurrence of the pointer, if there is one.
  pub delete : List ℕ → ℕ → List ℕ
  pub delete-nil : (x : ℕ) → delete [] x ≡ []
  pub delete-cons :
      (y : ℕ) (l : List ℕ) (x : ℕ) → delete (y ∷ l) x ≡ (if y == x then l else y ∷ delete l x)
  -- list_delete_node of listtail: the last element.
  pub delete_tail : List ℕ → List ℕ
  pub delete_tail-append : (l : List ℕ) (x : ℕ) → delete_tail (l ++ x ∷ []) ≡ l
  -- listnode_add_sort: insertion sort by the list's `cmp`, before the first greater element.
  pub add_sort : (ℕ → ℕ → Ordering) → List ℕ → ℕ → List ℕ
  pub add_sort_lem :
      (cmp : ℕ → ℕ → Ordering) (l : List ℕ) (x : ℕ)
      → (front : List ℕ) × (back : List ℕ) × (l ≡ front ++ back)
        × (add_sort cmp l x ≡ front ++ x ∷ back)
        × All (λ y. cmp x y ≢ Ordering.lt) front
        × Head (λ y. cmp x y ≡ Ordering.lt) back
