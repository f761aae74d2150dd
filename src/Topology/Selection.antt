-- ===== src/Topology/Selection.antt =====
-- The selection of successors, eigrp_topology_get_successor and eigrp_topology_get_successor_max of
-- eigrpd/eigrp_topology.c.
use eigrpd.Base.{
  ℕ, zero, suc, ◌+◌, ◌≤◌, ◌≡◌, refl, sym, ap, ◌∙◌, inl, inr, Bool, true, false, none, some, List,
  [], ◌∷◌, ◌++◌, All, length, length-append, if◌then◌else◌, arith, Bool-cases,
}
use mathlib.Core.Option
use eigrpd.LinkList.{LinkList}
use eigrpd.State.{Route, Prefix, World, ◌>>=◌, load_route, load_prefix}
use eigrpd.Topology.Table.{successors_from, non_empty, get_successor, trim, get_successor_max}

-- Every pointer of the list is to a live route.
abbrev pub AreLive : World → List ℕ → Type 0
AreLive w l = All (λ e. (r : Route) × (w.routes e ≡ some r)) l

-- The routes of a list that carry the successor flag, in their order.
abbrev pub is_successor : World → ℕ → Bool
is_successor w e = elim (w.routes e) [ none ↦ false | some r ↦ r.successor ]

abbrev pub successors_of : World → List ℕ → List ℕ
successors_of w [] = []
successors_of w (e ∷ es) =
    let rest = successors_of w es in if is_successor w e then e ∷ rest else rest

abbrev pub take : ℕ → List ℕ → List ℕ
take zero l = []
take (suc n) [] = []
take (suc n) (x ∷ l) = x ∷ take n l

take_all : (n : ℕ) (l : List ℕ) → length l ≤ n → take n l ≡ l
take_all zero [] h = refl
take_all zero (x ∷ l) h = absurd (omega arith)
take_all (suc n) [] h = refl
take_all (suc n) (x ∷ l) h = ap (λ r. x ∷ r) (take_all n l (omega arith))

take-append : (n : ℕ) (l m : List ℕ) → n ≤ length l → take n (l ++ m) ≡ take n l
take-append zero l m h = refl
take-append (suc n) [] m h = absurd (omega arith)
take-append (suc n) (x ∷ l) m h = ap (λ r. x ∷ r) (take-append n l m (omega arith))

append_nil : (l : List ℕ) → l ++ [] ≡ l
append_nil [] = refl
append_nil (x ∷ l) = ap (λ r. x ∷ r) (append_nil l)

append_cons : (l : List ℕ) (x : ℕ) (m : List ℕ) → (l ++ x ∷ []) ++ m ≡ l ++ x ∷ m
append_cons [] x m = refl
append_cons (y ∷ l) x m = ap (λ r. y ∷ r) (append_cons l x m)

-- A list that is not empty has a last element.
last_of : (x : ℕ) (l : List ℕ) → (m : List ℕ) × (y : ℕ) × (x ∷ l ≡ m ++ y ∷ [])
last_of x [] = ([], x, refl)
last_of x (y ∷ l) = (let (m, z, e) = last_of y l in (x ∷ m, z, ap (λ r. x ∷ r) e))

with_flag :
    (w : World) (e : ℕ) (es : List ℕ)
    → is_successor w e ≡ true
    → successors_of w (e ∷ es) ≡ e ∷ successors_of w es
with_flag w e es h = rw h refl

without_flag :
    (w : World) (e : ℕ) (es : List ℕ)
    → is_successor w e ≡ false
    → successors_of w (e ∷ es) ≡ successors_of w es
without_flag w e es h = rw h refl

module _ ⦃ll : LinkList⦄ where
  -- Deleting the tail while the list is too long keeps its first elements.
  trim-take :
      (n maxpaths : ℕ) (l : List ℕ) → length l ≤ n + maxpaths → trim n maxpaths l ≡ take maxpaths l
  unfolding trim
  trim-take zero maxpaths l h = sym (take_all maxpaths l (omega arith))
  trim-take (suc n) maxpaths [] h = ground (arith, take_all maxpaths [])
  trim-take (suc n) maxpaths (x ∷ l) h = shorter (λ m. trim-take n maxpaths m) (last_of x l)
    where
      shorter :
          ((m : List ℕ) → length m ≤ n + maxpaths → trim n maxpaths m ≡ take maxpaths m)
          → (m : List ℕ) × (y : ℕ) × (x ∷ l ≡ m ++ y ∷ [])
          → trim (suc n) maxpaths (x ∷ l) ≡ take maxpaths (x ∷ l)
      shorter ih (m, y, e) = rw e (
          ground (
            arith,
            length-append m (y ∷ []),
            ap (λ r. length r) e,
            take_all maxpaths (m ++ y ∷ []),
            take-append maxpaths m (y ∷ []),
            ih m,
            ll.delete_tail-append m y,
            ap (λ r. trim n maxpaths r) (ll.delete_tail-append m y),
          ))

  successors_from-successors_of :
      (w : World) (es found : List ℕ)
      → AreLive w es
      → successors_from found es w ≡ some (found ++ successors_of w es, w)
  unfolding successors_from ◌>>=◌ load_route
  successors_from-successors_of w [] found live = ap (λ r. some (r, w)) (sym (append_nil found))
  successors_from-successors_of w (e ∷ es) found ((r, here), live) = elim (Bool-cases r.successor) [
    | inl flagged ↦
        rw
          (
            here,
            flagged,
            ll.add_lem found e,
            successors_from-successors_of w es (found ++ e ∷ []) live,
          )
          (ap (λ l. some (l, w))
            (append_cons found e (successors_of w es)
              ∙ ap (λ l. found ++ l) (sym (with_flag w e es (flag ∙ flagged)))))
    | inr unflagged ↦
        rw (here, unflagged, successors_from-successors_of w es found live)
          (ap (λ l. some (found ++ l, w)) (sym (without_flag w e es (flag ∙ unflagged))))
  ]
    where
      flag : is_successor w e ≡ r.successor
      flag = rw (here, is_successor) refl

  pub get_successor-successors_of :
      (p : ℕ) (d : Prefix) (w : World)
      → w.prefixes p ≡ some d
      → AreLive w d.entries
      → get_successor p w ≡ some (non_empty (successors_of w d.entries), w)
  unfolding get_successor ◌>>=◌ load_prefix
  get_successor-successors_of p d w here live =
      rw (here, successors_from-successors_of w d.entries [] live) refl

  -- On a destination whose entries are live, eigrp_topology_get_successor_max returns, changes
  -- nothing, and gives the entries that carry the successor flag in their order, the first
  -- `maxpaths` of them, or NULL where no entry carries the flag.
  pub get_successor_max-take :
      (p maxpaths : ℕ) (d : Prefix) (w : World)
      → w.prefixes p ≡ some d
      → AreLive w d.entries
      → get_successor_max p maxpaths w
        ≡ some (Option.map (λ l. take maxpaths l) (non_empty (successors_of w d.entries)), w)
  unfolding get_successor_max get_successor ◌>>=◌ load_prefix
  get_successor_max-take p maxpaths d w here live =
      rw (here, successors_from-successors_of w d.entries [] live)
        (ap (λ o. some (o, w)) (trimmed (successors_of w d.entries)))
    where
      trimmed :
          (l : List ℕ)
          → Option.map (λ m. trim (length m) maxpaths m) (non_empty l)
            ≡ Option.map (λ m. take maxpaths m) (non_empty l)
      trimmed [] = refl
      trimmed (x ∷ l) = ap some (trim-take (length (x ∷ l)) maxpaths (x ∷ l) (omega arith))
