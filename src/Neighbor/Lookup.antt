-- ===== src/Neighbor/Lookup.antt =====
-- The lookup of a neighbor in the whole instance, as a search in one list.
use eigrpd.Base.{
  ℕ, ◌==◌, ◌≡◌, refl, Bool, Bool-cases, inl, inr, false, Option, none, some, List, [], ◌∷◌, ◌++◌,
  if◌then◌else◌,
}
use eigrpd.State.{Neighbor, Interface, World, pure, ◌>>=◌, get, expect, load_nbr, load_intf}
use eigrpd.Neighbor.{lookup_in, lookup_by_addr, or_else, lookup_intfs, lookup_by_addr_process}

-- Every neighbor of a list is allocated; every interface of a list is, with its neighbors.
abbrev pub LiveNbrs : World → List ℕ → Type 0
LiveNbrs w [] = Unit
LiveNbrs w (n ∷ ns) = ((nbr : Neighbor) × (w.nbrs n ≡ some nbr)) × LiveNbrs w ns

abbrev pub LiveIntfs : World → List ℕ → Type 0
LiveIntfs w [] = Unit
LiveIntfs w (i ∷ is) =
    ((intf : Interface) × (w.intfs i ≡ some intf) × LiveNbrs w intf.nbrs) × LiveIntfs w is

-- The neighbors of the interfaces, in their order, and the first that a test holds of.
abbrev pub nbrs_of : Option Interface → List ℕ
nbrs_of none = []
nbrs_of (some i) = i.nbrs

abbrev pub all_nbrs : World → List ℕ → List ℕ
all_nbrs w [] = []
all_nbrs w (i ∷ is) = nbrs_of (w.intfs i) ++ all_nbrs w is

abbrev pub has_src : ℕ → Option Neighbor → Bool
has_src addr none = false
has_src addr (some n) = addr == n.src

abbrev pub find : (ℕ → Bool) → List ℕ → Option ℕ
find test [] = none
find test (n ∷ ns) = if test n then some n else find test ns

abbrev pub first_of : Option ℕ → Option ℕ → Option ℕ
first_of none b = b
first_of (some a) b = some a

find-append :
    (test : ℕ → Bool) (xs ys : List ℕ)
    → find test (xs ++ ys) ≡ first_of (find test xs) (find test ys)
find-append test [] ys = refl
find-append test (x ∷ xs) ys = elim (Bool-cases (test x)) [
  | inl same ↦ rw same refl
  | inr other ↦ rw other (find-append test xs ys)
]

lookup_in-find :
    (w : World) (addr : ℕ) (ns : List ℕ)
    → LiveNbrs w ns
    → lookup_in addr ns w ≡ some (find (λ n. has_src addr (w.nbrs n)) ns, w)
unfolding lookup_in load_nbr pure ◌>>=◌ get expect
lookup_in-find w addr [] h = refl
lookup_in-find w addr (n ∷ ns) ((nbr, e), h) = elim (Bool-cases (addr == nbr.src)) [
  | inl same ↦ rw (e, same) refl
  | inr other ↦ rw (e, other) (lookup_in-find w addr ns h)
]

or_else-first_of :
    (w : World) (a b : Option ℕ) (next : World → Option (Option ℕ × World))
    → next w ≡ some (b, w)
    → or_else a next w ≡ some (first_of a b, w)
unfolding or_else pure
or_else-first_of w none b next h = h
or_else-first_of w (some a) b next h = refl

lookup_intfs-find :
    (w : World) (addr : ℕ) (is : List ℕ)
    → LiveIntfs w is
    → lookup_intfs addr is w ≡ some (find (λ n. has_src addr (w.nbrs n)) (all_nbrs w is), w)
unfolding lookup_intfs lookup_by_addr load_intf pure ◌>>=◌ get expect
lookup_intfs-find w addr [] h = refl
lookup_intfs-find w addr (i ∷ is) ((intf, e, hn), h) =
    rw
      (
        e,
        lookup_in-find w addr intf.nbrs hn,
        find-append (λ n. has_src addr (w.nbrs n)) intf.nbrs (all_nbrs w is),
      )
      (or_else-first_of w (find (λ n. has_src addr (w.nbrs n)) intf.nbrs)
        (find (λ n. has_src addr (w.nbrs n)) (all_nbrs w is)) (lookup_intfs addr is)
        (lookup_intfs-find w addr is h))

-- Where the instance's interfaces and their neighbors are allocated, the lookup by address in the
-- whole instance ends without a fault, changes nothing, and gives the first neighbor with that
-- address, in the order of the interfaces and of each interface's list, or none where no neighbor
-- has the address.
pub lookup_by_addr_process-find :
    (w : World) (addr : ℕ)
    → LiveIntfs w w.eiflist
    → lookup_by_addr_process addr w
      ≡ some (find (λ n. has_src addr (w.nbrs n)) (all_nbrs w w.eiflist), w)
unfolding lookup_by_addr_process ◌>>=◌ get
lookup_by_addr_process-find w addr h = lookup_intfs-find w addr w.eiflist h
