-- ===== src/Neighbor.antt =====
-- eigrpd/eigrp_neighbor.c: looking up and counting the neighbors, and split horizon.
pub mod Lookup
use eigrpd.Metric.{max_metric}
use eigrpd.Base.{
  ◌==◌, Option, none, some, ℕ, ◌+◌, Bool, true, false, List, [], ◌∷◌, if◌then◌else◌, u32,
}
use eigrpd.State.{Route, NbrState, down, pending, up, M, pure, get, ◌>>=◌, load_nbr, load_intf}

abbrev pub is_up : NbrState → Bool
is_up down = false
is_up pending = false
is_up up = true

-- The inner loop of eigrp_nbr_count_get; the counter is 32 bits wide.
unfoldable pub count_up : List ℕ → ℕ → M ℕ
count_up [] counter = pure counter
count_up (n ∷ ns) counter = do
  nbr ← load_nbr n
  count_up ns (if is_up nbr.state then u32 (counter + 1) else counter)

unfoldable pub count_intfs : List ℕ → ℕ → M ℕ
count_intfs [] counter = pure counter
count_intfs (i ∷ is) counter = do
  intf ← load_intf i
  next ← count_up intf.nbrs counter
  count_intfs is next

-- eigrp_nbr_count_get
unfoldable pub nbr_count_get : M ℕ
nbr_count_get = do w ← get; count_intfs w.eiflist 0

-- eigrp_nbr_split_horizon_check: an unreachable route is sent back, as poison.
pub split_horizon_check : Route → ℕ → Bool
split_horizon_check r ei = if r.distance == max_metric then false else same_intf r.ei
  where
    same_intf : Option ℕ → Bool
    same_intf none = false
    same_intf (some p) = p == ei

-- eigrp_nbr_lookup_by_addr, on the interface's list.
unfoldable pub lookup_in : ℕ → List ℕ → M (Option ℕ)
lookup_in addr [] = pure none
lookup_in addr (n ∷ ns) = do
  nbr ← load_nbr n
  (if addr == nbr.src then pure (some n) else lookup_in addr ns)

unfoldable pub lookup_by_addr : ℕ → ℕ → M (Option ℕ)
lookup_by_addr ei addr = do intf ← load_intf ei; lookup_in addr intf.nbrs

-- eigrp_nbr_lookup_by_addr_process: the interfaces in their order.
unfoldable pub or_else : Option ℕ → M (Option ℕ) → M (Option ℕ)
or_else none next = next
or_else (some n) next = pure (some n)

unfoldable pub lookup_intfs : ℕ → List ℕ → M (Option ℕ)
lookup_intfs addr [] = pure none
lookup_intfs addr (i ∷ is) = do found ← lookup_by_addr i addr; or_else found (lookup_intfs addr is)

unfoldable pub lookup_by_addr_process : ℕ → M (Option ℕ)
lookup_by_addr_process addr = do w ← get; lookup_intfs addr w.eiflist
