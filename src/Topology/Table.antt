-- ===== src/Topology/Table.antt =====
-- The part of eigrpd/eigrp_topology.c that adds and removes routes and destinations, and picks the
-- successors.
use eigrpd.Base.{
  ℕ, zero, suc, Bool, true, false, not, ◌&&◌, Option, none, some, List, [], ◌∷◌, ltb, ◌==◌,
  if◌then◌else◌, length,
}
use mathlib.Core.Option
use eigrpd.Metric.{max_metric}
use eigrpd.LinkList.{LinkList}
use eigrpd.State.{
  TopologyType, connected, remote, remote_external, route_add, route_delete, Dest, dest_same, M,
  pure, get, modify, when, ◌>>=◌, ◌>>◌, load_route, free_route, load_prefix, store_prefix,
  free_prefix, update_route, zebra_call,
}
use eigrpd.Topology.{route_cmp, set_intable}

abbrev pub is_connected : TopologyType → Bool
is_connected connected = true
is_connected remote = false
is_connected remote_external = false

abbrev pub is_some {ℓ} : {A : Type ℓ} → Option A → Bool
is_some none = false
is_some (some a) = true

-- The topology table with the node of a destination set.
abbrev pub set_info : (Dest → Option ℕ) → Dest → Option ℕ → Dest → Option ℕ
set_info t d i e = if dest_same e d then i else t e

module _ ⦃ll : LinkList⦄ where
  -- eigrp_route_descriptor_add
  unfoldable pub route_descriptor_add : ℕ → ℕ → M (Unit {0})
  route_descriptor_add node route = do
    d ← load_prefix node
    w ← get
    when (not (ll.lookup d.entries route)) do
      store_prefix node (record d { entries = ll.add_sort (route_cmp w) d.entries route })
      update_route route (λ r. record r { prefix = some node })
      zebra_call (route_add d.destination (ll.add [] route) d.fdistance)

  -- eigrp_route_descriptor_delete
  unfoldable pub route_descriptor_delete : ℕ → ℕ → M (Unit {0})
  route_descriptor_delete node route = do
    d ← load_prefix node
    when (ll.lookup d.entries route) do
      store_prefix node (record d { entries = ll.delete d.entries route })
      zebra_call (route_delete d.destination)
      free_route route

  -- eigrp_prefix_descriptor_add
  unfoldable pub prefix_descriptor_add : ℕ → M (Unit {0})
  prefix_descriptor_add p = do
    d ← load_prefix p
    modify (λ w. record w { table = set_info w.table d.destination (some p) })

  -- The loop of eigrp_prefix_descriptor_delete over the entries.
  unfoldable pub delete_routes : ℕ → List ℕ → M (Unit {0})
  delete_routes p [] = pure tt
  delete_routes p (e ∷ es) = do route_descriptor_delete p e; delete_routes p es

  -- eigrp_prefix_descriptor_delete
  unfoldable pub prefix_descriptor_delete : ℕ → M (Unit {0})
  prefix_descriptor_delete p = do
    d ← load_prefix p
    w ← get
    when (is_some (w.table d.destination)) do
      modify (λ v. record v { topology_changes = ll.delete v.topology_changes p })
      delete_routes p d.entries
      zebra_call (route_delete d.destination)
      modify (λ v. record v { table = set_info v.table d.destination none })
      free_prefix p

  -- The loop of eigrp_topology_get_successor, over what is left of the entries.
  unfoldable pub successors_from : List ℕ → List ℕ → M (List ℕ)
  successors_from found [] = pure found
  successors_from found (e ∷ es) = do
    r ← load_route e
    successors_from (if r.successor then ll.add found e else found) es

  abbrev pub non_empty : List ℕ → Option (List ℕ)
  non_empty [] = none
  non_empty (x ∷ xs) = some (x ∷ xs)

  -- eigrp_topology_get_successor: `none` is the NULL of a destination with no successor.
  unfoldable pub get_successor : ℕ → M (Option (List ℕ))
  get_successor p = do
    d ← load_prefix p
    found ← successors_from [] d.entries
    pure (non_empty found)

  -- The loop of eigrp_topology_get_successor_max, with the length of the list as its fuel.
  unfoldable pub trim : ℕ → ℕ → List ℕ → List ℕ
  trim zero maxpaths l = l
  trim (suc n) maxpaths l =
      let rest = trim n maxpaths (ll.delete_tail l) in if ltb maxpaths (length l) then rest else l

  -- eigrp_topology_get_successor_max
  unfoldable pub get_successor_max : ℕ → ℕ → M (Option (List ℕ))
  get_successor_max p maxpaths = do
    found ← get_successor p
    pure (Option.map (λ l. trim (length l) maxpaths l) found)

  -- eigrp_update_routing_table
  unfoldable pub update_routing_table : ℕ → M (Unit {0})
  update_routing_table p = do
    w ← get
    found ← get_successor_max p w.max_paths
    d ← load_prefix p
    elim found [
      | some l ↦ (zebra_call (route_add d.destination l d.fdistance) >> set_intable true l)
      | none ↦ (zebra_call (route_delete d.destination) >> set_intable false d.entries)
    ]

  -- The loop of eigrp_update_topology_table_prefix: unreachable routes go.
  unfoldable pub drop_unreachable : ℕ → List ℕ → M (Unit {0})
  drop_unreachable p [] = pure tt
  drop_unreachable p (e ∷ es) = do
    r ← load_route e
    when (r.distance == max_metric) (route_descriptor_delete p e)
    drop_unreachable p es

  -- eigrp_update_topology_table_prefix
  unfoldable pub update_topology_table_prefix : ℕ → M (Unit {0})
  update_topology_table_prefix p = do
    d ← load_prefix p
    drop_unreachable p d.entries
    when (d.distance == max_metric && not (is_connected d.nt)) (prefix_descriptor_delete p)
