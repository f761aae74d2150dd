-- ===== src/Topology/Walk.antt =====
-- The walks of eigrpd/eigrp_topology.c over the whole topology table.
use eigrpd.Base.{ℕ, Option, none, some, List, [], ◌∷◌, if◌then◌else◌}
use eigrpd.LinkList.{LinkList}
use eigrpd.State.{Dest, M, pure, get, ◌>>=◌, ◌>>◌, load_prefix, load_route}
use eigrpd.Topology.{same_pointer, update_node_flags}
use eigrpd.Topology.Table.{prefix_descriptor_delete}

-- eigrp_topology_table_lookup_ipv4
unfoldable pub table_lookup_ipv4 : Dest → M (Option ℕ)
table_lookup_ipv4 d = do w ← get; pure (w.table d)

-- `route_top` and `route_next` of the host's table give the nodes, here their destinations. A node
-- without `info` is passed over.
unfoldable pub walk : (ℕ → M (Unit {0})) → List Dest → M (Unit {0})
walk visit [] = pure tt
walk visit (d ∷ ds) = do
  info ← table_lookup_ipv4 d
  elim info [ none ↦ pure tt | some p ↦ visit p ]
  walk visit ds

-- eigrp_topology_update_all_node_flags
unfoldable pub update_all_node_flags : List Dest → M (Unit {0})
update_all_node_flags nodes = walk update_node_flags nodes

module _ ⦃ll : LinkList⦄ where
  -- eigrp_topology_delete_all, and eigrp_topology_free, which then gives the empty table back.
  unfoldable pub topology_delete_all : List Dest → M (Unit {0})
  topology_delete_all nodes = walk prefix_descriptor_delete nodes

  -- The inner loop of eigrp_neighbor_prefixes_lookup: the destination is added for every route of
  -- it that came from the neighbor.
  unfoldable pub prefixes_from : ℕ → ℕ → List ℕ → List ℕ → M (List ℕ)
  prefixes_from nbr p [] found = pure found
  prefixes_from nbr p (e ∷ es) found = do
    r ← load_route e
    prefixes_from nbr p es (if same_pointer r.adv_router nbr then ll.add found p else found)

  -- eigrp_neighbor_prefixes_lookup
  unfoldable pub neighbor_prefixes_from : ℕ → List Dest → List ℕ → M (List ℕ)
  neighbor_prefixes_from nbr [] found = pure found
  neighbor_prefixes_from nbr (d ∷ ds) found = do
    info ← table_lookup_ipv4 d
    next ← elim info [
      | none ↦ pure found
      | some p ↦ do e ← load_prefix p; prefixes_from nbr p e.entries found
    ]
    neighbor_prefixes_from nbr ds next
