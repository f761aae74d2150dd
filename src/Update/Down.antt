-- ===== src/Update/Down.antt =====
-- eigrp_topology_neighbor_down of eigrpd/eigrp_topology.c: an event for every route of a neighbor.
use eigrpd.Base.{ℕ, zero, suc, ◌*◌, Option, none, some, List, [], ◌∷◌, ◌==◌, if◌then◌else◌, length}
use eigrpd.Metric.{Metrics, max_metric}
use eigrpd.LinkList.{LinkList}
use eigrpd.State.{Dest, M, pure, fault, when, ◌>>=◌, ◌>>◌, load_route, load_prefix, load_nbr}
use eigrpd.Packetizer.{opc_update, query_send_all, update_send_all}
use eigrpd.Topology.{Msg, msg_int, same_pointer}
use eigrpd.Topology.Walk.{walk}
use eigrpd.Fsm.{fsm_event}

-- The node after the first one that holds a pointer. A node that is not in the list has been freed.
unfoldable pub node_after : ℕ → List ℕ → M (Option ℕ)
node_after e [] = fault
node_after e (x ∷ []) = if x == e then pure none else fault
node_after e (x ∷ y ∷ l) = let rest = node_after e (y ∷ l) in if x == e then pure (some y) else rest

abbrev pub head_of : List ℕ → Option ℕ
head_of [] = none
head_of (x ∷ l) = some x

module _ ⦃ll : LinkList⦄ where
  -- The message of eigrp_topology_neighbor_down: `stack` is what its fields held before, of which
  -- the code sets the delay alone.
  abbrev pub down_message : Metrics → ℕ → ℕ → ℕ → Msg
  down_message stack nbr p route = record {
    packet_type = opc_update;
    adv_router = some nbr;
    route = some route;
    prefix = p;
    data_type = msg_int;
    metrics = record stack { delay = max_metric };
  }

  -- The inner loop: the next node is taken before the event, which may move the route.
  unfoldable pub down_from : ℕ → Metrics → ℕ → ℕ → Option ℕ → M (Unit {0})
  down_from fuel stack nbr p none = pure tt
  down_from zero stack nbr p (some e) = fault
  down_from (suc fuel) stack nbr p (some e) = do
    d ← load_prefix p
    next ← node_after e d.entries
    r ← load_route e
    when (same_pointer r.adv_router nbr) (fsm_event (down_message stack nbr p e))
    down_from fuel stack nbr p next

  unfoldable pub down_prefix : Metrics → ℕ → ℕ → M (Unit {0})
  down_prefix stack nbr p = do
    d ← load_prefix p
    down_from (2 * length d.entries) stack nbr p (head_of d.entries)

  -- eigrp_topology_neighbor_down
  unfoldable pub topology_neighbor_down : Metrics → List Dest → ℕ → M (Unit {0})
  topology_neighbor_down stack nodes nbr = do
    walk (down_prefix stack nbr) nodes
    _ ← query_send_all
    n ← load_nbr nbr
    update_send_all n.ei
