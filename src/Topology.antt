-- ===== src/Topology.antt =====
-- eigrpd/eigrp_topology.c: routes, destinations and the topology table.
pub mod Table
pub mod Distance
pub mod Frame
pub mod Core
pub mod Selection
pub mod Flags
pub mod Walk
pub mod Quiet
use eigrpd.Base.{
  ℕ, suc, ◌*◌, ◌<◌, Bool, true, false, not, ◌&&◌, ◌||◌, Option, none, some, List, [], ◌∷◌, compare,
  Ordering, ltb, leb, ◌==◌, if◌then◌else◌, length, u32, u64,
}
use eigrpd.Metric.{Metrics, max_metric, calculate_metrics, calculate_total_metrics, metrics_is_same}
use eigrpd.LinkList.{LinkList}
use eigrpd.State.{
  Route, Prefix, TopologyType, connected, remote_external, World, Work, ZebraCall, route_add,
  route_delete, Dest, dest_same, zero_metrics, zero_dest, zero_extdata, M, pure, fault, get, modify,
  expect, when, ◌>>=◌, ◌>>◌, write, load_route, store_route, free_route, load_prefix, store_prefix,
  free_prefix, load_nbr, load_intf, update_route, update_prefix, zebra_call,
}

-- enum metric_change
pub data MetricChange : Type 0 where
  decrease same increase : MetricChange

-- `msg_data_t`
pub data MsgData : Type 0 where
  msg_connected msg_int msg_ext : MsgData

-- `eigrp_fsm_action_message_t`, without the instance and the `change` that is kept for display.
pub record Msg : Type 0 where
  pub packet_type : ℕ
  pub adv_router : Option ℕ
  pub route : Option ℕ
  pub prefix : ℕ
  pub data_type : MsgData
  pub metrics : Metrics

-- The route that eigrp_topology_route_create makes: at the greatest distance.
abbrev pub new_route : Option ℕ → Route
new_route ei = record {
  type = 0;
  dest = zero_dest;
  nexthop = 0;
  prefix = none;
  adv_router = none;
  reported_metric = zero_metrics;
  reported_distance = max_metric;
  total_metric = zero_metrics;
  distance = max_metric;
  metric = zero_metrics;
  extdata = zero_extdata;
  successor = false;
  fsuccessor = false;
  intable = false;
  external = false;
  ei = ei;
}

-- eigrp_topology_route_create
unfoldable pub route_create : Option ℕ → M ℕ
route_create ei w = some (
  w.next_route,
  record w {
    next_route = suc w.next_route;
    routes = write w.routes w.next_route (some (new_route ei));
  },
)

-- eigrp_route_descriptor_cmp, by the distances in the heap. A list of entries holds live routes.
abbrev pub distance_of : World → ℕ → ℕ
distance_of w p = elim (w.routes p) [ none ↦ 0 | some r ↦ r.distance ]

abbrev pub route_cmp : World → ℕ → ℕ → Ordering
route_cmp w p q = compare (distance_of w p) (distance_of w q)

-- A pointer that is NULL yields to another.
abbrev pub or_else : Option ℕ → Option ℕ → Option ℕ
or_else none q = q
or_else (some p) q = some p

abbrev pub same_pointer : Option ℕ → ℕ → Bool
same_pointer none q = false
same_pointer (some p) q = p == q

-- eigrp_prefix_descriptor_lookup: the first entry that came from the neighbor.
unfoldable pub prefix_descriptor_lookup : List ℕ → ℕ → M (Option ℕ)
prefix_descriptor_lookup [] nbr = pure none
prefix_descriptor_lookup (e ∷ es) nbr = do
  r ← load_route e
  if same_pointer r.adv_router nbr then pure (some e) else prefix_descriptor_lookup es nbr

-- The body of eigrp_topology_update_node_flags.
unfoldable pub flag_route : Prefix → ℕ → Route → Route
flag_route d variance r =
    if ltb r.reported_distance d.fdistance
    then (if leb r.distance (u64 (d.distance * variance)) && not (r.distance == max_metric)
        then record r { successor = true; fsuccessor = false }
        else record r { successor = false; fsuccessor = true })
    else record r { successor = false; fsuccessor = false }

unfoldable pub flag_entries : Prefix → ℕ → List ℕ → M (Unit {0})
flag_entries d variance [] = pure tt
flag_entries d variance (e ∷ es) = do
  update_route e (flag_route d variance)
  flag_entries d variance es

-- eigrp_topology_update_node_flags
unfoldable pub update_node_flags : ℕ → M (Unit {0})
update_node_flags p = do d ← load_prefix p; w ← get; flag_entries d w.variance d.entries

unfoldable pub set_intable : Bool → List ℕ → M (Unit {0})
set_intable b [] = pure tt
set_intable b (e ∷ es) = do update_route e (λ r. record r { intable = b }); set_intable b es
