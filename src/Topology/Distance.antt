-- ===== src/Topology/Distance.antt =====
-- eigrp_topology_update_distance of eigrpd/eigrp_topology.c.
use eigrpd.Base.{ℕ, Bool, true, false, ◌&&◌, Option, none, some, ltb, if◌then◌else◌, u32}
use eigrpd.Metric.{Metrics, calculate_metrics, calculate_total_metrics, metrics_is_same}
use eigrpd.LinkList.{LinkList}
use eigrpd.State.{
  Route, Prefix, TopologyType, connected, remote, remote_external, M, pure, get, expect, ◌>>=◌,
  ◌>>◌, load_route, store_route, load_prefix, store_prefix, load_nbr, load_intf,
}
use eigrpd.Topology.{
  MetricChange, decrease, same, increase, MsgData, msg_connected, msg_int, msg_ext, Msg, route_cmp,
  or_else,
}
use eigrpd.Topology.Table.{is_connected}

abbrev pub is_external : TopologyType → Bool
is_external connected = false
is_external remote = false
is_external remote_external = true

-- `!route->ei && msg->adv_router`: the interface that the route lacks is that of its neighbor.
unfoldable pub route_intf : Option ℕ → Option ℕ → M (Option ℕ)
route_intf (some ei) nbr = pure (some ei)
route_intf none none = pure none
route_intf none (some nbr) = do n ← load_nbr nbr; pure n.ei

-- The metric of the message is recorded in the route, and its total metric and distance.
unfoldable pub record_metrics : ℕ → Metrics → M MetricChange
record_metrics route metrics = do
  w ← get
  reported ← expect (calculate_metrics w.k_values metrics)
  r ← load_route route
  let rd = u32 reported
  let s = record r { metric = metrics; reported_metric = metrics; reported_distance = rd }
  store_route route s
  ei ← expect s.ei
  intf ← load_intf ei
  (total, distance) ← expect (calculate_total_metrics w.k_values intf.params metrics)
  store_route route (record s { total_metric = total; distance = u32 distance })
  pure (if ltb r.reported_distance rd then increase else decrease)

module _ ⦃ll : LinkList⦄ where
  -- The route moves to the place of its new distance.
  unfoldable pub reposition : ℕ → ℕ → M (Unit {0})
  reposition p route = do
    d ← load_prefix p
    w ← get
    store_prefix p
        (record d { entries = ll.add_sort (route_cmp w) (ll.delete d.entries route) route })

  -- The `switch`, on the message's type: `none` is an early return.
  unfoldable pub measure : MsgData → Prefix → Route → ℕ → Metrics → M (Option MetricChange)
  measure msg_connected d r route metrics = pure (if is_connected d.nt then none else some decrease)
  measure msg_int d r route metrics =
      if metrics_is_same metrics r.reported_metric
      then pure none
      else (record_metrics route metrics >>= λ c. pure (some c))
  measure msg_ext d r route metrics =
      if is_external d.nt && metrics_is_same metrics r.reported_metric
      then pure none
      else (record_metrics route metrics >>= λ c. pure (some c))

  -- eigrp_topology_update_distance
  unfoldable pub update_distance : Msg → M MetricChange
  update_distance msg = do
    d ← load_prefix msg.prefix
    route ← expect msg.route
    r ← load_route route
    ei ← route_intf r.ei msg.adv_router
    let s = record r {
      adv_router = or_else r.adv_router msg.adv_router;
      prefix = or_else r.prefix (some msg.prefix);
      ei = ei;
    }
    store_route route s
    change ← measure msg.data_type d s route msg.metrics
    elim change [ none ↦ pure same | some c ↦ (reposition msg.prefix route >> pure c) ]
