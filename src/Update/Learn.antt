-- ===== src/Update/Learn.antt =====
-- What eigrp_update_receive of eigrpd/eigrp_update.c does with a destination that the table does not
-- hold.
use eigrpd.Base.{ℕ, true, false, some, ◌==◌, if◌then◌else◌, u32}
use eigrpd.Metric.{max_metric, calculate_metrics, calculate_total_metrics}
use eigrpd.LinkList.{LinkList}
use eigrpd.State.{
  remote, remote_external, passive, M, get, modify, expect, ◌>>=◌, ◌>>◌, load_route, load_intf,
  update_route, update_prefix,
}
use eigrpd.Filter.{Filters, FilterSet, update_prefix_apply}
use eigrpd.Topology.{update_node_flags}
use eigrpd.Topology.Table.{prefix_descriptor_add, route_descriptor_add}
use eigrpd.Receive.{tlv_ipv4_ext, prefix_create}

module _ ⦃ll : LinkList⦄ where
  module _ (filters : Filters) (instance_lists : FilterSet) (intf_lists : ℕ → FilterSet) where
    -- A destination that the table does not hold: it is added with the route as its successor.
    unfoldable pub learn : ℕ → ℕ → ℕ → M (Unit {0})
    learn nbr ei route = do
      r ← load_route route
      prefix ← prefix_create
      update_prefix prefix (λ d. record d {
        destination = r.dest;
        state = passive;
        nt = if r.type == tlv_ipv4_ext then remote_external else remote;
      })
      w ← get
      reported ← expect (calculate_metrics w.k_values r.metric)
      let m = r.metric
      let seen =
          if update_prefix_apply filters instance_lists (intf_lists ei) r.dest
          then record m { delay = max_metric }
          else m
      own ← expect r.ei
      intf ← load_intf own
      (total, distance) ← expect (calculate_total_metrics w.k_values intf.params seen)
      update_route route (λ e. record e {
        adv_router = some nbr;
        reported_metric = seen;
        reported_distance = u32 reported;
        total_metric = total;
        distance = u32 distance;
        prefix = some prefix;
        successor = true;
        fsuccessor = false;
        intable = false;
        external = false;
      })
      update_prefix prefix (λ d. record d {
        fdistance = u32 distance;
        distance = u32 distance;
        rdistance = u32 distance;
      })
      prefix_descriptor_add prefix
      route_descriptor_add prefix route
      update_prefix prefix (λ d. record d { reported_metric = total })
      update_node_flags prefix
      update_prefix prefix (λ d. record d { need_update = true })
      modify (λ v. record v { topology_changes = ll.add v.topology_changes prefix })
