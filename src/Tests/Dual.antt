-- ===== src/Tests/Dual.antt =====
-- Runs of the DUAL state machine of eigrpd/eigrp_fsm.c.
use eigrpd.Base.{◌≡◌, refl, none, some, true, ◌⊎◌, Option}
use eigrpd.Fsm.{fsm_event}
use eigrpd.Fsm.Action.{
  nsm, add_change, reply_successor, refresh, keep_passive, event_keep_state, publish, event_lr,
  diffuse, event_nq_fcn, event_q_fcn, event_lr_fcs, event_lr_fcn, event_qact, act,
}
use eigrpd.Fsm.Event.{
  load_head, is_feasible, with_route, reply_received, event_passive, last_reply_checked,
  last_reply_reset, event_active_0, event_active_1, event_active_2, event_active_3, event_in,
  get_fsm_event,
}
use eigrpd.Metric.{
  bandwidth_to_scaled, delay_to_scaled, calculate_metrics, total_metric, calculate_total_metrics,
  metrics_is_same,
}
use eigrpd.Neighbor.{count_up, count_intfs, nbr_count_get}
use eigrpd.Packetizer.{opcode_valid, enqueue, reply_send_route, reply_send}
use eigrpd.State.{
  Prefix, World, active_1, pure, get, modify, ◌>>=◌, when, load_route, store_route, load_prefix,
  store_prefix, load_nbr, load_intf, update_route, update_prefix, zebra_call,
}
use eigrpd.Topology.{route_create, flag_route, flag_entries, update_node_flags, set_intable}
use eigrpd.Topology.Distance.{route_intf, record_metrics, reposition, measure, update_distance}
use eigrpd.Topology.Table.{
  successors_from, get_successor, trim, get_successor_max, update_routing_table, drop_unreachable,
  route_descriptor_delete, update_topology_table_prefix,
}
use eigrpd.Topology.Core.{core}
use eigrpd.Fsm.Outcome.{Arrow, Outcome}
use eigrpd.Fsm.Dual.{fsm_event-Outcome, fsm_event_freezes}
use eigrpd.Tests.Lists.{link_list}
use eigrpd.Tests.Scenario.{world, prefix, update}

abbrev outcome : Option (Unit {0} × World) → World
outcome none = world
outcome (some r) = r.1

abbrev after : World
after = outcome (fsm_event update world)

-- The destination once the update is handled: ACTIVE, with queries wanted.
abbrev active : Prefix
active = record prefix { state = active_1; need_query = true }

handled : fsm_event update world ≡ some (tt, after)
unfolding route_create flag_route flag_entries update_node_flags set_intable opcode_valid enqueue
    reply_send_route reply_send count_up count_intfs nbr_count_get fsm_event route_intf
    record_metrics reposition measure update_distance successors_from get_successor trim
    get_successor_max update_routing_table drop_unreachable route_descriptor_delete
    update_topology_table_prefix load_head is_feasible with_route reply_received event_passive
    last_reply_checked last_reply_reset event_active_0 event_active_1 event_active_2 event_active_3
    event_in get_fsm_event nsm add_change reply_successor refresh keep_passive event_keep_state
    publish event_lr diffuse event_nq_fcn event_q_fcn event_lr_fcs event_lr_fcn event_qact act pure
    get modify ◌>>=◌ when load_route store_route load_prefix store_prefix load_nbr load_intf
    update_route update_prefix zebra_call bandwidth_to_scaled delay_to_scaled calculate_metrics
    total_metric calculate_total_metrics metrics_is_same
handled = refl

becomes_active : after.prefixes 0 ≡ some active
unfolding route_create flag_route flag_entries update_node_flags set_intable opcode_valid enqueue
    reply_send_route reply_send count_up count_intfs nbr_count_get fsm_event route_intf
    record_metrics reposition measure update_distance successors_from get_successor trim
    get_successor_max update_routing_table drop_unreachable route_descriptor_delete
    update_topology_table_prefix load_head is_feasible with_route reply_received event_passive
    last_reply_checked last_reply_reset event_active_0 event_active_1 event_active_2 event_active_3
    event_in get_fsm_event nsm add_change reply_successor refresh keep_passive event_keep_state
    publish event_lr diffuse event_nq_fcn event_q_fcn event_lr_fcs event_lr_fcn event_qact act pure
    get modify ◌>>=◌ when load_route store_route load_prefix store_prefix load_nbr load_intf
    update_route update_prefix zebra_call bandwidth_to_scaled delay_to_scaled calculate_metrics
    total_metric calculate_total_metrics metrics_is_same
becomes_active = refl

fsm_event-Outcome_example :
    (after.prefixes 0 ≡ none)
    ⊎ ((e : Prefix) × (after.prefixes 0 ≡ some e) × Outcome (core prefix) (core e))
fsm_event-Outcome_example = fsm_event-Outcome update prefix world after refl handled

fsm_event_freezes_example :
    Arrow prefix.state active.state
    × (active.fdistance ≡ prefix.fdistance)
    × (active.rdistance ≡ prefix.rdistance)
    × (active.distance ≡ prefix.distance)
    × (active.reported_metric ≡ prefix.reported_metric)
fsm_event_freezes_example =
    fsm_event_freezes update prefix active world after refl handled becomes_active (λ e. cc)
