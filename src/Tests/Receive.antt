-- ===== src/Tests/Receive.antt =====
-- The handlers of routing packets, at a concrete query and with a decoder of one byte a route.
use eigrpd.Base.{ℕ, ◌≡◌, refl, none, some, ◌⊎◌, Option, List, [], ◌∷◌, length}
use eigrpd.Fsm.{fsm_event}
use eigrpd.Fsm.Action.{
  nsm, add_change, refresh, keep_passive, event_keep_state, diffuse, event_nq_fcn, event_q_fcn, act,
}
use eigrpd.Fsm.Event.{
  load_head, is_feasible, with_route, reply_received, event_passive, event_in, get_fsm_event,
}
use eigrpd.Metric.{
  bandwidth_to_scaled, delay_to_scaled, calculate_metrics, total_metric, calculate_total_metrics,
  metrics_is_same,
}
use eigrpd.Neighbor.{count_up, count_intfs, nbr_count_get}
use eigrpd.Packetizer.{opc_query, work_free, opcode_valid, enqueue, reply_send_route, reply_send}
use eigrpd.Receive.{Decoder, query_unknown_reply_send, receive_known, receive_into}
use eigrpd.State.{
  ◌>>◌, World, write, pure, get, modify, ◌>>=◌, when, load_route, store_route, load_prefix,
  store_prefix, free_route, load_nbr, load_intf, update_route, update_prefix, zebra_call,
}
use eigrpd.Topology.{
  route_create, flag_route, flag_entries, update_node_flags, set_intable, prefix_descriptor_lookup,
}
use eigrpd.Topology.Distance.{route_intf, record_metrics, reposition, measure, update_distance}
use eigrpd.Topology.Table.{
  successors_from, get_successor, trim, get_successor_max, update_routing_table,
}
use eigrpd.Topology.Core.{core, core_of, Core}
use eigrpd.Fsm.Outcome.{Outcome}
use eigrpd.Receive.Known.{receive_known-Outcome}
use eigrpd.Receive.Unknown.{unknown_reply, unknown_reply_owned, after}
use eigrpd.Tests.Lists.{link_list}
use eigrpd.Tests.Scenario.{neighbor, world, prefix, route, far}

-- A packet that is a list of the routes it decodes to.
abbrev pub routes_of : ℕ → List ℕ → World → Option ((Option ℕ × List ℕ) × World)
routes_of nbr [] w = some ((none, []), w)
routes_of nbr (p ∷ l) w = some ((some p, l), w)

abbrev pub list_decoder : Decoder (List ℕ)
list_decoder = record { remaining = length; decode = routes_of }

-- The neighbor's query has been decoded into a fresh route.
abbrev pub received : World
received = record world {
  routes =
      write world.routes 11
        (some (record route { metric = far; prefix = none; adv_router = none }));
  next_route = 12;
}

abbrev state_after : Option (Unit {0} × World) → World
state_after none = received
state_after (some r) = r.1

abbrev handled : World
handled = state_after (receive_known opc_query 0 0 11 received)

handles : receive_known opc_query 0 0 11 received ≡ some (tt, handled)
unfolding route_create flag_route flag_entries update_node_flags set_intable opcode_valid enqueue
    reply_send_route reply_send count_up count_intfs nbr_count_get fsm_event route_intf
    record_metrics reposition measure update_distance successors_from get_successor trim
    get_successor_max update_routing_table load_head is_feasible with_route reply_received
    event_passive event_in get_fsm_event nsm add_change refresh keep_passive event_keep_state
    diffuse event_nq_fcn event_q_fcn act pure get modify ◌>>=◌ when load_route store_route
    load_prefix store_prefix free_route load_nbr load_intf update_route update_prefix zebra_call
    bandwidth_to_scaled delay_to_scaled calculate_metrics total_metric calculate_total_metrics
    metrics_is_same prefix_descriptor_lookup receive_known receive_into
handles = refl

receive_known-Outcome_example :
    (handled.prefixes 0 ≡ none)
    ⊎ ((e : Core) × (core_of 0 handled ≡ some e) × Outcome (core prefix) e)
receive_known-Outcome_example =
    receive_known-Outcome opc_query 0 0 11 prefix received handled refl handles

unknown_reply_owned_example :
    (query_unknown_reply_send 0 10 >> work_free (unknown_reply 0 world)) world
    ≡ some (tt, after world (unknown_reply 0 world))
unknown_reply_owned_example = unknown_reply_owned 0 10 route (neighbor 0) world refl refl refl refl
