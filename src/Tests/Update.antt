-- ===== src/Tests/Update.antt =====
-- The handler of updates, at a graceful restart of two packets.
use eigrpd.Base.{ℕ, ◌≡◌, refl, none, some, List, [], ◌∷◌, Option, false, arith}
use eigrpd.State.{
  World, Keeps, ends, pure, get, modify, ◌>>=◌, when, expect, load_nbr, load_intf, load_prefix,
  load_route, update_nbr, update_intf, store_prefix, store_route, update_prefix, update_route,
  free_route, zebra_call,
}
use eigrpd.Filter.{Filters, FilterSet}
use eigrpd.Session.{Wire}
use eigrpd.Update.{
  update_known, update_route_in, update_from, gr_first, resync, update_finish, update_receive,
}
use eigrpd.Update.Graceful.{
  list_new, load_list, store_list, list_delete, remove_from, remove_received_prefix_gr,
  neighbor_prefixes_lookup,
}
use eigrpd.Update.Walks.{QuietDecoder, nbrs_of, lists_of}
use eigrpd.Update.Dangling.{graceful_restart_faults}
use eigrpd.Topology.Walk.{prefixes_from, neighbor_prefixes_from, table_lookup_ipv4}
use eigrpd.Packetizer.{
  query_send, query_send_from, query_send_all, update_send_all, enqueue, opcode_valid,
}
use eigrpd.Receive.{hello_send_ack, receive_known, receive_into}
use eigrpd.Packetizer.{reply_send_route, reply_send}
use eigrpd.Fsm.{fsm_event}
use eigrpd.Fsm.Action.{
  nsm, add_change, refresh, keep_passive, event_keep_state, diffuse, event_nq_fcn, event_q_fcn, act,
}
use eigrpd.Fsm.Event.{
  load_head, is_feasible, with_route, reply_received, event_passive, event_in, get_fsm_event,
}
use eigrpd.Metric.{
  bandwidth_to_scaled, delay_to_scaled, calculate_metrics, total_metric, calculate_total_metrics,
  metrics_is_same,
}
use eigrpd.Neighbor.{count_up, count_intfs, nbr_count_get}
use eigrpd.Topology.{
  route_create, flag_route, flag_entries, update_node_flags, set_intable, prefix_descriptor_lookup,
}
use eigrpd.Topology.Distance.{route_intf, record_metrics, reposition, measure, update_distance}
use eigrpd.Topology.Table.{
  successors_from, get_successor, trim, get_successor_max, update_routing_table,
}
use eigrpd.Tests.Lists.{link_list}
use eigrpd.Tests.Receive.{list_decoder, received}
use eigrpd.Tests.Scenario.{neighbor, world, dest, near}

abbrev pub open_filters : Filters
open_filters = record { access_denies = λ l d. false; prefix_denies = λ l d. false }

abbrev pub no_lists : FilterSet
no_lists = record { list = none; prefix = none }

abbrev pub plain_wire : Wire
plain_wire = record {
  in_cksum = λ s n. 0;
  auth_on = λ ei. false;
  auth_add = λ ei s. (0, s);
  auth_digest = λ ei s. s;
}

list_quiet :
    {X : Type 0} (f : World → X) (nbr : ℕ) (l : List ℕ) → Keeps f (list_decoder.decode nbr l)
list_quiet f nbr [] = record { at = λ w. ends refl }
list_quiet f nbr (p ∷ l) = record { at = λ w. ends refl }

list_decoder-quiet : QuietDecoder list_decoder
list_decoder-quiet = record { nbrs = list_quiet nbrs_of; lists = list_quiet lists_of }

abbrev update : ℕ → ℕ → List ℕ → World → Option (Unit {0} × World)
update flags sequence routes w =
    update_receive open_filters no_lists (λ ei. no_lists) list_decoder plain_wire near (dest ∷ []) 0
      0 flags sequence routes w

abbrev world_of : Option (Unit {0} × World) → World
world_of none = world
world_of (some r) = r.1

abbrev restarting : World
restarting = world_of (update 5 7 (11 ∷ []) received)

restarts : update 5 7 (11 ∷ []) received ≡ some (tt, restarting)
unfolding update_from gr_first resync update_finish update_receive list_new load_list list_delete
    neighbor_prefixes_lookup prefixes_from neighbor_prefixes_from table_lookup_ipv4 query_send_from
    query_send_all update_send_all enqueue opcode_valid hello_send_ack pure get modify ◌>>=◌ when
    expect load_nbr load_intf load_prefix load_route update_nbr update_intf update_known
    update_route_in remove_received_prefix_gr remove_from store_list query_send route_create
    flag_route flag_entries update_node_flags set_intable reply_send_route reply_send count_up
    count_intfs nbr_count_get fsm_event route_intf record_metrics reposition measure update_distance
    successors_from get_successor trim get_successor_max update_routing_table load_head is_feasible
    with_route reply_received event_passive event_in get_fsm_event nsm add_change refresh
    keep_passive event_keep_state diffuse event_nq_fcn event_q_fcn act store_route store_prefix
    free_route update_route update_prefix zebra_call bandwidth_to_scaled delay_to_scaled
    calculate_metrics total_metric calculate_total_metrics metrics_is_same prefix_descriptor_lookup
    receive_known receive_into
restarts = refl

graceful_restart_faults_example : update 8 8 [] restarting ≡ none
graceful_restart_faults_example =
    graceful_restart_faults open_filters no_lists (λ ei. no_lists) list_decoder list_decoder-quiet
      plain_wire near (dest ∷ []) 0 0 0 7 8 (11 ∷ []) [] (neighbor 0) received restarting refl
      (λ e. absurd (ground (arith, e))) (λ e. absurd (ground (arith, e))) restarts
