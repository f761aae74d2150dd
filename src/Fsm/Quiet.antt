-- ===== src/Fsm/Quiet.antt =====
-- The state machine changes routes, destinations, the table, the packetizer's work and zebra's, and
-- nothing else of the instance: every view that does not look at these is kept.
use eigrpd.Base.{ℕ, zero, suc, Option, none, some, List, [], ◌∷◌}
use eigrpd.LinkList.{LinkList}
use eigrpd.State.{
  Route, Prefix, FsmState, passive, active_0, active_1, active_2, active_3, World, pure, fault,
  expect, ◌>>=◌, ◌>>◌, load_nbr, update_route, Keeps, Keeps-bind, Keeps-modify, Keeps-pure,
  Keeps-get, Keeps-fault, Keeps-when,
}
use eigrpd.Packetizer.{reply_send, reply_send_route, enqueue, opcode_valid}
use eigrpd.Neighbor.{nbr_count_get, count_intfs, count_up}
use eigrpd.Topology.{MetricChange, Msg, route_create}
use eigrpd.Topology.Quiet.{
  Blind, quiet-load_prefix, quiet-load_nbr, quiet-load_intf, quiet-update_prefix, quiet_rules,
  quiet-update_node_flags, quiet-get_successor, quiet-update_routing_table, quiet-update_distance,
  quiet-update_topology_table_prefix,
}
use eigrpd.Fsm.Event.{
  load_head, is_feasible, with_route, reply_received, event_passive, last_reply_checked,
  last_reply_reset, event_active_0, event_active_1, event_active_2, event_active_3, event_in,
  get_fsm_event,
}
use eigrpd.Fsm.Action.{
  Action, do_nq_fcn, do_keep_state, do_q_fcn, do_lr, do_dinc, do_lr_fcs, do_lr_fcn, do_qact, nsm,
  add_change, reply_successor, refresh, keep_passive, event_keep_state, publish, event_lr, diffuse,
  event_nq_fcn, event_q_fcn, event_lr_fcs, event_lr_fcn, event_qact, act,
}
use eigrpd.Fsm.{fsm_event}

module _ {X : Type 0} {f : World → X} (b : Blind f) where
  pub quiet-reply_send : (nbr : Option ℕ) (p : ℕ) → Keeps f (reply_send nbr p)
  unfolding reply_send reply_send_route enqueue opcode_valid
  quiet-reply_send none p = Keeps-pure tt
  quiet-reply_send (some n) p = Keeps-modify _ λ w. b.queue w _

  quiet-count_up : (ns : List ℕ) (c : ℕ) → Keeps f (count_up ns c)
  unfolding count_up
  quiet-count_up [] c = Keeps-pure c
  quiet-count_up (n ∷ ns) c = Keeps-bind _ _ (quiet-load_nbr b n) λ nbr. quiet-count_up ns _

  quiet-count_intfs : (is : List ℕ) (c : ℕ) → Keeps f (count_intfs is c)
  unfolding count_intfs
  quiet-count_intfs [] c = Keeps-pure c
  quiet-count_intfs (i ∷ is) c =
      Keeps-bind _ _ (quiet-load_intf b i)
        λ intf. Keeps-bind _ _ (quiet-count_up intf.nbrs c) λ next. quiet-count_intfs is next

  quiet-nbr_count_get : Keeps f nbr_count_get
  unfolding nbr_count_get
  quiet-nbr_count_get = Keeps-bind _ _ Keeps-get λ w. quiet-count_intfs w.eiflist 0

  quiet-load_head : (l : List ℕ) → Keeps f (load_head l)
  unfolding load_head
  quiet-load_head l = search (quiet_rules, b)

  quiet-is_feasible : (d : Prefix) → Keeps f (is_feasible d)
  unfolding is_feasible
  quiet-is_feasible d = search (quiet_rules, quiet-load_head, b)

  quiet-with_route : (msg : Msg) → Keeps f (with_route msg)
  unfolding with_route
  quiet-with_route msg = by_case msg.route
    where
      by_case :
          (r : Option ℕ)
          → Keeps f (elim r [
            | some route ↦ pure msg
            | none ↦
                (expect msg.adv_router >>= λ adv. load_nbr adv >>= λ nbr.
                route_create nbr.ei >>= λ route.
                update_route route
                  (λ r. record r { adv_router = some adv; prefix = some msg.prefix })
                >> pure (record msg { route = some route }))
          ])
      by_case (some route) = Keeps-pure msg
      by_case none = search (quiet_rules, b) depth 12

  module _ ⦃ll : LinkList⦄ where
    quiet-add_change : (p : ℕ) → Keeps f (add_change p)
    unfolding add_change
    quiet-add_change p = Keeps-modify _ λ w. b.changes w _

    quiet-reply_successor : (p : ℕ) → Keeps f (reply_successor p)
    unfolding reply_successor
    quiet-reply_successor p =
        search (quiet_rules, quiet-get_successor, quiet-load_head, quiet-reply_send, b) depth 10

    quiet-reply_received : (q : ℕ) (r : Route) → Keeps f (reply_received q r)
    unfolding reply_received
    quiet-reply_received q r = search (quiet_rules, b)

    quiet-event_in :
        (s : FsmState) (msg : Msg) (d : Prefix) (r : Route) (c : MetricChange)
        → Keeps f (event_in s msg d r c)
    unfolding event_in event_passive event_active_0 event_active_1 event_active_2 event_active_3
        last_reply_checked last_reply_reset
    quiet-event_in passive msg d r c = search (quiet_rules, quiet-is_feasible, b)
    quiet-event_in active_0 msg d r c =
        search (quiet_rules, quiet-is_feasible, quiet-reply_received, b) depth 10
    quiet-event_in active_1 msg d r c = search (quiet_rules, quiet-reply_received, b) depth 10
    quiet-event_in active_2 msg d r c =
        search (quiet_rules, quiet-is_feasible, quiet-reply_received, b) depth 10
    quiet-event_in active_3 msg d r c = search (quiet_rules, quiet-reply_received, b) depth 10

    quiet-get_fsm_event : (msg : Msg) → Keeps f (get_fsm_event msg)
    unfolding get_fsm_event
    quiet-get_fsm_event msg =
        search (quiet_rules, quiet-with_route, quiet-update_distance, quiet-event_in, b) depth 12

    quiet-publish : (p : ℕ) → Keeps f (publish p)
    unfolding publish
    quiet-publish p =
        search
          (
            quiet_rules, quiet-add_change, quiet-update_node_flags, quiet-update_routing_table,
            quiet-update_topology_table_prefix, b,
          )
          depth 12

    quiet-event_keep_state : (msg : Msg) → Keeps f (event_keep_state msg)
    unfolding event_keep_state keep_passive refresh
    quiet-event_keep_state msg =
        search
          (
            quiet_rules, quiet-load_head, quiet-reply_send, quiet-add_change,
            quiet-update_node_flags, quiet-update_routing_table, b,
          )
          depth 14

    quiet-event_lr : (msg : Msg) → Keeps f (event_lr msg)
    unfolding event_lr
    quiet-event_lr msg =
        search (quiet_rules, quiet-load_head, quiet-reply_successor, quiet-publish, b) depth 12

    quiet-diffuse : (msg : Msg) → Keeps f (diffuse msg)
    unfolding diffuse
    quiet-diffuse msg =
        search (quiet_rules, quiet-nbr_count_get, quiet-event_lr, quiet-add_change, b) depth 10

    quiet-event_lr_fcs : (msg : Msg) → Keeps f (event_lr_fcs msg)
    unfolding event_lr_fcs
    quiet-event_lr_fcs msg =
        search (quiet_rules, quiet-load_head, quiet-reply_successor, quiet-publish, b) depth 12

    quiet-act : (fuel : ℕ) (a : Action) (msg : Msg) → Keeps f (act fault fuel a msg)
    unfolding act event_nq_fcn event_q_fcn event_lr_fcn event_qact
    quiet-act fuel do_nq_fcn msg = search (quiet_rules, quiet-diffuse, b)
    quiet-act fuel do_keep_state msg = quiet-event_keep_state msg
    quiet-act fuel do_q_fcn msg = search (quiet_rules, quiet-diffuse, b)
    quiet-act fuel do_lr msg = quiet-event_lr msg
    quiet-act fuel do_lr_fcs msg = quiet-event_lr_fcs msg
    quiet-act fuel do_lr_fcn msg = search (quiet_rules, quiet-diffuse, b)
    quiet-act fuel do_qact msg = search (quiet_rules, b)
    quiet-act zero do_dinc msg = Keeps-fault
    quiet-act (suc fuel) do_dinc msg = Keeps-bind _ _ (quiet-update_prefix b _ _) λ _.
        Keeps-bind _ _ (quiet-load_prefix b _) λ d.
          Keeps-when _ _
            (Keeps-bind _ _ (quiet-get_fsm_event msg) λ e. quiet-act fuel (nsm d.state e.0) e.1)

    pub quiet-fsm_event : (msg : Msg) → Keeps f (fsm_event msg)
    unfolding fsm_event
    quiet-fsm_event msg = search (quiet_rules, quiet-get_fsm_event, quiet-act, b)
