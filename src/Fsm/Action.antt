-- ===== src/Fsm/Action.antt =====
-- The actions of eigrpd/eigrp_fsm.c, and the table that picks one by state and event.
use eigrpd.Base.{ℕ, zero, suc, Bool, true, false, not, ltb, ◌==◌, if◌then◌else◌}
use eigrpd.Metric.{metrics_is_same}
use eigrpd.LinkList.{LinkList}
use eigrpd.State.{
  Route, Prefix, FsmState, passive, active_0, active_1, active_2, active_3, M, modify, expect, when,
  ◌>>=◌, ◌>>◌, load_prefix, update_prefix,
}
use eigrpd.Packetizer.{opc_query, reply_send}
use eigrpd.Neighbor.{nbr_count_get}
use eigrpd.Topology.{Msg, update_node_flags}
use eigrpd.Topology.Table.{get_successor, update_routing_table, update_topology_table_prefix}
use eigrpd.Fsm.Event.{
  FsmEvent, nq_fcn, lr, q_fcn, lr_fcs, dinc, qact, lr_fcn, is_nil, load_head, get_fsm_event,
}

-- The functions of the table NSM.
pub data Action : Type 0 where
  do_nq_fcn do_keep_state do_q_fcn do_lr do_dinc do_lr_fcs do_lr_fcn do_qact : Action

-- NSM[state][event]
unfoldable pub nsm : FsmState → FsmEvent → Action
nsm passive nq_fcn = do_nq_fcn
nsm passive q_fcn = do_q_fcn
nsm active_0 lr_fcs = do_lr_fcs
nsm active_0 qact = do_qact
nsm active_0 lr_fcn = do_lr_fcn
nsm active_1 lr = do_lr
nsm active_1 dinc = do_dinc
nsm active_1 qact = do_qact
nsm active_2 lr_fcs = do_lr_fcs
nsm active_2 lr_fcn = do_lr_fcn
nsm active_3 lr = do_lr
nsm active_3 dinc = do_dinc
nsm _ _ = do_keep_state

abbrev pub is_passive : FsmState → Bool
is_passive passive = true
is_passive _ = false

abbrev pub is_active_0 : FsmState → Bool
is_active_0 active_0 = true
is_active_0 _ = false

abbrev pub is_active_1 : FsmState → Bool
is_active_1 active_1 = true
is_active_1 _ = false

abbrev pub is_active_2 : FsmState → Bool
is_active_2 active_2 = true
is_active_2 _ = false

abbrev pub is_active_3 : FsmState → Bool
is_active_3 active_3 = true
is_active_3 _ = false

module _ ⦃ll : LinkList⦄ where
  -- listnode_add(eigrp->topology_changes, prefix)
  unfoldable pub add_change : ℕ → M (Unit {0})
  add_change p = modify (λ w. record w { topology_changes = ll.add w.topology_changes p })

  -- A reply to the first successor, which the code asserts to exist.
  unfoldable pub reply_successor : ℕ → M (Unit {0})
  reply_successor p = do
    found ← get_successor p
    successors ← expect found
    route ← load_head successors
    reply_send route.adv_router p

  -- A PASSIVE destination takes the distances and the metric of its best route.
  unfoldable pub refresh : Msg → Route → M (Unit {0})
  refresh msg route = do
    update_prefix msg.prefix (λ e. record e {
      rdistance = route.distance;
      fdistance = route.distance;
      distance = route.distance;
      reported_metric = route.total_metric;
    })
    when (msg.packet_type == opc_query) (reply_send msg.adv_router msg.prefix)
    update_prefix msg.prefix (λ e. record e { need_update = true })
    add_change msg.prefix

  -- The branch of eigrp_fsm_event_keep_state for a PASSIVE destination.
  unfoldable pub keep_passive : Msg → Prefix → M (Unit {0})
  keep_passive msg d = do
    route ← load_head d.entries
    when (not (metrics_is_same d.reported_metric route.total_metric)) (refresh msg route)
    update_node_flags msg.prefix
    update_routing_table msg.prefix

  -- eigrp_fsm_event_keep_state
  unfoldable pub event_keep_state : Msg → M (Unit {0})
  event_keep_state msg = do
    d ← load_prefix msg.prefix
    when (is_passive d.state) (keep_passive msg d)
    when (msg.packet_type == opc_query) (reply_send msg.adv_router msg.prefix)

  -- What eigrp_fsm_event_lr and eigrp_fsm_event_lr_fcs end with.
  unfoldable pub publish : ℕ → M (Unit {0})
  publish p = do
    update_prefix p (λ e. record e { need_update = true })
    add_change p
    update_node_flags p
    update_routing_table p
    update_topology_table_prefix p

  -- eigrp_fsm_event_lr
  unfoldable pub event_lr : Msg → M (Unit {0})
  event_lr msg = do
    d ← load_prefix msg.prefix
    route ← load_head d.entries
    update_prefix msg.prefix (λ e. record e {
      rdistance = route.distance;
      distance = route.distance;
      fdistance = route.distance;
      reported_metric = route.total_metric;
    })
    when (is_active_3 d.state) (reply_successor msg.prefix)
    update_prefix msg.prefix (λ e. record e { state = passive })
    publish msg.prefix

  -- A query is wanted of the neighbors; with none left the computation is over at once.
  unfoldable pub diffuse : Msg → M (Unit {0})
  diffuse msg = do
    count ← nbr_count_get
    (if count == 0
        then event_lr msg
        else (update_prefix msg.prefix (λ e. record e { need_query = true })
            >> add_change msg.prefix))

  -- eigrp_fsm_event_nq_fcn
  unfoldable pub event_nq_fcn : Msg → M (Unit {0})
  event_nq_fcn msg = do update_prefix msg.prefix (λ e. record e { state = active_1 }); diffuse msg

  -- eigrp_fsm_event_q_fcn
  unfoldable pub event_q_fcn : Msg → M (Unit {0})
  event_q_fcn msg = do update_prefix msg.prefix (λ e. record e { state = active_3 }); diffuse msg

  -- eigrp_fsm_event_lr_fcs. The state is set to PASSIVE before it is compared with ACTIVE_2.
  unfoldable pub event_lr_fcs : Msg → M (Unit {0})
  event_lr_fcs msg = do
    d ← load_prefix msg.prefix
    route ← load_head d.entries
    update_prefix msg.prefix (λ e. record e {
      state = passive;
      distance = route.distance;
      rdistance = route.distance;
      reported_metric = route.total_metric;
      fdistance = if ltb route.distance e.fdistance then route.distance else e.fdistance;
    })
    e ← load_prefix msg.prefix
    when (is_active_2 e.state) (reply_successor msg.prefix)
    publish msg.prefix

  -- eigrp_fsm_event_lr_fcn
  unfoldable pub event_lr_fcn : Msg → M (Unit {0})
  event_lr_fcn msg = do
    update_prefix msg.prefix
        (λ e. record e { state = if is_active_0 e.state then active_1 else active_3 })
    diffuse msg

  -- eigrp_fsm_event_qact
  unfoldable pub event_qact : Msg → M (Unit {0})
  event_qact msg = update_prefix msg.prefix (λ e. record e { state = active_2 })

  -- The call through the table. eigrp_fsm_event_dinc makes such a call itself, after it has taken
  -- the event anew; the fuel bounds the depth of
  -- these calls, and `out` stands for what a deeper call does.
  unfoldable pub act : M (Unit {0}) → ℕ → Action → Msg → M (Unit {0})
  act out fuel do_nq_fcn msg = event_nq_fcn msg
  act out fuel do_keep_state msg = event_keep_state msg
  act out fuel do_q_fcn msg = event_q_fcn msg
  act out fuel do_lr msg = event_lr msg
  act out fuel do_lr_fcs msg = event_lr_fcs msg
  act out fuel do_lr_fcn msg = event_lr_fcn msg
  act out fuel do_qact msg = event_qact msg
  act out zero do_dinc msg = out
  act out (suc fuel) do_dinc msg = do
    update_prefix msg.prefix
        (λ e. record e { state = if is_active_1 e.state then active_0 else active_2 })
    d ← load_prefix msg.prefix
    when (is_nil d.rij) do (event, full) ← get_fsm_event msg; act out fuel (nsm d.state event) full
