-- ===== src/Fsm/Event.antt =====
-- eigrp_get_fsm_event of eigrpd/eigrp_fsm.c: which event a message is.
use eigrpd.Base.{
  ℕ, Bool, true, false, ◌&&◌, Option, none, some, List, [], ◌∷◌, ltb, ◌==◌, if◌then◌else◌,
}
use eigrpd.LinkList.{LinkList}
use eigrpd.State.{
  Route, Prefix, FsmState, passive, active_0, active_1, active_2, active_3, M, pure, expect, ◌>>=◌,
  ◌>>◌, load_route, load_prefix, store_prefix, load_nbr, update_route,
}
use eigrpd.Packetizer.{opc_update, opc_query, opc_reply}
use eigrpd.Topology.{MetricChange, decrease, same, increase, Msg, route_create}
use eigrpd.Topology.Distance.{update_distance}

-- enum eigrp_fsm_events
pub data FsmEvent : Type 0 where
  nq_fcn lr q_fcn lr_fcs dinc qact lr_fcn keep_state : FsmEvent

abbrev pub is_increase : MetricChange → Bool
is_increase decrease = false
is_increase same = false
is_increase increase = true

abbrev pub head? : List ℕ → Option ℕ
head? [] = none
head? (x ∷ xs) = some x

-- The destination's count of awaited replies is 0.
abbrev pub is_nil : List ℕ → Bool
is_nil [] = true
is_nil (x ∷ xs) = false

-- The first entry, `listnode_head`, read through: a fault if there is none.
unfoldable pub load_head : List ℕ → M Route
load_head entries = do e ← expect (head? entries); load_route e

-- The feasibility condition: the best route's reported distance is below the feasible distance.
unfoldable pub is_feasible : Prefix → M Bool
is_feasible d = do head ← load_head d.entries; pure (ltb head.reported_distance d.fdistance)

-- A message without a route is given a fresh one.
unfoldable pub with_route : Msg → M Msg
with_route msg = elim msg.route [
  | some route ↦ pure msg
  | none ↦ do
    adv ← expect msg.adv_router
    nbr ← load_nbr adv
    route ← route_create nbr.ei
    update_route route (λ r. record r { adv_router = some adv; prefix = some msg.prefix })
    pure (record msg { route = some route })
]

module _ ⦃ll : LinkList⦄ where
  abbrev pub delete_pointer : List ℕ → Option ℕ → List ℕ
  delete_pointer l none = l
  delete_pointer l (some p) = ll.delete l p

  -- The neighbor's reply is no longer awaited.
  unfoldable pub reply_received : ℕ → Route → M Prefix
  reply_received p r = do
    d ← load_prefix p
    let e = record d { rij = delete_pointer d.rij r.adv_router }
    store_prefix p e
    pure e

  unfoldable pub event_passive : Msg → Prefix → M FsmEvent
  event_passive msg d = do
    feasible ← is_feasible d
    pure (if feasible then keep_state else if msg.packet_type == opc_query then q_fcn else nq_fcn)

  -- ACTIVE_0 and ACTIVE_2 on a reply: the last one decides by the feasibility condition.
  unfoldable pub last_reply_checked : Msg → Route → M FsmEvent
  last_reply_checked msg r = do
    d ← reply_received msg.prefix r
    (if is_nil d.rij
        then (is_feasible d >>= λ feasible. pure (if feasible then lr_fcs else lr_fcn))
        else pure keep_state)

  -- ACTIVE_1 and ACTIVE_3 on a reply: the last one resets the feasible distance.
  unfoldable pub last_reply_reset : Msg → Route → MetricChange → M FsmEvent
  last_reply_reset msg r change = do
    d ← reply_received msg.prefix r
    pure (
        if is_increase change && r.successor then dinc else if is_nil d.rij then lr else keep_state)

  unfoldable pub event_active_0 : Msg → Route → M FsmEvent
  event_active_0 msg r =
      if msg.packet_type == opc_reply
      then last_reply_checked msg r
      else pure (if msg.packet_type == opc_query && r.successor then qact else keep_state)

  abbrev update_increase : Msg → Route → MetricChange → FsmEvent
  update_increase msg r change =
      if msg.packet_type == opc_update && (is_increase change && r.successor)
      then dinc
      else keep_state

  unfoldable pub event_active_1 : Msg → Route → MetricChange → M FsmEvent
  event_active_1 msg r change =
      if msg.packet_type == opc_query && r.successor
      then pure qact
      else if msg.packet_type == opc_reply
      then last_reply_reset msg r change
      else pure (update_increase msg r change)

  unfoldable pub event_active_2 : Msg → Route → M FsmEvent
  event_active_2 msg r =
      if msg.packet_type == opc_reply then last_reply_checked msg r else pure keep_state

  unfoldable pub event_active_3 : Msg → Route → MetricChange → M FsmEvent
  event_active_3 msg r change =
      if msg.packet_type == opc_reply
      then last_reply_reset msg r change
      else pure (update_increase msg r change)

  -- The `switch` on the state.
  unfoldable pub event_in : FsmState → Msg → Prefix → Route → MetricChange → M FsmEvent
  event_in passive msg d r change = event_passive msg d
  event_in active_0 msg d r change = event_active_0 msg r
  event_in active_1 msg d r change = event_active_1 msg r change
  event_in active_2 msg d r change = event_active_2 msg r
  event_in active_3 msg d r change = event_active_3 msg r change

  -- eigrp_get_fsm_event: the event, and the message with its route filled in.
  unfoldable pub get_fsm_event : Msg → M (FsmEvent × Msg)
  get_fsm_event msg = do
    before ← load_prefix msg.prefix
    full ← with_route msg
    change ← update_distance full
    d ← load_prefix full.prefix
    route ← expect full.route
    r ← load_route route
    event ← event_in before.state full d r change
    pure (event, full)
