-- ===== src/Fsm/Frame.antt =====
-- What the parts of eigrpd/eigrp_fsm.c leave alone: taking the event and publishing the result change
-- no core.
use eigrpd.Base.{ℕ, ◌≡◌, refl, ◌∙◌, Option, none, some, List, [], ◌∷◌}
use eigrpd.LinkList.{LinkList}
use eigrpd.State.{
  Route, Prefix, FsmState, passive, active_0, active_1, active_2, active_3, pure, expect, ◌>>=◌,
  ◌>>◌, update_route, load_nbr, Keeps, Keeps-bind, Keeps-modify, Keeps-pure, Keeps-expect,
  keeps_rules, Ends-mono, Ends-bind, Ends-load_prefix, Gives, Gives-pure, Gives-bind, Gives-after,
}
use eigrpd.Packetizer.{reply_send, reply_send_route, enqueue, opcode_valid}
use eigrpd.Neighbor.{nbr_count_get, count_intfs, count_up}
use eigrpd.Topology.{MetricChange, Msg, route_create}
use eigrpd.Topology.Frame.{
  prefixes_of, frame_rules, Keeps-load_route, Keeps-load_prefix, Keeps-load_nbr, Keeps-load_intf,
  Keeps-route_create, Keeps-update_route, Keeps-get_successor,
}
use eigrpd.Topology.Core.{core_of, Keeps-core, store_prefix-core, Keeps-update_distance}
use eigrpd.Fsm.Event.{
  load_head, is_feasible, with_route, reply_received, event_passive, last_reply_checked,
  last_reply_reset, event_active_0, event_active_1, event_active_2, event_active_3, event_in,
  get_fsm_event,
}
use eigrpd.Fsm.Action.{add_change, reply_successor}

pub Keeps-reply_send : (nbr : Option ℕ) (p : ℕ) → Keeps prefixes_of (reply_send nbr p)
unfolding reply_send reply_send_route enqueue opcode_valid
Keeps-reply_send none p = Keeps-pure tt
Keeps-reply_send (some n) p = Keeps-modify _ λ w. refl

Keeps-count_up : (ns : List ℕ) (c : ℕ) → Keeps prefixes_of (count_up ns c)
unfolding count_up
Keeps-count_up [] c = Keeps-pure c
Keeps-count_up (n ∷ ns) c = Keeps-bind _ _ (Keeps-load_nbr n) λ nbr. Keeps-count_up ns _

Keeps-count_intfs : (is : List ℕ) (c : ℕ) → Keeps prefixes_of (count_intfs is c)
unfolding count_intfs
Keeps-count_intfs [] c = Keeps-pure c
Keeps-count_intfs (i ∷ is) c =
    Keeps-bind _ _ (Keeps-load_intf i)
      λ intf. Keeps-bind _ _ (Keeps-count_up intf.nbrs c) λ next. Keeps-count_intfs is next

pub Keeps-nbr_count_get : Keeps prefixes_of nbr_count_get
unfolding nbr_count_get
Keeps-nbr_count_get = search (frame_rules, Keeps-count_intfs)

pub Keeps-load_head : (l : List ℕ) → Keeps prefixes_of (load_head l)
unfolding load_head
Keeps-load_head l = search frame_rules

Keeps-is_feasible : (d : Prefix) → Keeps prefixes_of (is_feasible d)
unfolding is_feasible
Keeps-is_feasible d = search (frame_rules, Keeps-load_head)

with_route-prefix :
    (p : ℕ) (msg : Msg) → Gives (core_of p) (λ full. full.prefix ≡ msg.prefix) (with_route msg)
unfolding with_route
with_route-prefix p msg = by_case msg.route
  where
    created :
        (adv route : ℕ)
        → Keeps
            (core_of p)
            (update_route route (λ r. record r { adv_router = some adv; prefix = some msg.prefix }))
    created adv route = Keeps-core p _ (Keeps-update_route route _)

    by_case :
        (r : Option ℕ)
        → Gives
            (core_of p)
            (λ full. full.prefix ≡ msg.prefix)
            (elim r [
              | some route ↦ pure msg
              | none ↦
                  (expect msg.adv_router >>= λ adv. load_nbr adv >>= λ nbr.
                  route_create nbr.ei >>= λ route.
                  update_route route
                    (λ r. record r { adv_router = some adv; prefix = some msg.prefix })
                  >> pure (record msg { route = some route }))
            ])
    by_case (some route) = Gives-pure msg refl
    by_case none = Gives-after _ _ (Keeps-expect msg.adv_router) λ adv.
        Gives-after _ _ (Keeps-core p _ (Keeps-load_nbr adv)) λ nbr.
          Gives-after _ _ (Keeps-core p _ (Keeps-route_create nbr.ei))
            λ route. Gives-after _ _ (created adv route) λ a. Gives-pure _ refl

module _ ⦃ll : LinkList⦄ where
  pub Keeps-add_change : (p : ℕ) → Keeps prefixes_of (add_change p)
  unfolding add_change
  Keeps-add_change p = Keeps-modify _ λ w. refl

  pub Keeps-reply_successor : (p : ℕ) → Keeps prefixes_of (reply_successor p)
  unfolding reply_successor
  Keeps-reply_successor p =
      search (frame_rules, Keeps-get_successor, Keeps-load_head, Keeps-reply_send) depth 10

  Keeps-reply_received : (p q : ℕ) (r : Route) → Keeps (core_of p) (reply_received q r)
  unfolding reply_received
  Keeps-reply_received p q r = record {
    at = λ w. Ends-load_prefix q _ w λ d e.
        Ends-bind (λ _ v. core_of p v ≡ core_of p w) _ _ w (store_prefix-core p q d _ w e refl)
          λ a v kept. Ends-mono ((Keeps-pure _).at v) λ _ _ e'. e' ∙ kept;
  }

  Keeps-last_reply_checked :
      (p : ℕ) (msg : Msg) (r : Route) → Keeps (core_of p) (last_reply_checked msg r)
  unfolding last_reply_checked
  Keeps-last_reply_checked p msg r =
      Keeps-bind _ _ (Keeps-reply_received p msg.prefix r)
        λ d. Keeps-core p _ (search (frame_rules, Keeps-is_feasible))

  Keeps-last_reply_reset :
      (p : ℕ) (msg : Msg) (r : Route) (c : MetricChange)
      → Keeps (core_of p) (last_reply_reset msg r c)
  unfolding last_reply_reset
  Keeps-last_reply_reset p msg r c =
      Keeps-bind _ _ (Keeps-reply_received p msg.prefix r) λ d. Keeps-pure _

  Keeps-event_in :
      (p : ℕ) (s : FsmState) (msg : Msg) (d : Prefix) (r : Route) (c : MetricChange)
      → Keeps (core_of p) (event_in s msg d r c)
  unfolding event_in event_passive event_active_0 event_active_1 event_active_2 event_active_3
  Keeps-event_in p passive msg d r c = Keeps-core p _ (search (frame_rules, Keeps-is_feasible))
  Keeps-event_in p active_0 msg d r c = search (keeps_rules, Keeps-last_reply_checked)
  Keeps-event_in p active_1 msg d r c = search (keeps_rules, Keeps-last_reply_reset)
  Keeps-event_in p active_2 msg d r c = search (keeps_rules, Keeps-last_reply_checked)
  Keeps-event_in p active_3 msg d r c = search (keeps_rules, Keeps-last_reply_reset)

  pub get_fsm_event-core :
      (p : ℕ) (msg : Msg) → Gives (core_of p) (λ r. r.1.prefix ≡ msg.prefix) (get_fsm_event msg)
  unfolding get_fsm_event
  get_fsm_event-core p msg =
      Gives-after _ _ (Keeps-core p _ (Keeps-load_prefix msg.prefix)) λ before.
        Gives-bind (λ full. full.prefix ≡ msg.prefix) _ _ (with_route-prefix p msg)
          λ full eq. Gives-after _ _ (Keeps-update_distance p full) λ change.
            Gives-after _ _ (Keeps-core p _ (Keeps-load_prefix full.prefix)) λ d.
              Gives-after _ _ (Keeps-expect full.route) λ route.
                Gives-after _ _ (Keeps-core p _ (Keeps-load_route route)) λ r.
                  Gives-after _ _ (Keeps-event_in p before.state full d r change)
                    λ event. Gives-pure (event, full) eq
