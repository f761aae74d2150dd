-- ===== src/Fsm/Keep.antt =====
-- What eigrp_fsm_event_keep_state of eigrpd/eigrp_fsm.c does to a destination: nothing, but that a
-- PASSIVE one takes the distances of its best route.
use eigrpd.Base.{ℕ, ◌≡◌, refl, ap, ◌∙◌, inr, true, some, arith}
use eigrpd.LinkList.{LinkList}
use eigrpd.State.{
  Route, Prefix, FsmState, passive, World, M, Keeps, Keeps-bind, Keeps-when, Ends, Ends-mono,
  Ends-bind, Ends-load_prefix, Ends-when,
}
use eigrpd.Topology.{Msg}
use eigrpd.Topology.Frame.{Keeps-update_node_flags, Keeps-update_routing_table}
use eigrpd.Topology.Core.{Core, core_of, core_of-eq, Keeps-core, Keeps-update_prefix}
use eigrpd.Fsm.Action.{is_passive, refresh, keep_passive, event_keep_state}
use eigrpd.Fsm.Outcome.{Outcome, freezes, resets, Done, stay}
use eigrpd.Fsm.Frame.{Keeps-load_head, Keeps-add_change, Keeps-reply_send}
use eigrpd.Fsm.Settle.{keep_then, change_then}

module _ ⦃ll : LinkList⦄ where
  -- What survives a step that keeps the core.
  abbrev Reached : ℕ → Core → World → Type 0
  Reached p c v = (e : Core) × (core_of p v ≡ some e) × Outcome c e

  reach_then :
      {A : Type 0} (p : ℕ) (c : Core) (m : M A) (w : World)
      → Keeps (core_of p) m
      → Reached p c w
      → Ends (λ _ v. Reached p c v) (m w)
  reach_then p c m w km (e, h, o) = Ends-mono (km.at w) λ a v e'. (e, e' ∙ h, o)

  same_core : (p : ℕ) (c : Core) (w : World) → core_of p w ≡ some c → Reached p c w
  same_core p c w h = (c, h, freezes c.state (stay c.state) refl)

  refresh-Reached :
      (c : Core) (msg : Msg) (route : Route) (w : World)
      → core_of msg.prefix w ≡ some c
      → c.state ≡ passive
      → Ends (λ _ v. Reached msg.prefix c v) (refresh msg route w)
  unfolding refresh
  refresh-Reached c msg route w h e =
      let p = msg.prefix in
      change_then p c _ _
        (λ b. record b {
          rdistance = route.distance;
          fdistance = route.distance;
          distance = route.distance;
          reported_metric = route.total_metric;
        })
        _ w h (λ b. refl)
        λ v h1.
          reach_then p c _ v
            (Keeps-bind _ _ (Keeps-when _ _ (Keeps-core p _ (Keeps-reply_send msg.adv_router p)))
              λ a.
                Keeps-bind _ _ (Keeps-update_prefix p p _ λ d. refl)
                  λ b. Keeps-core p _ (Keeps-add_change p))
            (
              _,
              h1,
              resets route.distance route.total_metric (
                  ap
                    (λ (s : FsmState). record c {
                      state = s;
                      rdistance = route.distance;
                      fdistance = route.distance;
                      distance = route.distance;
                      reported_metric = route.total_metric;
                    })
                    e),
            )

  keep_passive-Reached :
      (c : Core) (msg : Msg) (d : Prefix) (w : World)
      → core_of msg.prefix w ≡ some c
      → c.state ≡ passive
      → Ends (λ _ v. Reached msg.prefix c v) (keep_passive msg d w)
  unfolding keep_passive
  keep_passive-Reached c msg d w h e =
      let p = msg.prefix in
      keep_then p c _ _ _ w h (Keeps-core p _ (Keeps-load_head d.entries)) λ route v h1.
        Ends-bind (λ _ u. Reached p c u) _ _ v
          (Ends-when _ _ v (λ b. refresh-Reached c msg route v h1 e) (λ b. same_core p c v h1))
          λ a u r.
            reach_then p c _ u
              (Keeps-bind _ _ (Keeps-core p _ (Keeps-update_node_flags p))
                λ b. Keeps-core p _ (Keeps-update_routing_table p))
              r

  pub event_keep_state-Done :
      (c : Core) (msg : Msg) (w : World)
      → core_of msg.prefix w ≡ some c
      → Ends (λ _ v. Done msg.prefix c v) (event_keep_state msg w)
  unfolding event_keep_state
  event_keep_state-Done c msg w h =
      let p = msg.prefix in
      Ends-load_prefix p _ w λ d here.
        Ends-bind (λ _ v. Reached p c v) _ _ w
          (Ends-when _ _ w (λ b. keep_passive-Reached c msg d w h (is_passive-eq d here b))
            (λ b. same_core p c w h))
          λ a v r.
            Ends-mono
              (reach_then p c _ v
                (Keeps-when _ _ (Keeps-core p _ (Keeps-reply_send msg.adv_router p))) r)
              λ b u. inr
    where
      is_passive-eq :
          (d : Prefix)
          → w.prefixes msg.prefix ≡ some d
          → is_passive d.state ≡ true
          → c.state ≡ passive
      is_passive-eq d here b =
          ground (arith, ap (λ (e : Core). e.state) (core_of-eq msg.prefix w c d h here))
