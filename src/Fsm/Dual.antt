-- ===== src/Fsm/Dual.antt =====
-- The state machine of eigrpd/eigrp_fsm.c moves along its diagram, and freezes an active destination.
use eigrpd.Base.{
  ℕ, zero, suc, ◌≡◌, refl, sym, ap, ◌∙◌, ◌≢◌, ◌⊎◌, inl, inr, none, some, if◌then◌else◌, arith,
  Option-cases,
}
use mathlib.Core.Path.{subst}
use eigrpd.LinkList.{LinkList}
use eigrpd.State.{
  Prefix, FsmState, passive, active_0, active_1, active_2, active_3, World, M, fault, ◌>>=◌, Ends,
  faults, Ends-mono, Ends-bind, Ends-at, Ends-load_prefix, Ends-when,
}
use eigrpd.Topology.{Msg}
use eigrpd.Topology.Core.{Core, core, core_map, core_of, core_of-eq}
use eigrpd.Fsm.Event.{FsmEvent, nq_fcn, lr, q_fcn, lr_fcs, dinc, qact, lr_fcn, get_fsm_event}
use eigrpd.Fsm.Action.{do_dinc, nsm, is_active_1, event_nq_fcn, event_q_fcn, event_lr_fcn, act}
use eigrpd.Fsm.Outcome.{
  Arrow, Outcome, freezes, resets, accepts, Done, stay, ask, asked, again_1, again_3, query_0,
  query_1,
}
use eigrpd.Fsm.Frame.{get_fsm_event-core}
use eigrpd.Fsm.Settle.{
  change_then, change_state-Done, event_lr-Done, event_lr_fcs-Done, event_qact-Done,
}
use eigrpd.Fsm.Keep.{event_keep_state-Done}
use eigrpd.Fsm.{fsm_event}
use eigrpd.Fsm.Increase.{again, Increases, to_0, to_2, Increases-Done, Increases-target}

module _ ⦃ll : LinkList⦄ where
  at_state : (c : Core) {s t : FsmState} → c.state ≡ s → Arrow s t → Arrow c.state t
  at_state c {t} e a = subst (λ x. Arrow x t) (sym e) a

  -- The call through the table, after the event is taken anew.
  abbrev Act-Done : ℕ → Type 0
  Act-Done fuel =
      (s : FsmState) (event : FsmEvent) (c : Core) (msg : Msg) (w : World)
      → core_of msg.prefix w ≡ some c
      → c.state ≡ s
      → Ends (λ _ v. Done msg.prefix c v) (act fault fuel (nsm s event) msg w)

  -- eigrp_get_fsm_event, then an action.
  event_then :
      (fuel : ℕ) (c : Core) (p : ℕ) (msg : Msg) (k : FsmEvent × Msg → M (Unit {0})) (w : World)
      → msg.prefix ≡ p
      → core_of p w ≡ some c
      → ((event : FsmEvent) (full : Msg) (v : World)
          → core_of full.prefix v ≡ some c
          → Ends (λ _ u. Done full.prefix c u) (k (event, full) v))
      → Ends (λ _ v. Done p c v) ((get_fsm_event msg >>= k) w)
  event_then fuel c p msg k w eq h kk =
      Ends-bind (λ r v. (core_of p v ≡ core_of p w) × (r.1.prefix ≡ msg.prefix)) _ k w
        ((get_fsm_event-core p msg).at w)
        λ r v (kept, q).
          let here : r.1.prefix ≡ p = q ∙ eq in
          subst (λ x. Ends (λ _ u. Done x c u) (k r v)) here
            (kk r.0 r.1 v (subst (λ x. core_of x v ≡ some c) (sym here) (kept ∙ h)))

  dinc-Done :
      (fuel : ℕ) {s t : FsmState} (c : Core) (msg : Msg) (w : World)
      → Act-Done fuel
      → Increases s t
      → core_of msg.prefix w ≡ some c
      → c.state ≡ s
      → Ends (λ _ v. Done msg.prefix c v) (act fault (suc fuel) do_dinc msg w)
  unfolding act
  dinc-Done fuel {s} {t} c msg w ih i h e =
      let p = msg.prefix in
      change_then p c _ _ set_origin _ w h (λ d. refl)
        λ v h1.
          let h2 : core_of p v ≡ some (record c { state = t }) =
            h1 ∙ ap (λ x. some (record c { state = x })) target in
          Ends-load_prefix p _ v λ d here.
            Ends-mono
              (Ends-when _ _ v
                (λ b. event_then fuel _ p msg _ v refl h2 λ event full u h3.
                  ih d.state event _ full u h3
                    (sym (ap (λ (b : Core). b.state) (core_of-eq p v _ d h2 here))))
                (λ b. inr (_, h2, freezes t (stay t) refl)))
              λ a u. Increases-Done p c u i e
    where
      set_origin : Core → Core
      set_origin b = record b { state = if is_active_1 b.state then active_0 else active_2 }

      target : (if is_active_1 c.state then active_0 else active_2) ≡ t
      target =
          subst (λ x. (if is_active_1 x then active_0 else active_2) ≡ t) (sym e)
            (Increases-target i)

  -- The action that the table names for a state, with any event, ends in an outcome of the state.
  act-Done :
      (fuel : ℕ) (s : FsmState) (event : FsmEvent) (c : Core) (msg : Msg) (w : World)
      → core_of msg.prefix w ≡ some c
      → c.state ≡ s
      → Ends (λ _ v. Done msg.prefix c v) (act fault fuel (nsm s event) msg w)
  unfolding act fault nsm event_nq_fcn event_q_fcn event_lr_fcn
  act-Done fuel passive nq_fcn c msg w h e =
      change_state-Done c msg (λ _. active_1) w h (at_state c e ask)
  act-Done fuel passive q_fcn c msg w h e =
      change_state-Done c msg (λ _. active_3) w h (at_state c e asked)
  act-Done fuel active_0 lr_fcs c msg w h e = event_lr_fcs-Done c msg w h (λ q. ground arith)
  act-Done fuel active_0 qact c msg w h e = event_qact-Done c msg w h (at_state c e query_0)
  act-Done fuel active_0 lr_fcn c msg w h e =
      change_state-Done c msg again w h (subst (λ x. Arrow x (again x)) (sym e) again_1)
  act-Done fuel active_1 lr c msg w h e = event_lr-Done c c msg w h (λ x m. resets x m refl)
  act-Done fuel active_1 qact c msg w h e = event_qact-Done c msg w h (at_state c e query_1)
  act-Done zero active_1 dinc c msg w h e = faults
  act-Done (suc fuel) active_1 dinc c msg w h e = dinc-Done fuel c msg w (act-Done fuel) to_0 h e
  act-Done fuel active_2 lr_fcs c msg w h e = event_lr_fcs-Done c msg w h (λ q. ground arith)
  act-Done fuel active_2 lr_fcn c msg w h e =
      change_state-Done c msg again w h (subst (λ x. Arrow x (again x)) (sym e) again_3)
  act-Done fuel active_3 lr c msg w h e = event_lr-Done c c msg w h (λ x m. resets x m refl)
  act-Done zero active_3 dinc c msg w h e = faults
  act-Done (suc fuel) active_3 dinc c msg w h e = dinc-Done fuel c msg w (act-Done fuel) to_2 h e
  act-Done fuel _ _ c msg w h e = event_keep_state-Done c msg w h

  pub fsm_event-Done :
      (c : Core) (msg : Msg) (w : World)
      → core_of msg.prefix w ≡ some c
      → Ends (λ _ v. Done msg.prefix c v) (fsm_event msg w)
  unfolding fsm_event
  fsm_event-Done c msg w h = event_then 1 c msg.prefix msg _ w refl h λ event full v h1.
      Ends-load_prefix full.prefix _ v λ d here.
        act-Done 1 d.state event c full v h1
          (sym (ap (λ (b : Core). b.state) (core_of-eq full.prefix v c d h1 here)))

  -- One event of the state machine on a live destination, when it returns, frees the destination of its message, or takes its core through
  -- one of the outcomes of Fsm.Outcome: its state moves along an arrow and nothing else of the core
  -- changes, or it is PASSIVE with all its distances reset to one value, or it was active and is
  -- PASSIVE with the feasible distance lowered to the new distance if that is less.
  pub fsm_event-Outcome :
      (msg : Msg) (d : Prefix) (w v : World)
      → w.prefixes msg.prefix ≡ some d
      → fsm_event msg w ≡ some (tt, v)
      → (v.prefixes msg.prefix ≡ none)
        ⊎ ((e : Prefix) × (v.prefixes msg.prefix ≡ some e) × Outcome (core d) (core e))
  fsm_event-Outcome msg d w v here run = elim (Option-cases (v.prefixes msg.prefix)) [
    | inl gone ↦ inl gone
    | inr (e, there) ↦ inr (
      e,
      there,
      from_Done e there (Ends-at (fsm_event-Done (core d) msg w (ap core_map here)) run),
    )
  ]
    where
      from_Done :
          (e : Prefix)
          → v.prefixes msg.prefix ≡ some e
          → Done msg.prefix (core d) v
          → Outcome (core d) (core e)
      from_Done e there (inl gone) = absurd (ground (arith, sym gone ∙ there))
      from_Done e there (inr (b, h, o)) =
          subst (Outcome (core d)) (sym (core_of-eq msg.prefix v b e h there)) o

  -- The invariant that the comments of eigrp_fsm.c call RFC 7868's: after an event that returns
  -- and leaves a live destination ACTIVE, its feasible, reported and current distance and its advertised metric are
  -- what they were, and the state has moved along the diagram.
  pub fsm_event_freezes :
      (msg : Msg) (d e : Prefix) (w v : World)
      → w.prefixes msg.prefix ≡ some d
      → fsm_event msg w ≡ some (tt, v)
      → v.prefixes msg.prefix ≡ some e
      → e.state ≢ passive
      → Arrow d.state e.state
        × (e.fdistance ≡ d.fdistance)
        × (e.rdistance ≡ d.rdistance)
        × (e.distance ≡ d.distance)
        × (e.reported_metric ≡ d.reported_metric)
  fsm_event_freezes msg d e w v here run there active =
      elim (fsm_event-Outcome msg d w v here run) [
        | inl gone ↦ absurd (ground (arith, sym gone ∙ there))
        | inr (b, h, o) ↦ freeze (
            subst (λ c. Outcome (core d) c)
              (core_of-eq msg.prefix v (core e) b (ap core_map there) h) o)
      ]
    where
      freeze :
          Outcome (core d) (core e)
          → Arrow d.state e.state
            × (e.fdistance ≡ d.fdistance)
            × (e.rdistance ≡ d.rdistance)
            × (e.distance ≡ d.distance)
            × (e.reported_metric ≡ d.reported_metric)
      freeze (freezes s a h) = (
        subst (Arrow d.state) (sym (ap (λ (c : Core). c.state) h)) a,
        ap (λ (c : Core). c.fdistance) h,
        ap (λ (c : Core). c.rdistance) h,
        ap (λ (c : Core). c.distance) h,
        ap (λ (c : Core). c.reported_metric) h,
      )
      freeze (resets x m h) = absurd (active (ap (λ (c : Core). c.state) h))
      freeze (accepts x m q h) = absurd (active (ap (λ (c : Core). c.state) h))
