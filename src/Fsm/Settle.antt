-- ===== src/Fsm/Settle.antt =====
-- What each action of eigrpd/eigrp_fsm.c does to a destination, but eigrp_fsm_event_keep_state.
use eigrpd.Base.{
  ℕ, ◌≡◌, refl, ◌∙◌, ◌≢◌, inl, inr, Bool, true, false, some, ltb, ◌==◌, if◌then◌else◌,
}
use mathlib.Core.Path.{subst}
use eigrpd.LinkList.{LinkList}
use eigrpd.Metric.{Metrics}
use eigrpd.State.{
  Prefix, FsmState, passive, active_2, World, M, ◌>>=◌, ◌>>◌, update_prefix, Keeps, Keeps-bind,
  Keeps-when, Ends, Ends-mono, Ends-bind, Ends-load_prefix,
}
use eigrpd.Topology.{Msg}
use eigrpd.Topology.Frame.{Keeps-load_prefix}
use eigrpd.Topology.Core.{Core, core, core_of, Keeps-core, update_prefix-core, Keeps-update_prefix}
use eigrpd.Fsm.Action.{event_lr, diffuse, event_lr_fcs, event_qact, publish, add_change}
use eigrpd.Fsm.Outcome.{Arrow, Outcome, freezes, resets, accepts, Done}
use eigrpd.Fsm.Frame.{Keeps-load_head, Keeps-add_change, Keeps-reply_successor, Keeps-nbr_count_get}
use eigrpd.Fsm.Publish.{Freed, publish-Freed}

Freed-Done : (p : ℕ) (c e : Core) (v : World) → Freed p (some e) v → Outcome c e → Done p c v
Freed-Done p c e v (inl gone) o = inl gone
Freed-Done p c e v (inr kept) o = inr (e, kept, o)

module _ ⦃ll : LinkList⦄ where
  -- A step that keeps the core, and one that changes it.
  pub keep_then :
      {A : Type 0} (p : ℕ) (c : Core) (Q : World → Type 0) (m : M A) (k : A → M (Unit {0}))
      (w : World)
      → core_of p w ≡ some c
      → Keeps (core_of p) m
      → ((a : A) (v : World) → core_of p v ≡ some c → Ends (λ _ u. Q u) (k a v))
      → Ends (λ _ u. Q u) ((m >>= k) w)
  keep_then p c Q m k w h km kk =
      Ends-bind (λ _ v. core_of p v ≡ core_of p w) m k w (km.at w) λ a v e. kk a v (e ∙ h)

  pub change_then :
      (p : ℕ) (c : Core) (Q : World → Type 0) (f : Prefix → Prefix) (g : Core → Core)
      (k : Unit {0} → M (Unit {0})) (w : World)
      → core_of p w ≡ some c
      → ((d : Prefix) → core (f d) ≡ g (core d))
      → ((v : World) → core_of p v ≡ some (g c) → Ends (λ _ u. Q u) (k tt v))
      → Ends (λ _ u. Q u) ((update_prefix p f >>= k) w)
  change_then p c Q f g k w h e kk =
      Ends-bind (λ _ v. core_of p v ≡ some (g c)) _ k w (update_prefix-core p f g w c h e)
        λ a v. kk v

  publish-Done :
      (p : ℕ) (c e : Core) (w : World)
      → core_of p w ≡ some e
      → Outcome c e
      → Ends (λ _ v. Done p c v) (publish p w)
  publish-Done p c e w h o =
      Ends-mono (publish-Freed p w) λ a v f. Freed-Done p c e v (subst (λ o. Freed p o v) h f) o

  -- What `event_lr` may end in, from a core that is still to be settled.
  abbrev pub Settles : Core → Core → Type 0
  Settles c e =
      (x : ℕ) (m : Metrics)
      → Outcome c (record e {
        state = passive;
        fdistance = x;
        rdistance = x;
        distance = x;
        reported_metric = m;
      })

  pub event_lr-Done :
      (c e : Core) (msg : Msg) (w : World)
      → core_of msg.prefix w ≡ some e
      → Settles c e
      → Ends (λ _ v. Done msg.prefix c v) (event_lr msg w)
  unfolding event_lr
  event_lr-Done c e msg w h o =
      let p = msg.prefix in
      Ends-load_prefix p _ w λ d here.
        keep_then p e _ _ _ w h (Keeps-core p _ (Keeps-load_head d.entries)) λ route v1 h1.
          change_then p e _ _
            (λ b. record b {
              fdistance = route.distance;
              rdistance = route.distance;
              distance = route.distance;
              reported_metric = route.total_metric;
            })
            _ v1 h1 (λ b. refl)
            λ v2 h2.
              keep_then p _ _ _ _ v2 h2 (Keeps-when _ _ (Keeps-core p _ (Keeps-reply_successor p)))
                λ a v3 h3.
                  change_then p _ _ _ (λ b. record b { state = passive }) _ v3 h3 (λ b. refl)
                    λ v4 h4. publish-Done p c _ v4 h4 (o route.distance route.total_metric)

  diffuse-Done :
      (c e : Core) (msg : Msg) (w : World)
      → core_of msg.prefix w ≡ some e
      → Settles c e
      → Outcome c e
      → Ends (λ _ v. Done msg.prefix c v) (diffuse msg w)
  unfolding diffuse
  diffuse-Done c e msg w h o f =
      keep_then msg.prefix e _ _ _ w h (Keeps-core msg.prefix _ Keeps-nbr_count_get)
        λ count v h1. by_case v h1 (count == 0)
    where
      wait :
          Keeps (core_of msg.prefix) (
            update_prefix msg.prefix (λ b. record b { need_query = true }) >> add_change msg.prefix)
      wait =
          Keeps-bind _ _ (Keeps-update_prefix msg.prefix msg.prefix _ λ d. refl)
            λ a. Keeps-core msg.prefix _ (Keeps-add_change msg.prefix)

      by_case :
          (v : World)
          → core_of msg.prefix v ≡ some e
          → (b : Bool)
          → Ends
              (λ _ u. Done msg.prefix c u)
              ((if b
                  then event_lr msg
                  else (update_prefix msg.prefix (λ e. record e { need_query = true })
                      >> add_change msg.prefix))
                v)
      by_case v h1 true = event_lr-Done c e msg v h1 o
      by_case v h1 false = Ends-mono (wait.at v) λ a u e'. inr (e, e' ∙ h1, f)

  -- From a core that differs from `c` in its state alone.
  pub settle : (c : Core) (s : FsmState) → Settles c (record c { state = s })
  settle c s x m = resets x m refl

  -- The three actions that change the state and start a diffusing computation.
  pub change_state-Done :
      (c : Core) (msg : Msg) (t : FsmState → FsmState) (w : World)
      → core_of msg.prefix w ≡ some c
      → Arrow c.state (t c.state)
      → Ends
          (λ _ v. Done msg.prefix c v)
          ((update_prefix msg.prefix (λ d. record d { state = t d.state }) >> diffuse msg) w)
  change_state-Done c msg t w h arrow =
      change_then msg.prefix c _ _ (λ b. record b { state = t b.state }) _ w h (λ d. refl)
        λ v h1. diffuse-Done c _ msg v h1 (settle c (t c.state)) (freezes (t c.state) arrow refl)

  pub event_lr_fcs-Done :
      (c : Core) (msg : Msg) (w : World)
      → core_of msg.prefix w ≡ some c
      → c.state ≢ passive
      → Ends (λ _ v. Done msg.prefix c v) (event_lr_fcs msg w)
  unfolding event_lr_fcs
  event_lr_fcs-Done c msg w h active =
      let p = msg.prefix in
      Ends-load_prefix p _ w λ d here.
        keep_then p c _ _ _ w h (Keeps-core p _ (Keeps-load_head d.entries)) λ route v1 h1.
          change_then p c _ _
            (λ b. record b {
              state = passive;
              distance = route.distance;
              rdistance = route.distance;
              reported_metric = route.total_metric;
              fdistance = if ltb route.distance b.fdistance then route.distance else b.fdistance;
            })
            _ v1 h1 (λ b. refl)
            λ v2 h2. keep_then p _ _ _ _ v2 h2 (Keeps-core p _ (Keeps-load_prefix p)) λ e v3 h3.
              keep_then p _ _ _ _ v3 h3 (Keeps-when _ _ (Keeps-core p _ (Keeps-reply_successor p)))
                λ a v4 h4.
                  publish-Done p c _ v4 h4 (accepts route.distance route.total_metric active refl)

  pub event_qact-Done :
      (c : Core) (msg : Msg) (w : World)
      → core_of msg.prefix w ≡ some c
      → Arrow c.state active_2
      → Ends (λ _ v. Done msg.prefix c v) (event_qact msg w)
  unfolding event_qact
  event_qact-Done c msg w h arrow =
      Ends-mono
        (update_prefix-core msg.prefix _ (λ b. record b { state = active_2 }) w c h λ d. refl)
        λ a v e. inr (_, e, freezes active_2 arrow refl)
