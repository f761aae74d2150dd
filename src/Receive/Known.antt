-- ===== src/Receive/Known.antt =====
-- What a received route does to the destination that the table holds for it.
use eigrpd.Base.{ℕ, ◌≡◌, ◌∙◌, ap, none, some, ◌⊎◌, inl, inr, Option, List, [], ◌∷◌}
use eigrpd.LinkList.{LinkList}
use eigrpd.State.{
  Prefix, Route, free_route, World, M, pure, Ends, Ends-bind, Ends-mono, Ends-at, Keeps, Keeps-bind,
  Keeps-if, ◌>>◌, Ends-load_route, Ends-load_prefix,
}
use eigrpd.Topology.{Msg, same_pointer, prefix_descriptor_lookup}
use eigrpd.Topology.Frame.{
  prefixes_of, frame_rules, Keeps-load_route, Keeps-update_route, Keeps-free_route,
}
use eigrpd.Topology.Core.{Core, core, core_map, core_of, Keeps-core}
use eigrpd.Fsm.{fsm_event}
use eigrpd.Fsm.Outcome.{Outcome, Done}
use eigrpd.Fsm.Dual.{fsm_event-Done}
use eigrpd.Receive.{message, receive_into, receive_known}

module _ ⦃ll : LinkList⦄ where
  Keeps-lookup : (es : List ℕ) (nbr : ℕ) → Keeps prefixes_of (prefix_descriptor_lookup es nbr)
  unfolding prefix_descriptor_lookup
  Keeps-lookup [] nbr = search frame_rules
  Keeps-lookup (e ∷ es) nbr = Keeps-bind _ _ (Keeps-load_route e) λ r.
      Keeps-if (same_pointer r.adv_router nbr) (pure (some e)) _ (search frame_rules)
        (Keeps-lookup es nbr)

  Done-kept :
      (p : ℕ) (c : Core) (v u : World) → prefixes_of u ≡ prefixes_of v → Done p c v → Done p c u
  Done-kept p c v u e (inl gone) = inl (ap (λ (h : ℕ → Option Prefix). h p) e ∙ gone)
  Done-kept p c v u e (inr (b, h, o)) =
      inr (b, ap (λ (h : ℕ → Option Prefix). core_map (h p)) e ∙ h, o)

  -- A part that leaves the destinations alone, then the state machine, then another such part.
  around_event :
      (c : Core) (msg : Msg) (m k : M (Unit {0})) (w : World)
      → Keeps prefixes_of m
      → Keeps prefixes_of k
      → core_of msg.prefix w ≡ some c
      → Ends (λ _ v. Done msg.prefix c v) ((m >> (fsm_event msg >> k)) w)
  around_event c msg m k w km kk h =
      Ends-bind (λ _ v. core_of msg.prefix v ≡ core_of msg.prefix w) m _ w
        ((Keeps-core msg.prefix m km).at w)
        λ a v kept.
          Ends-bind (λ _ u. Done msg.prefix c u) (fsm_event msg) _ v
            (fsm_event-Done c msg v (kept ∙ h))
            λ b u done. Ends-mono (kk.at u) λ x z e. Done-kept msg.prefix c u z e done

  receive_into-Done :
      (opcode nbr p received : ℕ) (c : Core) (r : Route) (found : Option ℕ) (w : World)
      → core_of p w ≡ some c
      → Ends (λ _ v. Done p c v) (receive_into opcode nbr p received r found w)
  unfolding receive_into
  receive_into-Done opcode nbr p received c r none w h =
      Ends-bind (λ _ u. core_of p u ≡ core_of p w) _ _ w
        ((Keeps-core p _ (Keeps-update_route received _)).at w)
        λ a u kept. fsm_event-Done c (message opcode nbr p received r) u (kept ∙ h)
  receive_into-Done opcode nbr p received c r (some route) w h =
      around_event c (message opcode nbr p route r) _ (free_route received) w
        (Keeps-update_route route _) (Keeps-free_route received) h

  receive_known-Done :
      (opcode nbr p received : ℕ) (c : Core) (w : World)
      → core_of p w ≡ some c
      → Ends (λ _ v. Done p c v) (receive_known opcode nbr p received w)
  unfolding receive_known
  receive_known-Done opcode nbr p received c w h = Ends-load_route received _ w λ r here.
      Ends-load_prefix p _ w λ d there.
        Ends-bind (λ _ v. core_of p v ≡ core_of p w) (prefix_descriptor_lookup d.entries nbr) _ w
          ((Keeps-core p _ (Keeps-lookup d.entries nbr)).at w)
          λ found v kept. receive_into-Done opcode nbr p received c r found v (kept ∙ h)

  -- A received route for a live destination, handled to its end, frees the destination or takes its
  -- distances, metric and state through one of the outcomes of the state machine.
  pub receive_known-Outcome :
      (opcode nbr p received : ℕ) (d : Prefix) (w v : World)
      → w.prefixes p ≡ some d
      → receive_known opcode nbr p received w ≡ some (tt, v)
      → (v.prefixes p ≡ none) ⊎ ((e : Core) × (core_of p v ≡ some e) × Outcome (core d) e)
  receive_known-Outcome opcode nbr p received d w v here run =
      Ends-at (receive_known-Done opcode nbr p received (core d) w (ap core_map here)) run
