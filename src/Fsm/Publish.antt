-- ===== src/Fsm/Publish.antt =====
-- The end of eigrp_fsm_event_lr and eigrp_fsm_event_lr_fcs: the destination's core survives, unless the
-- destination is unreachable and is deleted.
use eigrpd.Base.{ℕ, ◌≡◌, refl, ◌∙◌, ◌⊎◌, inl, inr, Option, none, List, [], ◌∷◌, arith}
use eigrpd.LinkList.{LinkList}
use eigrpd.State.{
  World, M, modify, ◌>>=◌, free_prefix, Keeps, Keeps-bind, Keeps-pure, Keeps-modify, Ends, ends,
  Ends-mono, Ends-bind, Ends-load_prefix, Ends-get, Ends-when,
}
use eigrpd.Topology.Table.{prefix_descriptor_delete, delete_routes, update_topology_table_prefix}
use eigrpd.Topology.Frame.{Keeps-zebra_call, Keeps-update_node_flags, Keeps-update_routing_table}
use eigrpd.Topology.Core.{
  Core, core_of, Keeps-core, Keeps-update_prefix, Keeps-route_descriptor_delete,
  Keeps-drop_unreachable,
}
use eigrpd.Fsm.Action.{publish}
use eigrpd.Fsm.Frame.{Keeps-add_change}

-- The destination is freed, or has the core `c`.
abbrev pub Freed : ℕ → Option Core → World → Type 0
Freed p c v = (v.prefixes p ≡ none) ⊎ (core_of p v ≡ c)

free_prefix-Freed :
    (p : ℕ) (c : Option Core) (w : World) → Ends (λ _ v. Freed p c v) (free_prefix p w)
unfolding free_prefix modify
free_prefix-Freed p c w = Ends-load_prefix p _ w λ d e. ends (inl (ground arith))

module _ ⦃ll : LinkList⦄ where
  delete_routes-core : (p q : ℕ) (es : List ℕ) → Keeps (core_of p) (delete_routes q es)
  unfolding delete_routes
  delete_routes-core p q [] = Keeps-pure tt
  delete_routes-core p q (e ∷ es) =
      Keeps-bind _ _ (Keeps-route_descriptor_delete p q e) λ a. delete_routes-core p q es

  -- What stands before the last step of a block keeps the core.
  then_Freed :
      {A : Type 0} (p : ℕ) (m : M A) (k : A → M (Unit {0})) (w : World)
      → Keeps (core_of p) m
      → ((a : A) (v : World) → Ends (λ _ u. Freed p (core_of p v) u) (k a v))
      → Ends (λ _ u. Freed p (core_of p w) u) ((m >>= k) w)
  then_Freed p m k w km kk =
      Ends-bind (λ _ v. core_of p v ≡ core_of p w) m k w (km.at w)
        λ a v e. Ends-mono (kk a v) λ b u f. carry v u e f
    where
      carry :
          (v u : World)
          → core_of p v ≡ core_of p w
          → Freed p (core_of p v) u
          → Freed p (core_of p w) u
      carry v u e (inl gone) = inl gone
      carry v u e (inr kept) = inr (kept ∙ e)

  prefix_descriptor_delete-Freed :
      (p : ℕ) (w : World) → Ends (λ _ v. Freed p (core_of p w) v) (prefix_descriptor_delete p w)
  unfolding prefix_descriptor_delete
  prefix_descriptor_delete-Freed p w = Ends-load_prefix p _ w λ d e. Ends-get _ w (
      Ends-when _ _ w
        (λ b. then_Freed p _ _ w (Keeps-modify _ λ v. refl) λ a v.
          then_Freed p _ _ v (delete_routes-core p p d.entries) λ a' v'.
            then_Freed p _ _ v' (Keeps-core p _ (Keeps-zebra_call _)) λ a'' v''.
              then_Freed p _ _ v'' (Keeps-modify _ λ u. refl)
                λ _ u. free_prefix-Freed p (core_of p u) u)
        (λ b. inr refl))

  update_topology_table_prefix-Freed :
      (p : ℕ) (w : World) → Ends (λ _ v. Freed p (core_of p w) v) (update_topology_table_prefix p w)
  unfolding update_topology_table_prefix
  update_topology_table_prefix-Freed p w = Ends-load_prefix p _ w λ d e.
      then_Freed p _ _ w (Keeps-drop_unreachable p p d.entries)
        λ a v. Ends-when _ _ v (λ b. prefix_descriptor_delete-Freed p v) (λ b. inr refl)

  pub publish-Freed : (p : ℕ) (w : World) → Ends (λ _ v. Freed p (core_of p w) v) (publish p w)
  unfolding publish
  publish-Freed p w = then_Freed p _ _ w (Keeps-update_prefix p p _ λ d. refl) λ a v.
      then_Freed p _ _ v (Keeps-core p _ (Keeps-add_change p)) λ a v.
        then_Freed p _ _ v (Keeps-core p _ (Keeps-update_node_flags p)) λ a v.
          then_Freed p _ _ v (Keeps-core p _ (Keeps-update_routing_table p))
            λ a v. update_topology_table_prefix-Freed p v
