-- ===== src/Topology/Core.antt =====
-- The core of a destination, which only the actions of eigrpd/eigrp_fsm.c change: its distances, its
-- metric and its state. Its lists of entries and of awaited replies are no part of it.
use eigrpd.Base.{
  ℕ, ◌≡◌, refl, sym, ap, ◌∙◌, true, false, Option, none, some, List, [], ◌∷◌, ◌==◌, if◌then◌else◌,
  Bool-cases, some_inj, ==_iff, ◌⊎◌, inl, inr,
}
use mathlib.Core.Path.{subst}
use eigrpd.Metric.{Metrics}
use eigrpd.LinkList.{LinkList}
use eigrpd.State.{
  Dest, Prefix, TopologyType, FsmState, World, M, pure, modify, ◌>>◌, free_route, store_prefix,
  update_prefix, zebra_call, Keeps, Keeps-bind, Keeps-when, Keeps-pure, Ends, ends, Ends-mono,
  Ends-bind, Ends-load_prefix, Ends-get, Ends-when, Keeps-expect, route_delete,
}
use eigrpd.Topology.{MetricChange, same, Msg}
use eigrpd.Topology.Table.{route_descriptor_delete, drop_unreachable}
use eigrpd.Topology.Distance.{reposition, update_distance}
use eigrpd.Topology.Frame.{
  prefixes_of, frame_rules, Keeps-measure, Keeps-route_intf, Keeps-load_route,
}

pub record Core : Type 0 where
  pub destination : Dest
  pub reported_metric : Metrics
  pub fdistance : ℕ
  pub rdistance : ℕ
  pub distance : ℕ
  pub nt : TopologyType
  pub state : FsmState

abbrev pub core : Prefix → Core
core d = record {
  destination = d.destination;
  reported_metric = d.reported_metric;
  fdistance = d.fdistance;
  rdistance = d.rdistance;
  distance = d.distance;
  nt = d.nt;
  state = d.state;
}

abbrev pub core_map : Option Prefix → Option Core
core_map none = none
core_map (some d) = some (core d)

abbrev pub core_of : ℕ → World → Option Core
core_of p w = core_map (w.prefixes p)

-- What leaves the prefixes alone leaves every core alone.
pub Keeps-core : {A : Type 0} (p : ℕ) (m : M A) → Keeps prefixes_of m → Keeps (core_of p) m
Keeps-core p m k = record {
  at = λ w. Ends-mono (k.at w) λ a v e. ap (λ (h : ℕ → Option Prefix). core_map (h p)) e;
}

-- A prefix that is stored over one with the same core.
pub store_prefix-core :
    (p q : ℕ) (d e : Prefix) (w : World)
    → w.prefixes q ≡ some d
    → core e ≡ core d
    → Ends (λ _ v. core_of p v ≡ core_of p w) (store_prefix q e w)
unfolding store_prefix modify
store_prefix-core p q d e w h c = ends (by_case (Bool-cases (p == q)))
  where
    by_case :
        ((p == q) ≡ true) ⊎ ((p == q) ≡ false)
        → core_map (if p == q then some e else w.prefixes p) ≡ core_map (w.prefixes p)
    by_case (inl eq) = rw (eq, (==_iff p q).0 eq, h) (ap some c)
    by_case (inr ne) = rw ne

module _ ⦃ll : LinkList⦄ where
  pub Keeps-reposition : (p q r : ℕ) → Keeps (core_of p) (reposition q r)
  unfolding reposition
  Keeps-reposition p q r = record {
    at = λ w. Ends-load_prefix q _ w λ d e. Ends-get _ w (store_prefix-core p q d _ w e refl);
  }

  pub Keeps-route_descriptor_delete : (p q r : ℕ) → Keeps (core_of p) (route_descriptor_delete q r)
  unfolding route_descriptor_delete
  Keeps-route_descriptor_delete p q r = record {
    at = λ w. Ends-load_prefix q _ w λ d e.
        Ends-when _ _ w
          (λ b.
            Ends-bind (λ _ v. core_of p v ≡ core_of p w) _ _ w (store_prefix-core p q d _ w e refl)
              λ a v kept. Ends-mono ((rest d).at v) λ _ _ e'. e' ∙ kept)
          (λ b. refl);
  }
    where
      rest :
          (d : Prefix) → Keeps (core_of p) (zebra_call (route_delete d.destination) >> free_route r)
      rest d = Keeps-core p _ (search frame_rules)

  pub Keeps-drop_unreachable : (p q : ℕ) (es : List ℕ) → Keeps (core_of p) (drop_unreachable q es)
  unfolding drop_unreachable
  Keeps-drop_unreachable p q [] = Keeps-pure tt
  Keeps-drop_unreachable p q (e ∷ es) = Keeps-bind _ _ (Keeps-core p _ (Keeps-load_route e)) λ r.
      Keeps-bind _ _ (Keeps-when _ _ (Keeps-route_descriptor_delete p q e))
        λ a. Keeps-drop_unreachable p q es

  -- eigrp_topology_update_distance changes routes and the order of the entries, and no core.
  pub Keeps-update_distance : (p : ℕ) (msg : Msg) → Keeps (core_of p) (update_distance msg)
  unfolding update_distance
  Keeps-update_distance p msg = Keeps-bind _ _ (Keeps-core p _ (search frame_rules)) λ d.
      Keeps-bind _ _ (Keeps-expect msg.route) λ route.
        Keeps-bind _ _ (Keeps-core p _ (search frame_rules)) λ r.
          Keeps-bind _ _ (Keeps-core p _ (Keeps-route_intf r.ei msg.adv_router)) λ ei.
            Keeps-bind _ _ (Keeps-core p _ (search frame_rules))
              λ a. Keeps-bind _ _ (Keeps-core p _ (Keeps-measure _ _ _ _ _)) λ c. by_case route c
    where
      by_case :
          (route : ℕ) (c : Option MetricChange)
          → Keeps
              (core_of p)
              (elim c [ none ↦ pure same | some c' ↦ (reposition msg.prefix route >> pure c') ])
      by_case route none = Keeps-pure same
      by_case route (some c') =
          Keeps-bind _ _ (Keeps-reposition p msg.prefix route) λ a. Keeps-pure c'

==_refl : (p : ℕ) → (p == p) ≡ true
==_refl p = (==_iff p p).1 refl

-- The prefix that is loaded has the core.
pub core_of-eq :
    (p : ℕ) (w : World) (c : Core) (d : Prefix)
    → core_of p w ≡ some c
    → w.prefixes p ≡ some d
    → core d ≡ c
core_of-eq p w c d h here = some_inj (sym (ap core_map here) ∙ h)

-- Changing a destination in place changes its core as the change says.
pub update_prefix-core :
    (p : ℕ) (f : Prefix → Prefix) (g : Core → Core) (w : World) (c : Core)
    → core_of p w ≡ some c
    → ((d : Prefix) → core (f d) ≡ g (core d))
    → Ends (λ _ v. core_of p v ≡ some (g c)) (update_prefix p f w)
unfolding update_prefix store_prefix modify
update_prefix-core p f g w c h e = Ends-load_prefix p _ w λ d here. ends (
    subst (λ b. core_map (if b then some (f d) else w.prefixes p) ≡ some (g c)) (sym (==_refl p))
      (ap some (e d ∙ ap g (core_of-eq p w c d h here))))

pub Keeps-update_prefix :
    (p q : ℕ) (f : Prefix → Prefix)
    → ((d : Prefix) → core (f d) ≡ core d)
    → Keeps (core_of p) (update_prefix q f)
unfolding update_prefix
Keeps-update_prefix p q f e = record {
  at = λ w. Ends-load_prefix q _ w λ d h. store_prefix-core p q d (f d) w h (e d);
}
