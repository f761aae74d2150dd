-- ===== src/Topology/Quiet.antt =====
-- The operations on the topology table change routes, destinations, the table and zebra's calls, and
-- nothing else of the instance: every view that does not look at these is kept.
use eigrpd.Base.{ℕ, suc, ◌≡◌, ◌∙◌, Bool, true, false, Option, none, some, List, [], ◌∷◌}
use eigrpd.Metric.{Metrics}
use eigrpd.LinkList.{LinkList}
use eigrpd.State.{
  Route, Prefix, Dest, Work, ZebraCall, FsmState, passive, active_0, active_1, active_2, active_3,
  World, M, pure, fault, expect, get, modify, when, ◌>>=◌, ◌>>◌, load_route, store_route,
  free_route, load_prefix, store_prefix, free_prefix, load_nbr, load_intf, update_route,
  update_prefix, zebra_call, route_add, route_delete, Keeps, Keeps-bind, Keeps-modify, Keeps-pure,
  Keeps-expect, Keeps-get, Keeps-if, Keeps-when, keeps_rules, ends,
}
use eigrpd.Topology.{
  MetricChange, same, MsgData, msg_connected, msg_int, msg_ext, Msg, route_create, flag_entries,
  update_node_flags, set_intable,
}
use eigrpd.Topology.Table.{
  route_descriptor_delete, delete_routes, prefix_descriptor_delete, successors_from, get_successor,
  get_successor_max, update_routing_table, drop_unreachable, update_topology_table_prefix,
}
use eigrpd.Topology.Distance.{route_intf, record_metrics, reposition, measure, update_distance}

-- A view that does not look at what the state machine changes.
pub record Blind {X : Type 0} (f : World → X) : Type 0 where
  pub routes : (w : World) (v : ℕ → Option Route) → f (record w { routes = v }) ≡ f w
  pub next_route : (w : World) (n : ℕ) → f (record w { next_route = n }) ≡ f w
  pub next_prefix : (w : World) (n : ℕ) → f (record w { next_prefix = n }) ≡ f w
  pub prefixes : (w : World) (v : ℕ → Option Prefix) → f (record w { prefixes = v }) ≡ f w
  pub table : (w : World) (v : Dest → Option ℕ) → f (record w { table = v }) ≡ f w
  pub changes : (w : World) (v : List ℕ) → f (record w { topology_changes = v }) ≡ f w
  pub queue : (w : World) (v : List Work) → f (record w { queue = v }) ≡ f w
  pub zebra : (w : World) (v : List ZebraCall) → f (record w { zebra = v }) ≡ f w

module _ {X : Type 0} {f : World → X} (b : Blind f) where
  pub quiet-load_route : (p : ℕ) → Keeps f (load_route p)
  unfolding load_route
  quiet-load_route p = search keeps_rules

  pub quiet-load_prefix : (p : ℕ) → Keeps f (load_prefix p)
  unfolding load_prefix
  quiet-load_prefix p = search keeps_rules

  pub quiet-load_nbr : (p : ℕ) → Keeps f (load_nbr p)
  unfolding load_nbr
  quiet-load_nbr p = search keeps_rules

  pub quiet-load_intf : (p : ℕ) → Keeps f (load_intf p)
  unfolding load_intf
  quiet-load_intf p = search keeps_rules

  pub quiet-store_route : (p : ℕ) (r : Route) → Keeps f (store_route p r)
  unfolding store_route
  quiet-store_route p r = Keeps-modify _ λ w. b.routes w _

  pub quiet-store_prefix : (p : ℕ) (d : Prefix) → Keeps f (store_prefix p d)
  unfolding store_prefix
  quiet-store_prefix p d = Keeps-modify _ λ w. b.prefixes w _

  pub quiet-free_route : (p : ℕ) → Keeps f (free_route p)
  unfolding free_route
  quiet-free_route p = Keeps-bind _ _ (quiet-load_route p) λ r. Keeps-modify _ λ w. b.routes w _

  pub quiet-free_prefix : (p : ℕ) → Keeps f (free_prefix p)
  unfolding free_prefix
  quiet-free_prefix p = Keeps-bind _ _ (quiet-load_prefix p) λ d. Keeps-modify _ λ w. b.prefixes w _

  pub quiet-update_route : (p : ℕ) (g : Route → Route) → Keeps f (update_route p g)
  unfolding update_route
  quiet-update_route p g = Keeps-bind _ _ (quiet-load_route p) λ r. quiet-store_route p (g r)

  pub quiet-update_prefix : (p : ℕ) (g : Prefix → Prefix) → Keeps f (update_prefix p g)
  unfolding update_prefix
  quiet-update_prefix p g = Keeps-bind _ _ (quiet-load_prefix p) λ r. quiet-store_prefix p (g r)

  pub quiet-zebra_call : (c : ZebraCall) → Keeps f (zebra_call c)
  unfolding zebra_call
  quiet-zebra_call c = Keeps-modify _ λ w. b.zebra w _

  pub quiet-route_create : (ei : Option ℕ) → Keeps f (route_create ei)
  unfolding route_create
  quiet-route_create ei = record {
    at = λ w. ends (b.routes (record w { next_route = suc w.next_route }) _ ∙ b.next_route w _);
  }

  pub ruleset quiet_rules = (
    keeps_rules, quiet-load_route, quiet-load_prefix, quiet-load_nbr, quiet-load_intf,
    quiet-store_route, quiet-store_prefix, quiet-free_route, quiet-free_prefix, quiet-update_route,
    quiet-update_prefix, quiet-zebra_call, quiet-route_create,
  )

  quiet-flag_entries : (d : Prefix) (v : ℕ) (es : List ℕ) → Keeps f (flag_entries d v es)
  unfolding flag_entries
  quiet-flag_entries d v [] = search quiet_rules
  quiet-flag_entries d v (e ∷ es) =
      Keeps-bind _ _ (search quiet_rules) λ a. quiet-flag_entries d v es

  pub quiet-update_node_flags : (p : ℕ) → Keeps f (update_node_flags p)
  unfolding update_node_flags
  quiet-update_node_flags p = search (quiet_rules, quiet-flag_entries)

  quiet-set_intable : (t : Bool) (es : List ℕ) → Keeps f (set_intable t es)
  unfolding set_intable
  quiet-set_intable t [] = search quiet_rules
  quiet-set_intable t (e ∷ es) = Keeps-bind _ _ (search quiet_rules) λ a. quiet-set_intable t es

  quiet-route_intf : (ei nbr : Option ℕ) → Keeps f (route_intf ei nbr)
  unfolding route_intf
  quiet-route_intf (some ei) nbr = search quiet_rules
  quiet-route_intf none none = search quiet_rules
  quiet-route_intf none (some nbr) = search quiet_rules

  quiet-record_metrics : (r : ℕ) (m : Metrics) → Keeps f (record_metrics r m)
  unfolding record_metrics
  quiet-record_metrics r m = search quiet_rules depth 20

  module _ ⦃ll : LinkList⦄ where
    quiet-successors_from : (es found : List ℕ) → Keeps f (successors_from found es)
    unfolding successors_from
    quiet-successors_from [] found = search quiet_rules
    quiet-successors_from (e ∷ es) found =
        Keeps-bind _ _ (quiet-load_route e) λ r. quiet-successors_from es _

    pub quiet-get_successor : (p : ℕ) → Keeps f (get_successor p)
    unfolding get_successor
    quiet-get_successor p =
        Keeps-bind _ _ (quiet-load_prefix p)
          λ d. Keeps-bind _ _ (quiet-successors_from d.entries []) λ l. search quiet_rules

    quiet-get_successor_max : (p n : ℕ) → Keeps f (get_successor_max p n)
    unfolding get_successor_max
    quiet-get_successor_max p n = search (quiet_rules, quiet-get_successor)

    pub quiet-update_routing_table : (p : ℕ) → Keeps f (update_routing_table p)
    unfolding update_routing_table
    quiet-update_routing_table p = Keeps-bind _ _ Keeps-get λ w.
        Keeps-bind _ _ (quiet-get_successor_max p w.max_paths)
          λ found. Keeps-bind _ _ (quiet-load_prefix p) λ d. by_case d found
      where
        by_case :
            (d : Prefix) (found : Option (List ℕ))
            → Keeps f (elim found [
              | some l ↦ (zebra_call (route_add d.destination l d.fdistance) >> set_intable true l)
              | none ↦ (zebra_call (route_delete d.destination) >> set_intable false d.entries)
            ])
        by_case d none = search (quiet_rules, quiet-set_intable)
        by_case d (some l) = search (quiet_rules, quiet-set_intable)

    quiet-measure :
        (t : MsgData) (d : Prefix) (r : Route) (p : ℕ) (m : Metrics) → Keeps f (measure t d r p m)
    unfolding measure
    quiet-measure msg_connected d r p m = search quiet_rules
    quiet-measure msg_int d r p m = search (quiet_rules, quiet-record_metrics)
    quiet-measure msg_ext d r p m = search (quiet_rules, quiet-record_metrics)

    quiet-reposition : (p r : ℕ) → Keeps f (reposition p r)
    unfolding reposition
    quiet-reposition p r = search quiet_rules

    pub quiet-update_distance : (msg : Msg) → Keeps f (update_distance msg)
    unfolding update_distance
    quiet-update_distance msg = Keeps-bind _ _ (quiet-load_prefix msg.prefix) λ d.
        Keeps-bind _ _ (Keeps-expect msg.route) λ route.
          Keeps-bind _ _ (quiet-load_route route) λ r.
            Keeps-bind _ _ (quiet-route_intf r.ei msg.adv_router) λ ei.
              Keeps-bind _ _ (quiet-store_route route _)
                λ a. Keeps-bind _ _ (quiet-measure _ _ _ _ _) λ c. by_case route c
      where
        by_case :
            (route : ℕ) (c : Option MetricChange)
            → Keeps f
                (elim c [ none ↦ pure same | some c' ↦ (reposition msg.prefix route >> pure c') ])
        by_case route none = Keeps-pure same
        by_case route (some c') =
            Keeps-bind _ _ (quiet-reposition msg.prefix route) λ a. Keeps-pure c'

    pub quiet-route_descriptor_delete : (p r : ℕ) → Keeps f (route_descriptor_delete p r)
    unfolding route_descriptor_delete
    quiet-route_descriptor_delete p r = search quiet_rules depth 12

    quiet-drop_unreachable : (p : ℕ) (es : List ℕ) → Keeps f (drop_unreachable p es)
    unfolding drop_unreachable
    quiet-drop_unreachable p [] = search quiet_rules
    quiet-drop_unreachable p (e ∷ es) = Keeps-bind _ _ (quiet-load_route e) λ r.
        Keeps-bind _ _ (Keeps-when _ _ (quiet-route_descriptor_delete p e))
          λ a. quiet-drop_unreachable p es

    quiet-delete_routes : (p : ℕ) (es : List ℕ) → Keeps f (delete_routes p es)
    unfolding delete_routes
    quiet-delete_routes p [] = search quiet_rules
    quiet-delete_routes p (e ∷ es) =
        Keeps-bind _ _ (quiet-route_descriptor_delete p e) λ a. quiet-delete_routes p es

    quiet-prefix_descriptor_delete : (p : ℕ) → Keeps f (prefix_descriptor_delete p)
    unfolding prefix_descriptor_delete
    quiet-prefix_descriptor_delete p = Keeps-bind _ _ (quiet-load_prefix p) λ d.
        Keeps-bind _ _ Keeps-get λ w. Keeps-when _ _ (
          Keeps-bind _ _ (Keeps-modify _ λ v. b.changes v _) λ _.
            Keeps-bind _ _ (quiet-delete_routes p d.entries) λ _.
              Keeps-bind _ _ (quiet-zebra_call _)
                λ _. Keeps-bind _ _ (Keeps-modify _ λ v. b.table v _) λ _. quiet-free_prefix p)

    pub quiet-update_topology_table_prefix : (p : ℕ) → Keeps f (update_topology_table_prefix p)
    unfolding update_topology_table_prefix
    quiet-update_topology_table_prefix p =
        search (quiet_rules, quiet-drop_unreachable, quiet-prefix_descriptor_delete)
