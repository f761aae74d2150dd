-- ===== src/Topology/Frame.antt =====
-- What the operations on the topology table leave alone: no operation but those of
-- eigrpd/eigrp_fsm.c changes the distances, the metric or the state of a destination.
use eigrpd.Base.{ℕ, refl, Bool, true, false, Option, none, some, List, [], ◌∷◌}
use eigrpd.Metric.{Metrics}
use eigrpd.LinkList.{LinkList}
use eigrpd.State.{
  Dest, Route, Prefix, TopologyType, FsmState, World, M, pure, expect, get, modify, when, ◌>>=◌,
  ◌>>◌, write, load_route, store_route, free_route, load_prefix, store_prefix, free_prefix,
  load_nbr, load_intf, update_route, update_prefix, zebra_call, ZebraCall, route_add, route_delete,
  Keeps-get, Keeps, Keeps-bind, Keeps-when, Keeps-modify, keeps_rules, Ends, ends, faults,
  Ends-mono, Ends-bind,
}
use eigrpd.Topology.{
  route_create, flag_entries, update_node_flags, set_intable, MsgData, msg_connected, msg_int,
  msg_ext,
}
use eigrpd.Topology.Table.{successors_from, get_successor, get_successor_max, update_routing_table}
use eigrpd.Topology.Distance.{route_intf, record_metrics, measure}

abbrev pub prefixes_of : World → ℕ → Option Prefix
prefixes_of w = w.prefixes

pub Keeps-load_route : (p : ℕ) → Keeps prefixes_of (load_route p)
unfolding load_route
Keeps-load_route p = search keeps_rules

pub Keeps-store_route : (p : ℕ) (r : Route) → Keeps prefixes_of (store_route p r)
unfolding store_route
Keeps-store_route p r = Keeps-modify _ λ w. refl

pub Keeps-load_prefix : (p : ℕ) → Keeps prefixes_of (load_prefix p)
unfolding load_prefix
Keeps-load_prefix p = search keeps_rules

pub Keeps-load_nbr : (p : ℕ) → Keeps prefixes_of (load_nbr p)
unfolding load_nbr
Keeps-load_nbr p = search keeps_rules

pub Keeps-load_intf : (p : ℕ) → Keeps prefixes_of (load_intf p)
unfolding load_intf
Keeps-load_intf p = search keeps_rules

pub Keeps-zebra_call : (c : ZebraCall) → Keeps prefixes_of (zebra_call c)
unfolding zebra_call
Keeps-zebra_call c = Keeps-modify _ λ w. refl

pub Keeps-free_route : (p : ℕ) → Keeps prefixes_of (free_route p)
unfolding free_route
Keeps-free_route p = Keeps-bind _ _ (Keeps-load_route p) λ r. Keeps-modify _ λ w. refl

pub Keeps-update_route : (p : ℕ) (f : Route → Route) → Keeps prefixes_of (update_route p f)
unfolding update_route
Keeps-update_route p f = search (keeps_rules, Keeps-load_route, Keeps-store_route)

pub ruleset frame_rules = (
  keeps_rules, Keeps-load_route, Keeps-store_route, Keeps-load_prefix, Keeps-load_nbr,
  Keeps-load_intf, Keeps-zebra_call, Keeps-free_route, Keeps-update_route,
)

pub Keeps-route_create : (ei : Option ℕ) → Keeps prefixes_of (route_create ei)
unfolding route_create
Keeps-route_create ei = record { at = λ w. ends refl }

Keeps-flag_entries : (d : Prefix) (v : ℕ) (es : List ℕ) → Keeps prefixes_of (flag_entries d v es)
unfolding flag_entries
Keeps-flag_entries d v [] = search frame_rules
Keeps-flag_entries d v (e ∷ es) = Keeps-bind _ _ (search frame_rules) λ a. Keeps-flag_entries d v es

pub Keeps-update_node_flags : (p : ℕ) → Keeps prefixes_of (update_node_flags p)
unfolding update_node_flags
Keeps-update_node_flags p = search (frame_rules, Keeps-flag_entries)

Keeps-set_intable : (b : Bool) (es : List ℕ) → Keeps prefixes_of (set_intable b es)
unfolding set_intable
Keeps-set_intable b [] = search frame_rules
Keeps-set_intable b (e ∷ es) = Keeps-bind _ _ (search frame_rules) λ a. Keeps-set_intable b es

pub Keeps-route_intf : (ei nbr : Option ℕ) → Keeps prefixes_of (route_intf ei nbr)
unfolding route_intf
Keeps-route_intf (some ei) nbr = search frame_rules
Keeps-route_intf none none = search frame_rules
Keeps-route_intf none (some nbr) = search frame_rules

Keeps-record_metrics : (r : ℕ) (m : Metrics) → Keeps prefixes_of (record_metrics r m)
unfolding record_metrics
Keeps-record_metrics r m = search frame_rules depth 20

module _ ⦃ll : LinkList⦄ where
  Keeps-successors_from : (es found : List ℕ) → Keeps prefixes_of (successors_from found es)
  unfolding successors_from
  Keeps-successors_from [] found = search frame_rules
  Keeps-successors_from (e ∷ es) found =
      Keeps-bind _ _ (Keeps-load_route e) λ r. Keeps-successors_from es _

  pub Keeps-get_successor : (p : ℕ) → Keeps prefixes_of (get_successor p)
  unfolding get_successor
  Keeps-get_successor p =
      Keeps-bind _ _ (Keeps-load_prefix p)
        λ d. Keeps-bind _ _ (Keeps-successors_from d.entries []) λ l. search frame_rules

  Keeps-get_successor_max : (p n : ℕ) → Keeps prefixes_of (get_successor_max p n)
  unfolding get_successor_max
  Keeps-get_successor_max p n = search (frame_rules, Keeps-get_successor)

  pub Keeps-update_routing_table : (p : ℕ) → Keeps prefixes_of (update_routing_table p)
  unfolding update_routing_table
  Keeps-update_routing_table p = Keeps-bind _ _ Keeps-get λ w.
      Keeps-bind _ _ (Keeps-get_successor_max p w.max_paths)
        λ found. Keeps-bind _ _ (Keeps-load_prefix p) λ d. by_case d found
    where
      by_case :
          (d : Prefix) (found : Option (List ℕ))
          → Keeps prefixes_of (elim found [
            | some l ↦ (zebra_call (route_add d.destination l d.fdistance) >> set_intable true l)
            | none ↦ (zebra_call (route_delete d.destination) >> set_intable false d.entries)
          ])
      by_case d none = search (frame_rules, Keeps-set_intable)
      by_case d (some l) = search (frame_rules, Keeps-set_intable)

  pub Keeps-measure :
      (t : MsgData) (d : Prefix) (r : Route) (p : ℕ) (m : Metrics)
      → Keeps prefixes_of (measure t d r p m)
  unfolding measure
  Keeps-measure msg_connected d r p m = search frame_rules
  Keeps-measure msg_int d r p m = search (frame_rules, Keeps-record_metrics)
  Keeps-measure msg_ext d r p m = search (frame_rules, Keeps-record_metrics)
