-- ===== src/Send/Poison.antt =====
-- A destination without a successor is advertised as unreachable.
use eigrpd.Base.{ℕ, suc, ◌≡◌, [], refl, true, none, some, ◌==◌, arith}
use eigrpd.Metric.{max_metric}
use eigrpd.LinkList.{LinkList}
use eigrpd.State.{
  Route, Prefix, World, ◌>>=◌, write, load_prefix, load_route, store_route, update_route,
}
use eigrpd.Topology.{new_route, route_create}
use eigrpd.Topology.Distance.{is_external}
use eigrpd.Topology.Selection.{AreLive, successors_of, get_successor-successors_of}
use eigrpd.Send.{tlv_ipv4, poison_route_create, advertised_route}

same_self : (p : ℕ) → (p == p) ≡ true
same_self p = ground arith

-- The route that is advertised.
abbrev pub poison : ℕ → Prefix → Route
poison p d = record (new_route none) {
  prefix = some p;
  dest = d.destination;
  type = tlv_ipv4 (is_external d.nt);
  metric = record d.reported_metric { delay = max_metric; flags = 0 };
}

abbrev poisoned : ℕ → Prefix → World → World
poisoned p d w = record w {
  next_route = suc w.next_route;
  routes =
      write (write w.routes w.next_route (some (new_route none))) w.next_route (some (poison p d));
}

poison_route_create_lem :
    (p : ℕ) (d : Prefix) (w : World)
    → w.prefixes p ≡ some d
    → poison_route_create p w ≡ some (w.next_route, poisoned p d w)
unfolding poison_route_create route_create load_prefix load_route store_route update_route ◌>>=◌
poison_route_create_lem p d w here = rw (here, same_self w.next_route) refl

module _ ⦃ll : LinkList⦄ where
  -- A reply without a route of its own, about a destination whose entries are live and of which no
  -- entry carries the successor flag, advertises a fresh route, to be freed, for the destination
  -- itself, with delay EIGRP_MAX_METRIC and the other fields of the advertised metric, flags aside.
  pub advertised_route-poison :
      (p : ℕ) (d : Prefix) (w : World)
      → w.prefixes p ≡ some d
      → AreLive w d.entries
      → successors_of w d.entries ≡ []
      → (v : World) × (r : Route) × (advertised_route none p w ≡ some ((w.next_route, true), v))
        × (v.routes w.next_route ≡ some r)
        × (r.dest ≡ d.destination)
        × (r.metric ≡ record d.reported_metric { delay = max_metric; flags = 0 })
  unfolding advertised_route ◌>>=◌
  advertised_route-poison p d w here live no_successor = (
    poisoned p d w,
    poison p d,
    (rw
        (
          get_successor-successors_of p d w here live,
          no_successor,
          poison_route_create_lem p d w here,
        )
        refl),
    (rw (same_self w.next_route) refl),
    refl,
    refl,
  )
