-- ===== src/Tests/Send.antt =====
-- A reply about a destination that has lost its successor.
use eigrpd.Base.{◌≡◌, refl, true, false, none, some, if◌then◌else◌, ◌==◌}
use eigrpd.Metric.{max_metric}
use eigrpd.State.{Route, World}
use eigrpd.Send.{advertised_route}
use eigrpd.Send.Poison.{advertised_route-poison}
use eigrpd.Tests.Lists.{link_list}
use eigrpd.Tests.Scenario.{world, prefix, route}

abbrev lost : Route
lost = record route { successor = false }

abbrev without : World
without = record world { routes = λ p. if p == 10 then some lost else none }

advertised_route-poison_example :
    (v : World) × (r : Route) × (advertised_route none 0 without ≡ some ((11, true), v))
    × (v.routes 11 ≡ some r)
    × (r.dest ≡ prefix.destination)
    × (r.metric ≡ record prefix.reported_metric { delay = max_metric; flags = 0 })
advertised_route-poison_example =
    advertised_route-poison 0 prefix without refl ((lost, refl), tt) refl
