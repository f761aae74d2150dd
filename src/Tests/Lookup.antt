-- ===== src/Tests/Lookup.antt =====
-- The lookup of the neighbors of a router's interface.
use eigrpd.Base.{◌≡◌, refl, some}
use eigrpd.Neighbor.{lookup_by_addr_process}
use eigrpd.Neighbor.Lookup.{lookup_by_addr_process-find}
use eigrpd.Tests.Scenario.{world}

lookup_by_addr_process-find_example : lookup_by_addr_process 167772163 world ≡ some (some 1, world)
lookup_by_addr_process-find_example =
    lookup_by_addr_process-find world 167772163 ((_, refl, ((_, refl), ((_, refl), tt))), tt)
