-- ===== src/Tests/Lifetime.antt =====
-- Neighbors that depart.
use eigrpd.Base.{◌≡◌, refl, none, some, [], ◌∷◌, Option}
use eigrpd.State.{World, Ends}
use eigrpd.Lifetime.{holddown_timer_expired}
use eigrpd.Lifetime.Departure.{without, holddown_timer_expired-intfs}
use eigrpd.Tests.Lists.{link_list}
use eigrpd.Tests.Scenario.{world, dest, near, neighbor, interface}

abbrev expiry : Option (Unit {0} × World)
expiry = holddown_timer_expired near (dest ∷ []) 0 world

holddown_timer_expired-intfs_example :
    Ends (λ _ v. (v.nbrs 0 ≡ none) × (v.intfs 0 ≡ some (without 0 (neighbor 0) interface))) expiry
holddown_timer_expired-intfs_example =
    holddown_timer_expired-intfs near (dest ∷ []) 0 0 (neighbor 0) interface world refl refl refl

unlisted : (without 0 (neighbor 0) interface).nbrs ≡ 1 ∷ []
unlisted = refl
