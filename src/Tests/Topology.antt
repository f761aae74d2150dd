-- ===== src/Tests/Topology.antt =====
-- The selection of successors and the fuel of the state machine at a concrete destination.
use eigrpd.Base.{◌≡◌, refl, some, [], ◌∷◌}
use mathlib.Core.Option
use eigrpd.State.{pure, fault, ◌>>◌}
use eigrpd.Topology.{update_node_flags}
use eigrpd.Topology.Table.{non_empty, get_successor_max}
use eigrpd.Topology.Selection.{successors_of, take, get_successor_max-take}
use eigrpd.Topology.Flags.{within, flagged, get_successor_max-within}
use eigrpd.Fsm.Action.{do_dinc, act}
use eigrpd.Fsm.Fuel.{act_enough}
use eigrpd.Tests.Lists.{link_list}
use eigrpd.Tests.Scenario.{world, prefix, route, update}

within-world : within prefix world (10 ∷ []) ≡ 10 ∷ []
within-world = refl

get_successor_max-take_example :
    get_successor_max 0 4 world
    ≡ some (Option.map (λ l. take 4 l) (non_empty (successors_of world prefix.entries)), world)
get_successor_max-take_example = get_successor_max-take 0 4 prefix world refl ((route, refl), tt)

get_successor_max-within_example :
    (update_node_flags 0 >> get_successor_max 0 4) world
    ≡ some (
      Option.map (λ l. take 4 l) (non_empty (within prefix world prefix.entries)),
      record world { routes = flagged prefix world prefix.entries },
    )
get_successor_max-within_example =
    get_successor_max-within 0 4 prefix world refl ((route, refl), tt)

act_enough_example : act (pure tt) 7 do_dinc update world ≡ act fault 1 do_dinc update world
act_enough_example = act_enough (pure tt) 6 do_dinc update world
