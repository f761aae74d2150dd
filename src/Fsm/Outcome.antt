-- ===== src/Fsm/Outcome.antt =====
-- What one event of the state machine may do to a destination: the diagram at the head of
-- eigrpd/eigrp_fsm.c, with the distances.
use eigrpd.Base.{ℕ, ◌≡◌, ◌≢◌, ◌⊎◌, none, some, ltb, if◌then◌else◌}
use eigrpd.Metric.{Metrics}
use eigrpd.State.{FsmState, passive, active_0, active_1, active_2, active_3, World}
use eigrpd.Topology.Core.{Core, core_of}

-- The moves between states that one event makes, other than those back to PASSIVE. From ACTIVE_2
-- and ACTIVE_3, where a successor has asked, none leads to ACTIVE_0 or ACTIVE_1.
pub data Arrow : FsmState → FsmState → Type 0 where
  stay : (s : FsmState) → Arrow s s
  ask : Arrow passive active_1
  asked : Arrow passive active_3
  increased_0 : Arrow active_1 active_0
  increased_2 : Arrow active_3 active_2
  again_1 : Arrow active_0 active_1
  again_3 : Arrow active_2 active_3
  query_0 : Arrow active_0 active_2
  query_1 : Arrow active_1 active_2

-- `freezes`: only the state changes. `resets`: the destination is PASSIVE and all its distances are
-- those of its new best route. `accepts`: an active destination becomes PASSIVE with the distance
-- of its best route, and its feasible distance is lowered to it if that is less.
pub data Outcome (c e : Core) : Type 0 where
  freezes : (s : FsmState) → Arrow c.state s → e ≡ record c { state = s } → Outcome c e
  resets :
      (x : ℕ) (m : Metrics)
      → e ≡ record c {
        state = passive;
        fdistance = x;
        rdistance = x;
        distance = x;
        reported_metric = m;
      }
      → Outcome c e
  accepts :
      (x : ℕ) (m : Metrics)
      → c.state ≢ passive
      → e ≡ record c {
        state = passive;
        fdistance = if ltb x c.fdistance then x else c.fdistance;
        rdistance = x;
        distance = x;
        reported_metric = m;
      }
      → Outcome c e

-- The destination is freed, or its core has gone through an outcome.
abbrev pub Done : ℕ → Core → World → Type 0
Done p c v = (v.prefixes p ≡ none) ⊎ ((e : Core) × (core_of p v ≡ some e) × Outcome c e)
