-- ===== src/Fsm/Increase.antt =====
-- What follows a distance increase while ACTIVE, eigrp_fsm_event_dinc of eigrpd/eigrp_fsm.c.
use eigrpd.Base.{ℕ, ◌≡◌, refl, sym, ◌∙◌, ◌≢◌, inl, inr, if◌then◌else◌}
use mathlib.Core.Path.{subst}
use eigrpd.State.{FsmState, passive, active_0, active_1, active_2, active_3, World}
use eigrpd.Topology.Core.{Core}
use eigrpd.Fsm.Action.{is_active_0, is_active_1}
use eigrpd.Fsm.Outcome.{
  Arrow, Outcome, freezes, resets, accepts, Done, stay, increased_0, increased_2, again_1, again_3,
  query_0, query_1,
}

-- What follows a distance increase is an outcome of the state before it.
from_active_0 : {s : FsmState} → Arrow active_0 s → Arrow active_1 s
from_active_0 (stay _) = increased_0
from_active_0 again_1 = stay active_1
from_active_0 query_0 = query_1

from_active_2 : {s : FsmState} → Arrow active_2 s → Arrow active_3 s
from_active_2 (stay _) = increased_2
from_active_2 again_3 = stay active_3

-- The state that eigrp_fsm_event_lr_fcn sets.
abbrev pub again : FsmState → FsmState
again s = if is_active_0 s then active_1 else active_3

-- The state from which eigrp_fsm_event_dinc is called, and the one that it sets.
pub data Increases : FsmState → FsmState → Type 0 where
  to_0 : Increases active_1 active_0
  to_2 : Increases active_3 active_2

Increases-Arrow : {s t u : FsmState} → Increases s t → Arrow t u → Arrow s u
Increases-Arrow to_0 a = from_active_0 a
Increases-Arrow to_2 a = from_active_2 a

pub Increases-active : {s t : FsmState} → Increases s t → s ≢ passive
Increases-active to_0 e = cc
Increases-active to_2 e = cc

pub Increases-Outcome :
    (c e : Core) {s t : FsmState}
    → Increases s t
    → c.state ≡ s
    → Outcome (record c { state = t }) e
    → Outcome c e
Increases-Outcome c e i eq (freezes u a h) =
    freezes u (subst (λ x. Arrow x u) (sym eq) (Increases-Arrow i a)) h
Increases-Outcome c e i eq (resets x m h) = resets x m h
Increases-Outcome c e i eq (accepts x m active h) =
    accepts x m (λ q. Increases-active i (sym eq ∙ q)) h

pub Increases-Done :
    (p : ℕ) (c : Core) {s t : FsmState} (v : World)
    → Increases s t
    → c.state ≡ s
    → Done p (record c { state = t }) v
    → Done p c v
Increases-Done p c v i eq (inl gone) = inl gone
Increases-Done p c v i eq (inr (e, h, o)) = inr (e, h, Increases-Outcome c e i eq o)

pub Increases-target :
    {s t : FsmState} → Increases s t → (if is_active_1 s then active_0 else active_2) ≡ t
Increases-target to_0 = refl
Increases-target to_2 = refl
