-- ===== src/Fsm.antt =====
-- eigrpd/eigrp_fsm.c: the DUAL finite state machine of a destination.
pub mod Event
pub mod Action
pub mod Outcome
pub mod Frame
pub mod Publish
pub mod Settle
pub mod Keep
pub mod Increase
pub mod Dual
pub mod Fuel
pub mod Quiet
use eigrpd.LinkList.{LinkList}
use eigrpd.State.{fault, M, ◌>>=◌, load_prefix}
use eigrpd.Topology.{Msg}
use Event.{get_fsm_event}
use Action.{nsm, act}

module _ ⦃ll : LinkList⦄ where
  -- eigrp_fsm_event. A fuel of 1 is enough: eigrp_fsm_event_dinc calls no second one.
  unfoldable pub fsm_event : Msg → M (Unit {0})
  fsm_event msg = do
    (event, full) ← get_fsm_event msg
    d ← load_prefix full.prefix
    act fault 1 (nsm d.state event) full
