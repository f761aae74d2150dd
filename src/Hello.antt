-- ===== src/Hello.antt =====
-- eigrpd/eigrp_hello.c: the walk of eigrp_hello_receive over a hello's TLVs, and the parameters that
-- decide an adjacency.
pub mod Walk
pub mod Verified
pub mod Adjacency
use eigrpd.Base.{
  ℕ, zero, suc, ◌+◌, ◌-◌, Bool, true, false, ◌&&◌, Option, none, some, List, [], ◌∷◌, ◌++◌, ltb,
  leb, ◌==◌, ◌>>=?◌, if◌then◌else◌,
}
use Prim.Native.Nat.{bit_and}
use eigrpd.State.{NbrState, down, pending, up, Weights, default_weights, hold_interval_default}
use eigrpd.Neighbor.{is_up}
use eigrpd.Packet.Framing.{read_u16}

-- What a TLV's handler does with the loop: go on, or leave the function.
pub data Step (A : Type 0) : Type 0 where
  go leave : A → Step A

-- The loop of eigrp_hello_receive, on fuel; `none` is a read outside the buffer, or the end of the
-- fuel. `size` is signed in the source: a TLV that is longer ends the loop.
module _ {A : Type 0} (handle : ℕ → ℕ → A → Step A) (byte : ℕ → Option ℕ) where
  -- The handler is called for a TLV that has bytes and is inside what is left.
  unfoldable pub step : ℕ → ℕ → ℕ → ℕ → A → Step A
  step type offset length size a =
      if ltb 0 length && leb length size then handle type offset a else go a

  -- The end of a round: `next` is the loop on what is left.
  unfoldable pub walk_on : (A → Option A) → ℕ → ℕ → Step A → Option A
  walk_on next length size (leave a) = some a
  walk_on next length size (go a) = if ltb length size then next a else some a

  unfoldable pub hello_walk : ℕ → ℕ → ℕ → A → Option A
  hello_walk zero offset size a = none
  hello_walk (suc fuel) offset size a = read_u16 byte offset >>=? λ type.
      read_u16 byte (offset + 2) >>=? λ length.
      walk_on (hello_walk fuel (offset + length) (size - length)) length size
        (step type offset length size a)

-- The packets that a parameter TLV has sent.
pub data Sent : Type 0 where
  hello_normal update_init : Sent

-- The fields of a neighbor that the hellos change.
pub record Session : Type 0 where
  pub state : NbrState
  pub weights : Weights
  pub v_holddown : ℕ
  pub recv_sequence_number : ℕ
  pub init_sequence_number : ℕ
  pub retrans_counter : ℕ
  pub crypt_seqnum : ℕ
  pub sent : List Sent

abbrev pub is_down : NbrState → Bool
is_down down = true
is_down pending = false
is_down up = false

-- eigrp_hello_k_same: the first five weights.
abbrev pub k_same : Weights → Weights → Bool
k_same k n = k.k1 == n.k1 && (k.k2 == n.k2 && (k.k3 == n.k3 && (k.k4 == n.k4 && k.k5 == n.k5)))

-- eigrp_nbr_state_set, on the neighbor itself.
unfoldable pub session_state_set : NbrState → Session → Session
session_state_set state n =
    if is_down state
    then record n {
      state = state;
      recv_sequence_number = 0;
      init_sequence_number = 0;
      retrans_counter = 0;
      weights = default_weights;
      v_holddown = hold_interval_default;
      crypt_seqnum = 0;
    }
    else record n { state = state }

-- Every weight of a peer that says goodbye is 255.
abbrev pub terminates : Weights → Bool
terminates p = bit_and (bit_and (bit_and (bit_and p.k1 p.k2) p.k3) p.k4) p.k5 == 255

-- What is left of a neighbor: it is deleted, or kept.
pub data Kept : Type 0 where
  deleted : Kept
  kept : Session → Kept

-- eigrp_hello_parameter_decode, with the instance's weights and the TLV's.
unfoldable pub parameter_decode : Weights → Weights → ℕ → Session → Kept
parameter_decode k param hold_time n =
    let m = record n { weights = param; v_holddown = hold_time } in
    if k_same k param
    then (if is_down n.state
        then kept (
            session_state_set pending
              (record m { sent = m.sent ++ hello_normal ∷ update_init ∷ [] }))
        else kept m)
    else if is_down n.state
    then kept m
    else if terminates param
    then deleted
    else kept (session_state_set down m)
