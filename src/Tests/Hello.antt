-- ===== src/Tests/Hello.antt =====
-- A hello with one TLV of parameters, and the adjacency that it makes.
use eigrpd.Base.{
  ℕ, ◌+◌, ◌≡◌, refl, true, false, Option, none, some, [], ◌∷◌, ◌==◌, ltb, if◌then◌else◌, arith,
}
use eigrpd.State.{Weights, default_weights, down, pending, up}
use eigrpd.Packet.Framing.{header_len, auth_tlv_find, find_from}
use eigrpd.Packet.Verify.{
  Expected, Header, auth_policy, auth_header_validate, check_network_mask, header_fields,
  verify_header,
}
use eigrpd.Hello.{
  Step, go, hello_walk, Session, kept, session_state_set, parameter_decode, hello_normal,
  update_init,
}
use eigrpd.Hello.Verified.{verified_walk_ends}
use eigrpd.Hello.Adjacency.{
  Agrees, session_restarted, created, configured, hello, full, restarted, Comes-Agrees,
}

-- Version 2, AS 100, VRID 0, and a TLV of type 1 and length 12.
abbrev bytes : ℕ → Option ℕ
bytes i =
    if i == 0
    then some 2
    else if i == 19
    then some 100
    else if i == 21
    then some 1
    else if i == 23
    then some 12
    else if ltb i 32
    then some 0
    else none

abbrev hello_header : Header
hello_header = record { byte = bytes; length = 32; in_cksum = 0; ip_src = 167838210 }

abbrev expected : Expected
expected = record {
  as_number = 100;
  vrid = 0;
  auth_type = 0;
  auth_keychain = false;
  point_to_point = true;
  prefixlen = 24;
  address = 167838209;
}

-- A handler that counts the TLVs.
abbrev count : ℕ → ℕ → ℕ → Step ℕ
count type offset n = go (n + 1)

accepted : verify_header expected hello_header ≡ some true
unfolding verify_header auth_header_validate auth_policy check_network_mask header_fields
    auth_tlv_find find_from
accepted = refl

verified_walk_ends_example : (b : ℕ) × (hello_walk count bytes 12 header_len 12 0 ≡ some b)
verified_walk_ends_example =
    verified_walk_ends count expected hello_header 0 accepted (omega arith) (omega arith)

-- A new neighbor, a hello with the default weights, and the first acknowledgement.
abbrev newcomer : Session
newcomer = record {
  state = down;
  weights = default_weights;
  v_holddown = 15;
  recv_sequence_number = 0;
  init_sequence_number = 0;
  retrans_counter = 0;
  crypt_seqnum = 0;
  sent = [];
}

abbrev heard : Session
heard = record newcomer { state = pending; sent = hello_normal ∷ update_init ∷ [] }

heard_decoded : parameter_decode default_weights default_weights 15 newcomer ≡ kept heard
unfolding parameter_decode session_state_set
heard_decoded = refl

-- The peer restarts after that, and the operator sets K2.
abbrev k2_set : Weights
k2_set = record default_weights { k2 = 1 }

abbrev anew : Session
anew = session_restarted 9 (session_state_set up heard)

up_state : (session_state_set up heard).state ≡ up
unfolding session_state_set
up_state = refl

anew_state : anew.state ≡ pending
unfolding session_state_set
anew_state = refl

Comes-Agrees_example : Agrees (k2_set ∷ default_weights ∷ []) (session_state_set up anew)
Comes-Agrees_example = Comes-Agrees (k2_set ∷ default_weights ∷ []) (session_state_set up anew) (
    full _ anew
      (configured k2_set _ anew (
        restarted _ (session_state_set up heard) 9
          (full _ heard
            (hello default_weights [] newcomer heard default_weights 15
              (created default_weights newcomer refl) heard_decoded)
            refl)
          up_state))
      anew_state)
