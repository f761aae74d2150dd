-- ===== src/Peers.antt =====
-- eigrpd/eigrp_interface.c and eigrpd/eigrp_neighbor.c: the neighbors of an interface by TLV
-- version, and the encoder that the interface uses for its multicast packets.
pub mod Tally
pub mod Counts
pub mod Invariant
pub mod Rebind
use eigrpd.Base.{ℕ, ◌+◌, ◌-◌, Bool, not, ◌&&◌, Option, none, some, ◌==◌, ◌>>=?◌, if◌then◌else◌, u16}
use eigrpd.State.{Encoder, safe_encoder, classic, wide, both, NbrState, down, pending, up, write}
use eigrpd.Neighbor.{is_up}

-- EIGRP_TLV_32B_VERSION and EIGRP_TLV_64B_VERSION
abbrev pub classic_version : ℕ
classic_version = 1

abbrev pub wide_version : ℕ
wide_version = 2

-- The fields of a neighbor that the counters depend on.
pub record Peer : Type 0 where
  pub state : NbrState
  pub tlv_version : ℕ

pub record Peers : Type 0 where
  pub peers : ℕ → Option Peer
  pub tlv1_peer_count : ℕ
  pub tlv2_peer_count : ℕ
  pub encoder : Encoder

-- eigrp_interface_encoder_select; eigrp_tlv1_interface_bind and eigrp_tlv2_interface_bind store the
-- codec's encoder, which eigrp_tlv1_init and eigrp_tlv2_init have set.
abbrev pub selected : ℕ → ℕ → Encoder
selected count1 count2 =
    if not (count1 == 0) && not (count2 == 0)
    then both
    else if not (count1 == 0)
    then classic
    else if not (count2 == 0)
    then wide
    else safe_encoder

unfoldable pub encoder_select : Peers → Peers
encoder_select i = record i { encoder = selected i.tlv1_peer_count i.tlv2_peer_count }

-- eigrp_interface_encoder_clear
unfoldable pub encoder_clear : Peers → Peers
encoder_clear i = record i { tlv1_peer_count = 0; tlv2_peer_count = 0; encoder = safe_encoder }

-- eigrp_interface_encoder_bind
unfoldable pub encoder_bind : ℕ → Peers → Peers
encoder_bind version i =
    if version == classic_version
    then encoder_select (record i { tlv1_peer_count = u16 (i.tlv1_peer_count + 1) })
    else if version == wide_version
    then encoder_select (record i { tlv2_peer_count = u16 (i.tlv2_peer_count + 1) })
    else i

-- eigrp_interface_encoder_unbind: a counter at 0 stays there.
unfoldable pub encoder_unbind : ℕ → Peers → Peers
encoder_unbind version i =
    if version == classic_version
    then encoder_select (record i { tlv1_peer_count = i.tlv1_peer_count - 1 })
    else if version == wide_version
    then encoder_select (record i { tlv2_peer_count = i.tlv2_peer_count - 1 })
    else i

-- eigrp_nbr_state_set, up to the interface: the counters before the state and after it.
unfoldable pub state_set : ℕ → NbrState → Peers → Option Peers
state_set p state i = i.peers p >>=? λ peer.
    (let left =
        if is_up peer.state && not (is_up state) then encoder_unbind peer.tlv_version i else i in
      let stored = record left {
        peers = write left.peers p (some (record peer { state = state }));
      } in
      some (
        if is_up state && not (is_up peer.state)
        then encoder_bind peer.tlv_version stored
        else stored))

-- eigrp_tlv1_neighbor_bind and eigrp_tlv2_neighbor_bind: the version alone.
unfoldable pub neighbor_bind : ℕ → ℕ → Peers → Option Peers
neighbor_bind version p i = i.peers p >>=? λ peer.
    some (record i { peers = write i.peers p (some (record peer { tlv_version = version })) })
