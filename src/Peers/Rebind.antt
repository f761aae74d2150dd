-- ===== src/Peers/Rebind.antt =====
-- A neighbor that changes its version while it is up: eigrp_sw_version_decode of
-- eigrpd/eigrp_hello.c binds a codec at each hello.
use eigrpd.Base.{ℕ, ◌+◌, ◌-◌, ◌≡◌, refl, ap, ◌∙◌, true, Option, some, List, ◌==◌, arith}
use eigrpd.State.{down, up, write}
use eigrpd.State.{classic}
use eigrpd.Peers.{
  Peer, Peers, selected, classic_version, wide_version, encoder_select, encoder_unbind, state_set,
  neighbor_bind,
}
use eigrpd.Peers.Tally.{counted, tally, Once, tally-write}
use eigrpd.Peers.Invariant.{IsCounted}

abbrev classic_peer : Peer
classic_peer = record { state = up; tlv_version = classic_version }

abbrev rebound : Peer
rebound = record { state = up; tlv_version = wide_version }

abbrev lost : Peer
lost = record { state = down; tlv_version = wide_version }

twice :
    (v : ℕ) (i : Peers) (nbrs : List ℕ) (p : ℕ)
    → Once p nbrs
    → i.peers p ≡ some classic_peer
    → tally v (write (write i.peers p (some rebound)) p (some lost)) nbrs
        + counted v (some classic_peer)
      ≡ tally v i.peers nbrs
twice v i nbrs p once ep =
    let here : (p == p) ≡ true = ground arith in
    let f : ℕ → Option Peer = write i.peers p (some rebound) in
    let at : counted v (f p) ≡ counted v (some rebound) =
      ap (counted v) {y = some rebound} (rw here refl) in
    omega (
      arith,
      tally-write v i.peers p (some rebound) nbrs once,
      tally-write v f p (some lost) nbrs once,
      ap (counted v) ep,
      at,
    )

-- Where an interface has one neighbor that is up, of the classic version, a hello that binds the
-- wide version and the neighbor's going down leave the interface with the classic encoder and with
-- no neighbor that is up: binding a version does not move the neighbor to the other counter.
pub neighbor_bind_leaks :
    (i : Peers) (nbrs : List ℕ) (p : ℕ)
    → Once p nbrs
    → i.peers p ≡ some classic_peer
    → IsCounted i nbrs
    → tally classic_version i.peers nbrs ≡ 1
    → tally wide_version i.peers nbrs ≡ 0
    → (j : Peers) × (k : Peers) × (neighbor_bind wide_version p i ≡ some j)
      × (state_set p down j ≡ some k)
      × (k.encoder ≡ classic)
      × (tally classic_version k.peers nbrs ≡ 0)
      × (tally wide_version k.peers nbrs ≡ 0)
unfolding neighbor_bind state_set encoder_unbind encoder_select
neighbor_bind_leaks i nbrs p once ep h e1 e2 =
    let empty : i.tlv2_peer_count - 1 ≡ 0 = omega (arith, h.counts.two, e2) in
    let here : (p == p) ≡ true = ground arith in
    let f : ℕ → Option Peer = write i.peers p (some rebound) in
    let j : Peers = record i { peers = f } in
    let k : Peers = record i {
      tlv2_peer_count = i.tlv2_peer_count - 1;
      encoder = selected i.tlv1_peer_count (i.tlv2_peer_count - 1);
      peers = write f p (some lost);
    } in
    (
      j,
      k,
      rw ep refl,
      rw here refl,
      (λ x. selected ((h.counts.one ∙ e1) x) (empty x)),
      omega (arith, twice classic_version i nbrs p once ep, e1),
      omega (arith, twice wide_version i nbrs p once ep, e2),
    )
