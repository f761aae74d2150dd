-- ===== src/Tests/Peers.antt =====
-- An interface with one neighbor, which is up with the classic version.
use eigrpd.Base.{◌≡◌, refl, some, [], ◌∷◌, arith}
use eigrpd.State.{down, up, write}
use eigrpd.State.{classic}
use eigrpd.Peers.{Peer, Peers, classic_version, wide_version, state_set, neighbor_bind}
use eigrpd.Peers.Tally.{tally, first}
use eigrpd.Peers.Invariant.{IsCounted, state_set-IsCounted}
use eigrpd.Peers.Rebind.{neighbor_bind_leaks}

abbrev peer : Peer
peer = record { state = up; tlv_version = 1 }

abbrev one_peer : Peers
one_peer = record {
  peers = λ p. some peer;
  tlv1_peer_count = 1;
  tlv2_peer_count = 0;
  encoder = classic;
}

one_peer-IsCounted : IsCounted one_peer (4 ∷ [])
one_peer-IsCounted = record {
  counts = record { one = refl; two = refl; chosen = refl };
  few = omega arith;
}

state_set-IsCounted_example :
    (j : Peers) × (state_set 4 down one_peer ≡ some j)
    × (j.peers ≡ write one_peer.peers 4 (some (record { state = down; tlv_version = 1 })))
    × IsCounted j (4 ∷ [])
state_set-IsCounted_example =
    state_set-IsCounted one_peer (4 ∷ []) 4 peer down (first [] tt) refl one_peer-IsCounted

neighbor_bind_leaks_example :
    (j : Peers) × (k : Peers) × (neighbor_bind wide_version 4 one_peer ≡ some j)
    × (state_set 4 down j ≡ some k)
    × (k.encoder ≡ classic)
    × (tally classic_version k.peers (4 ∷ []) ≡ 0)
    × (tally wide_version k.peers (4 ∷ []) ≡ 0)
neighbor_bind_leaks_example =
    neighbor_bind_leaks one_peer (4 ∷ []) 4 (first [] tt) refl one_peer-IsCounted refl refl
