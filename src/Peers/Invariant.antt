-- ===== src/Peers/Invariant.antt =====
-- Every change of a neighbor's state keeps the counters and the encoder of its interface.
use eigrpd.Base.{
  ℕ, ◌+◌, ◌-◌, ◌≤◌, ◌<◌, ◌≡◌, refl, ap, ◌∙◌, inl, inr, Option, some, List, Bool-cases, length,
  arith,
}
use mathlib.Core.Path.{subst}
use eigrpd.State.{NbrState, write}
use eigrpd.Neighbor.{is_up}
use eigrpd.Peers.{
  Peer, Peers, selected, classic_version, wide_version, encoder_bind, encoder_unbind, state_set,
}
use eigrpd.Peers.Tally.{counted, tally, Once, tally-write, tally_le, counted_le_tally}
use eigrpd.Peers.Counts.{Counts, bind-Counts, unbind-Counts, peers-bind, peers-unbind}

-- Each counter is the number of the interface's neighbors that are up with its version, and the
-- encoder is the one for them.
pub record IsCounted (i : Peers) (nbrs : List ℕ) : Type 0 where
  pub counts : Counts i (tally classic_version i.peers nbrs) (tally wide_version i.peers nbrs)
  pub few : length nbrs + 1 < 65536

-- The neighbor that a change leaves, and the weight of a change.
abbrev changed : Peer → NbrState → Peer
changed q state = record q { state = state }

weight_lem :
    (i j : Peers) (nbrs : List ℕ) (p : ℕ) (q r : Peer)
    → Once p nbrs
    → i.peers p ≡ some q
    → j.peers ≡ write i.peers p (some r)
    → (v : ℕ)
    → tally v i.peers nbrs + counted v (some r) - counted v (some q) ≡ tally v j.peers nbrs
weight_lem i j nbrs p q r once ep ej v =
    rw ej (omega (arith, tally-write v i.peers p (some r) nbrs once, ap (counted v) ep))

Counts-cast : (i : Peers) (a b c d : ℕ) → Counts i a b → a ≡ c → b ≡ d → Counts i c d
Counts-cast i a b c d h e f = record {
  one = h.one ∙ e;
  two = h.two ∙ f;
  chosen = h.chosen ∙ λ k. selected (e k) (f k);
}

moved-Counts :
    (i j : Peers) (nbrs : List ℕ) (p : ℕ) (q r : Peer)
    → Once p nbrs
    → i.peers p ≡ some q
    → j.peers ≡ write i.peers p (some r)
    → Counts j
        (tally classic_version i.peers nbrs
          + counted classic_version (some r)
          - counted classic_version (some q))
        (tally wide_version i.peers nbrs
          + counted wide_version (some r)
          - counted wide_version (some q))
    → Counts j (tally classic_version j.peers nbrs) (tally wide_version j.peers nbrs)
moved-Counts i j nbrs p q r once ep ej h =
    let weight : (v : ℕ)
        → tally v i.peers nbrs + counted v (some r) - counted v (some q) ≡ tally v j.peers nbrs =
      weight_lem i j nbrs p q r once ep ej in
    record {
      one = h.one ∙ weight classic_version;
      two = h.two ∙ weight wide_version;
      chosen = h.chosen ∙ λ k. selected (weight classic_version k) (weight wide_version k);
    }

-- The counters do not read the neighbors.
under_peers :
    (i : Peers) (f : ℕ → Option Peer) (a b : ℕ) → Counts i a b → Counts (record i { peers = f }) a b
under_peers i f a b h = record { one = h.one; two = h.two; chosen = h.chosen }

-- The counters after a change.
state_set-Counts :
    (i : Peers) (nbrs : List ℕ) (p : ℕ) (q : Peer) (state : NbrState)
    → Once p nbrs
    → i.peers p ≡ some q
    → IsCounted i nbrs
    → (j : Peers) × (state_set p state i ≡ some j)
      × (j.peers ≡ write i.peers p (some (changed q state)))
      × Counts j
          (tally classic_version i.peers nbrs
            + counted classic_version (some (changed q state))
            - counted classic_version (some q))
          (tally wide_version i.peers nbrs
            + counted wide_version (some (changed q state))
            - counted wide_version (some q))
unfolding state_set
state_set-Counts i nbrs p q state once ep h =
    let a = tally classic_version i.peers nbrs in
    let b = tally wide_version i.peers nbrs in
    let stored = record i { peers = write i.peers p (some (changed q state)) } in
    let ones : counted classic_version (some q) ≤ a =
      subst (λ o. counted classic_version o ≤ a) ep
        (counted_le_tally classic_version i.peers p nbrs once) in
    let twos : counted wide_version (some q) ≤ b =
      subst (λ o. counted wide_version o ≤ b) ep
        (counted_le_tally wide_version i.peers p nbrs once) in
    elim (Bool-cases (is_up q.state)) [
      | inl was ↦ elim (Bool-cases (is_up state)) [
        | inl is ↦ (
          stored,
          rw (ep, was, is) refl,
          refl,
          Counts-cast stored a b _ _ (under_peers i _ a b h.counts) (ground (arith, was, is))
              (ground (arith, was, is)),
        )
        | inr not_now ↦ (
          record (encoder_unbind q.tlv_version i) {
            peers = write (encoder_unbind q.tlv_version i).peers p (some (changed q state));
          },
          rw (ep, was, not_now) refl,
          ap (λ f. write f p (some (changed q state))) (peers-unbind q.tlv_version i),
          under_peers _ _ _ _ (
              unbind-Counts q.tlv_version i _ _ (
                Counts-cast i a b _ _ h.counts (ground (arith, was, not_now, ones))
                  (ground (arith, was, not_now, twos)))),
        )
      ]
      | inr was_not ↦ elim (Bool-cases (is_up state)) [
        | inl is ↦ (
          encoder_bind q.tlv_version stored,
          rw (ep, was_not, is) refl,
          peers-bind q.tlv_version stored,
          Counts-cast _ _ _ _ _
              (bind-Counts q.tlv_version stored a b
                (omega (arith, h.few, tally_le classic_version i.peers nbrs))
                (omega (arith, h.few, tally_le wide_version i.peers nbrs))
                (under_peers i _ a b h.counts))
              (ground (arith, was_not, is)) (ground (arith, was_not, is)),
        )
        | inr not_now ↦ (
          stored,
          rw (ep, was_not, not_now) refl,
          refl,
          Counts-cast stored a b _ _ (under_peers i _ a b h.counts)
              (ground (arith, was_not, not_now)) (ground (arith, was_not, not_now)),
        )
      ]
    ]

-- eigrp_nbr_state_set on a neighbor of the interface, to any state, keeps the invariant: each
-- counter is the number of neighbors that are up with its version, and the encoder is the one for
-- them, which is the safe one where there are none. The interface has fewer than 65535 neighbors,
-- each once.
pub state_set-IsCounted :
    (i : Peers) (nbrs : List ℕ) (p : ℕ) (q : Peer) (state : NbrState)
    → Once p nbrs
    → i.peers p ≡ some q
    → IsCounted i nbrs
    → (j : Peers) × (state_set p state i ≡ some j)
      × (j.peers ≡ write i.peers p (some (changed q state)))
      × IsCounted j nbrs
state_set-IsCounted i nbrs p q state once ep h =
    let (j, ran, ej, hj) = state_set-Counts i nbrs p q state once ep h in
    (
      j,
      ran,
      ej,
      record { counts = moved-Counts i j nbrs p q (changed q state) once ep ej hj; few = h.few },
    )
