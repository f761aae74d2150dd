-- ===== src/Peers/Counts.antt =====
-- The counters of an interface are the numbers of its neighbors that are up, by version.
use eigrpd.Base.{
  ℕ, ◌+◌, ◌-◌, ◌<◌, ◌≡◌, refl, ◌∙◌, inl, inr, true, false, ◌==◌, Bool-cases, if◌then◌else◌, u16,
  arith,
}
use eigrpd.Peers.{
  Peers, selected, classic_version, wide_version, encoder_select, encoder_bind, encoder_unbind,
}

-- The counters, and the encoder that fits them.
pub record Counts (i : Peers) (a b : ℕ) : Type 0 where
  pub one : i.tlv1_peer_count ≡ a
  pub two : i.tlv2_peer_count ≡ b
  pub chosen : i.encoder ≡ selected a b

abbrev pub one_if : ℕ → ℕ → ℕ
one_if v w = if v == w then 1 else 0

-- A version is at most one of the two.
not_wide : (v : ℕ) → (v == classic_version) ≡ true → (v == wide_version) ≡ false
not_wide v h = ground (arith, h)

-- The choice that follows a change of the counters.
chosen-Counts :
    (i : Peers) (a b : ℕ)
    → i.tlv1_peer_count ≡ a
    → i.tlv2_peer_count ≡ b
    → Counts (encoder_select i) a b
unfolding encoder_select
chosen-Counts i a b p q = record { one = p; two = q; chosen = λ k. selected (p k) (q k) }

kept-Counts : (i : Peers) (a b : ℕ) → Counts i a b → Counts i (a + 0) (b + 0)
kept-Counts i a b h = record {
  one = omega (arith, h.one);
  two = omega (arith, h.two);
  chosen = h.chosen ∙ λ k. selected (add_nothing a k) (add_nothing b k);
}
  where
    add_nothing : (n : ℕ) → n ≡ n + 0
    add_nothing n = omega arith

pub bind-Counts :
    (v : ℕ) (i : Peers) (a b : ℕ)
    → a + 1 < 65536
    → b + 1 < 65536
    → Counts i a b
    → Counts (encoder_bind v i) (a + one_if v classic_version) (b + one_if v wide_version)
unfolding encoder_bind
bind-Counts v i a b ha hb h = elim (Bool-cases (v == classic_version)) [
  | inl x ↦
      rw (x, not_wide v x)
        (chosen-Counts (record i { tlv1_peer_count = u16 (i.tlv1_peer_count + 1) }) (a + 1) (b + 0)
          (omega (arith, h.one)) (omega (arith, h.two)))
  | inr x ↦ elim (Bool-cases (v == wide_version)) [
    | inl y ↦
        rw (x, y)
          (chosen-Counts (record i { tlv2_peer_count = u16 (i.tlv2_peer_count + 1) }) (a + 0)
            (b + 1) (omega (arith, h.one)) (omega (arith, h.two)))
    | inr y ↦ rw (x, y) (kept-Counts i a b h)
  ]
]

-- What is taken off was counted.
pub unbind-Counts :
    (v : ℕ) (i : Peers) (a b : ℕ)
    → Counts i (a + one_if v classic_version) (b + one_if v wide_version)
    → Counts (encoder_unbind v i) a b
unfolding encoder_unbind
unbind-Counts v i a b h = elim (Bool-cases (v == classic_version)) [
  | inl x ↦
      (let other : (v == wide_version) ≡ false = not_wide v x in
        rw x (
          chosen-Counts (record i { tlv1_peer_count = i.tlv1_peer_count - 1 }) a b
            (ground (arith, h.one, x)) (ground (arith, h.two, other))))
  | inr x ↦ elim (Bool-cases (v == wide_version)) [
    | inl y ↦
        rw (x, y)
          (chosen-Counts (record i { tlv2_peer_count = i.tlv2_peer_count - 1 }) a b
            (ground (arith, h.one, x)) (ground (arith, h.two, y)))
    | inr y ↦
        (let one : a + one_if v classic_version ≡ a = ground (arith, x) in
          let two : b + one_if v wide_version ≡ b = ground (arith, y) in
          rw (x, y)
            (record {
              one = h.one ∙ one;
              two = h.two ∙ two;
              chosen = h.chosen ∙ λ k. selected (one k) (two k);
            }))
  ]
]

pub peers-bind : (v : ℕ) (i : Peers) → (encoder_bind v i).peers ≡ i.peers
unfolding encoder_bind encoder_select
peers-bind v i = elim (Bool-cases (v == classic_version)) [
  | inl x ↦ rw x refl
  | inr x ↦ elim (Bool-cases (v == wide_version)) [
    | inl y ↦ rw (x, y) refl
    | inr y ↦ rw (x, y) refl
  ]
]

pub peers-unbind : (v : ℕ) (i : Peers) → (encoder_unbind v i).peers ≡ i.peers
unfolding encoder_unbind encoder_select
peers-unbind v i = elim (Bool-cases (v == classic_version)) [
  | inl x ↦ rw x refl
  | inr x ↦ elim (Bool-cases (v == wide_version)) [
    | inl y ↦ rw (x, y) refl
    | inr y ↦ rw (x, y) refl
  ]
]
