-- ===== src/Metric/Scaling.antt =====
-- Scaling of delays and bandwidths: eigrp_delay_to_scaled, eigrp_scaled_to_delay,
-- eigrp_bandwidth_to_scaled and eigrp_scaled_to_bandwidth of eigrpd/eigrp_metric.c.
use eigrpd.Base.{
  ℕ, ◌-◌, ◌*◌, ◌/◌, ◌%◌, ◌≤◌, ◌<◌, ◌≡◌, refl, ◌↔◌, none, some, arith, ltb, ◌==◌, if◌then◌else◌,
}
use native.Mathlib.Nat.{div-le_self, le-div_iff_mul-le, div-mul-le_self, le_trans}
use eigrpd.Metric.{
  bandwidth_max, bandwidth_to_scaled, scaled_to_bandwidth, delay_to_scaled, scaled_to_delay,
}

-- A delay survives the scaling to classic units and back exactly when it is nonzero and
-- below 2 ^ 24: the scaled form is 32 bits wide and 256 times as large.
pub scaled_to_delay-delay_to_scaled :
    (d : ℕ)
    → d < 18446744073709551616
    → (scaled_to_delay (delay_to_scaled d) ≡ d) ↔ ((1 ≤ d) × (d < 16777216))
unfolding scaled_to_delay delay_to_scaled
scaled_to_delay-delay_to_scaled d h = (λ e. ground arith, λ e. ground arith)

-- The other way round, scaling rounds down to a multiple of 256, and the values below 512 all
-- become 256.
pub delay_to_scaled-scaled_to_delay :
    (s : ℕ)
    → s < 4294967296
    → delay_to_scaled (scaled_to_delay s) ≡ (if ltb s 512 then 256 else s - s % 256)
unfolding scaled_to_delay delay_to_scaled
delay_to_scaled-scaled_to_delay s h = ground arith

inverse-le : (b : ℕ) → 2560000000 / b ≤ 2560000000
inverse-le b = div-le_self 2560000000 b

inverse-antitone : (b c : ℕ) → 1 ≤ b → b ≤ c → 2560000000 / c ≤ 2560000000 / b
inverse-antitone b c p q =
    (le-div_iff_mul-le p).1 (le_trans (mul-le-mul_left' q) (div-mul-le_self 2560000000 c))
  where
    mul-le-mul_left' : b ≤ c → 2560000000 / c * b ≤ 2560000000 / c * c
    mul-le-mul_left' h = grind arith

-- The scaled bandwidth is the inverse 2560000000 / b, raised to 1.
bandwidth_to_scaled-some :
    (b : ℕ)
    → 1 ≤ b
    → b < bandwidth_max
    → bandwidth_to_scaled b ≡ some (if 2560000000 / b == 0 then 1 else 2560000000 / b)
unfolding bandwidth_to_scaled
bandwidth_to_scaled-some b p h = ground (arith, inverse-le b)

-- Bandwidth 0 faults, by a division by zero, and no other does.
pub bandwidth_to_scaled-none : (b : ℕ) → (bandwidth_to_scaled b ≡ none) ↔ (b ≡ 0)
unfolding bandwidth_to_scaled
bandwidth_to_scaled-none b = ground arith

-- A faster link has no larger scaled bandwidth than a slower one, and the scaled values of the
-- nonzero bandwidths below the sentinel lie between 1 and 2560000000.
pub bandwidth_to_scaled-antitone :
    (b c : ℕ)
    → 1 ≤ b
    → b ≤ c
    → c < bandwidth_max
    → (s : ℕ) × (t : ℕ) × (bandwidth_to_scaled b ≡ some s)
      × (bandwidth_to_scaled c ≡ some t)
      × (1 ≤ t)
      × (t ≤ s)
      × (s ≤ 2560000000)
bandwidth_to_scaled-antitone b c p q h = (
  _,
  _,
  bandwidth_to_scaled-some b p (omega arith),
  bandwidth_to_scaled-some c (omega arith) h,
  ground arith,
  ground (arith, inverse-antitone b c),
  ground (arith, inverse-le b),
)

scaled_to_bandwidth-eq : (s : ℕ) → 1 ≤ s → s ≤ 2560000000 → scaled_to_bandwidth s ≡ s * 2560000000
unfolding scaled_to_bandwidth
scaled_to_bandwidth-eq s p h = ground arith

-- eigrp_scaled_to_bandwidth multiplies where the inverse of eigrp_bandwidth_to_scaled divides: of
-- the nonzero bandwidths below the sentinel, it gives back 2560000000 and no other.
pub scaled_to_bandwidth-bandwidth_to_scaled :
    (b : ℕ)
    → 1 ≤ b
    → b < bandwidth_max
    → (s : ℕ) × (bandwidth_to_scaled b ≡ some s) × ((scaled_to_bandwidth s ≡ b) ↔ (b ≡ 2560000000))
scaled_to_bandwidth-bandwidth_to_scaled b p h = (
  v,
  bandwidth_to_scaled-some b p h,
  (
    λ e. ground (arith, e, exact, inverse-antitone 2560000000 b),
    λ e. ground (arith, e, exact, at_one e),
  ),
)
  where
    v : ℕ
    v = if 2560000000 / b == 0 then 1 else 2560000000 / b

    exact : scaled_to_bandwidth v ≡ v * 2560000000
    exact = scaled_to_bandwidth-eq v (ground arith) (ground (arith, inverse-le b))

    at_one : b ≡ 2560000000 → 2560000000 / b ≡ 1
    at_one e = rw e refl
