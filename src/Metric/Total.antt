-- ===== src/Metric/Total.antt =====
-- The metric of a whole path, eigrp_calculate_total_metrics of eigrpd/eigrp_metric.c.
use eigrpd.Base.{
  ℕ, ◌+◌, ◌-◌, ◌≤◌, ◌<◌, ◌≡◌, refl, ap, ◌∙◌, ◌↔◌, inl, inr, true, false, some, arith, Bool-cases,
  ltb→lt, ltb, if◌then◌else◌, u32,
}
use eigrpd.Metric.{
  bandwidth_max, max_metric, Metrics, KValues, IntfParams, bandwidth_to_scaled, delay_to_scaled,
  calculate_metrics, total_metric, calculate_total_metrics,
}
use eigrpd.Metric.Scaling.{bandwidth_to_scaled-antitone}
use eigrpd.Metric.Composite.{IsKValues, IsClassic, calculate_metrics-ideal_sum, ideal_sum}

-- The K-values of eigrp_const.h: bandwidth and delay count, and nothing else does.
abbrev pub default_k : KValues
default_k = record { k1 = 1; k2 = 0; k3 = 1; k4 = 0; k5 = 0 }

default_k-IsKValues : IsKValues default_k
default_k-IsKValues = record { k1_byte = omega arith; k2_byte = omega arith; k3_byte = omega arith }

delay_to_scaled-lt : (d : ℕ) → delay_to_scaled d < 4294967296
unfolding delay_to_scaled
delay_to_scaled-lt d = ground arith

-- The vector, with the scaled bandwidth of the link at hand.
total_metric-some :
    (params : IntfParams) (m : Metrics) (bw : ℕ)
    → bandwidth_to_scaled params.bandwidth ≡ some bw
    → m.delay < 9223372036854775808
    → total_metric params m
      ≡ some (record m {
        delay = m.delay + delay_to_scaled params.delay;
        bandwidth = if ltb bw m.bandwidth then bw else m.bandwidth;
      })
unfolding total_metric
total_metric-some params m bw e h = rw e (ground (arith, delay_to_scaled-lt params.delay))

abbrev Scaled : ℕ → ℕ → Type 0
Scaled b c =
    (x : ℕ) × (y : ℕ) × (bandwidth_to_scaled b ≡ some x)
    × (bandwidth_to_scaled c ≡ some y)
    × (1 ≤ y)
    × (y ≤ x)
    × (x ≤ 2560000000)

-- The neighbor's delay and the link's are added, and the bandwidth is that of the faster of two.
abbrev pub IsFastest : IntfParams → Metrics → ℕ → Type 0
IsFastest params m b =
    (t : Metrics) × (total_metric params m ≡ some t)
    × (t.delay ≡ m.delay + delay_to_scaled params.delay)
    × (bandwidth_to_scaled (if ltb params.bandwidth b then b else params.bandwidth)
        ≡ some t.bandwidth)

-- The path's delay is the sum of the neighbor's and the link's, and its bandwidth is that of the
-- faster of the two: where the neighbor's is scaled from b and the link has bandwidth c, it is
-- scaled from b if c is less, and from c if not. Both are nonzero and below the sentinel, and the
-- neighbor's delay is below 2 ^ 63.
pub total_metric-IsFastest :
    (params : IntfParams) (m : Metrics) (b : ℕ)
    → 1 ≤ b
    → b < bandwidth_max
    → 1 ≤ params.bandwidth
    → params.bandwidth < bandwidth_max
    → m.delay < 9223372036854775808
    → bandwidth_to_scaled b ≡ some m.bandwidth
    → IsFastest params m b
total_metric-IsFastest params m b p q r s h e = elim (Bool-cases (ltb c b)) [
  | inl less ↦ slower less (bandwidth_to_scaled-antitone c b r (omega (arith, ltb→lt c b less)) q)
  | inr more ↦ faster more (bandwidth_to_scaled-antitone b c p (ground (arith, more)) s)
]
  where
    c : ℕ
    c = params.bandwidth

    slower : ltb c b ≡ true → Scaled c b → IsFastest params m b
    slower less (x, y, ex, ey, _, le, _) = (
      _,
      total_metric-some params m x ex h,
      refl,
      (rw less (ey ∙ ap some (ground (arith, e, ey, le)))),
    )

    faster : ltb c b ≡ false → Scaled b c → IsFastest params m b
    faster more (x, y, ex, ey, _, le, _) = (
      _,
      total_metric-some params m y ey h,
      refl,
      (rw more (ey ∙ ap some (ground (arith, e, ex, le)))),
    )

-- With the default K-values, a metric that fits in 32 bits and whose delay leaves room for the
-- link's: the distance through the link is below the neighbor's own distance exactly when the link
-- is so fast that its scaled bandwidth and delay sum to less than the neighbor's bandwidth.
pub calculate_total_metrics_lt :
    (params : IntfParams) (m : Metrics) (bw : ℕ)
    → bandwidth_to_scaled params.bandwidth ≡ some bw
    → IsClassic m
    → m.delay + delay_to_scaled params.delay < 4294967296
    → (t : Metrics) × (d : ℕ) × (rd : ℕ) × (calculate_total_metrics default_k params m
        ≡ some (t, d))
      × (calculate_metrics default_k m ≡ some rd)
      × ((d < rd) ↔ (bw + delay_to_scaled params.delay < m.bandwidth))
unfolding calculate_total_metrics
calculate_total_metrics_lt params m bw e c h = (
  t,
  ideal_sum default_k t,
  ideal_sum default_k m,
  (rw
      (
        total_metric-some params m bw e (ground (arith, h)),
        calculate_metrics-ideal_sum default_k t default_k-IsKValues t-IsClassic refl refl,
      )
      refl),
  calculate_metrics-ideal_sum default_k m default_k-IsKValues c refl refl,
  (ground arith, ground arith),
)
  where
    t : Metrics
    t = record m {
      delay = m.delay + delay_to_scaled params.delay;
      bandwidth = if ltb bw m.bandwidth then bw else m.bandwidth;
    }

    t-IsClassic : IsClassic t
    t-IsClassic = record {
      delay_word = h;
      bandwidth_word = ground (arith, c.bandwidth_word);
      load_byte = c.load_byte;
    }

-- With the default K-values, a route whose delay is EIGRP_MAX_METRIC, and whose scaled bandwidth is
-- nonzero and fits in 32 bits, has a distance that is cut to 32 bits to the bandwidth less 1.
pub calculate_metrics_unreachable :
    (m : Metrics)
    → m.delay ≡ max_metric
    → 1 ≤ m.bandwidth
    → m.bandwidth < 4294967296
    → (d : ℕ) × (calculate_metrics default_k m ≡ some d) × (u32 d ≡ m.bandwidth - 1)
unfolding calculate_metrics
calculate_metrics_unreachable m e p h = (m.bandwidth + max_metric, ground arith, ground arith)
