-- ===== src/Metric/Composite.antt =====
-- The composite distance: eigrp_calculate_metrics and eigrp_metrics_is_same of
-- eigrpd/eigrp_metric.c.
use eigrpd.Base.{ℕ, ◌+◌, ◌-◌, ◌*◌, ◌/◌, ◌≤◌, ◌<◌, ◌≡◌, ◌≢◌, ◌↔◌, true, none, some, arith}
use native.Mathlib.Nat.{div-le_self, zero-div, le-div_iff_mul-le, div-mul-le_self, le_trans}
use eigrpd.Metric.{metric_max, Metrics, KValues, calculate_metrics, weighted_sum, metrics_is_same}

-- The composite is undefined exactly when the code divides K5 by a reliability of 0.
pub calculate_metrics-none :
    (k : KValues) (m : Metrics)
    → (calculate_metrics k m ≡ none) ↔ ((m.delay ≢ metric_max) × (k.k5 ≢ 0) × (m.reliability ≡ 0))
unfolding calculate_metrics
calculate_metrics-none k m = ground arith

-- K-values are bytes.
pub record IsKValues (k : KValues) : Type 0 where
  pub k1_byte : k.k1 < 256
  pub k2_byte : k.k2 < 256
  pub k3_byte : k.k3 < 256

-- Bandwidth and delay that fit in 32 bits, and a load that is a byte.
pub record IsClassic (m : Metrics) : Type 0 where
  pub delay_word : m.delay < 4294967296
  pub bandwidth_word : m.bandwidth < 4294967296
  pub load_byte : m.load < 256

mul-word-le : (k x : ℕ) → k < 256 → x < 4294967296 → k * x ≤ 1095216660225
mul-word-le k x p q = grind arith

mul-zero_of : (k x : ℕ) → k ≡ 0 → k * x ≡ 0
mul-zero_of k x e = grind arith

zero-div_of : (n d : ℕ) → n ≡ 0 → n / d ≡ 0
zero-div_of n d e = rw e (zero-div d)

-- The composite of the formula, over unbounded numbers, where K4 and K5 are 0.
abbrev pub ideal_sum : KValues → Metrics → ℕ
ideal_sum k m = k.k1 * m.bandwidth + k.k2 * m.bandwidth / (256 - m.load) + k.k3 * m.delay

-- No step wraps: the sum is that of the formula.
weighted_sum-eq :
    (k : KValues) (m : Metrics) → IsKValues k → IsClassic m → weighted_sum k m ≡ ideal_sum k m
unfolding weighted_sum
weighted_sum-eq k m p q = ground (
  arith,
  mul-word-le k.k1 m.bandwidth,
  mul-word-le k.k2 m.bandwidth,
  mul-word-le k.k3 m.delay,
  mul-zero_of k.k1 m.bandwidth,
  mul-zero_of k.k2 m.bandwidth,
  mul-zero_of k.k3 m.delay,
  zero-div_of (k.k2 * m.bandwidth) (256 - m.load),
  div-le_self (k.k2 * m.bandwidth) (256 - m.load),
)

-- With K4 and K5 at 0, and a metric whose bandwidth and delay fit in 32 bits, nothing wraps: the
-- distance is K1 * bandwidth + K2 * bandwidth / (256 - load) + K3 * delay.
pub calculate_metrics-ideal_sum :
    (k : KValues) (m : Metrics)
    → IsKValues k
    → IsClassic m
    → k.k4 ≡ 0
    → k.k5 ≡ 0
    → calculate_metrics k m ≡ some (ideal_sum k m)
unfolding calculate_metrics
calculate_metrics-ideal_sum k m p q e f = ground (
  arith,
  weighted_sum-eq k m p q,
  mul-word-le k.k1 m.bandwidth,
  mul-word-le k.k2 m.bandwidth,
  mul-word-le k.k3 m.delay,
  div-le_self (k.k2 * m.bandwidth) (256 - m.load),
)

div_mono : (a b d e : ℕ) → a ≤ b → e ≤ d → 1 ≤ e → a / d ≤ b / e
div_mono a b d e p q r = (le-div_iff_mul-le r).1 (le_trans step (le_trans (div-mul-le_self a d) p))
  where
    step : a / d * e ≤ a / d * d
    step = grind arith

ideal_sum_mono :
    (k : KValues) (m n : Metrics)
    → n.load < 256
    → m.bandwidth ≤ n.bandwidth
    → m.delay ≤ n.delay
    → m.load ≤ n.load
    → ideal_sum k m ≤ ideal_sum k n
ideal_sum_mono k m n h p q r = omega (
  arith,
  scale k.k1 m.bandwidth n.bandwidth p,
  div_mono (k.k2 * m.bandwidth) (k.k2 * n.bandwidth) (256 - m.load) (256 - n.load)
      (scale k.k2 m.bandwidth n.bandwidth p) (omega arith) (omega arith),
  scale k.k3 m.delay n.delay q,
)
  where
    scale : (c x y : ℕ) → x ≤ y → c * x ≤ c * y
    scale c x y l = grind arith

-- A metric that is worse in bandwidth, delay and load has no smaller distance, where K4 and K5
-- are 0 and both metrics fit in 32 bits.
pub calculate_metrics_mono :
    (k : KValues) (m n : Metrics)
    → IsKValues k
    → IsClassic m
    → IsClassic n
    → k.k4 ≡ 0
    → k.k5 ≡ 0
    → m.bandwidth ≤ n.bandwidth
    → m.delay ≤ n.delay
    → m.load ≤ n.load
    → (c : ℕ) × (d : ℕ) × (calculate_metrics k m ≡ some c)
      × (calculate_metrics k n ≡ some d)
      × (c ≤ d)
calculate_metrics_mono k m n p q r e f bw dl ld = (
  ideal_sum k m,
  ideal_sum k n,
  calculate_metrics-ideal_sum k m p q e f,
  calculate_metrics-ideal_sum k n p r e f,
  ideal_sum_mono k m n r.load_byte bw dl ld,
)

-- eigrp_metrics_is_same compares every field but the tag and the flags.
pub metrics_is_same_iff :
    (m n : Metrics) → (metrics_is_same m n ≡ true) ↔ (record m { tag = n.tag; flags = n.flags } ≡ n)
unfolding metrics_is_same
metrics_is_same_iff m n = ground arith
