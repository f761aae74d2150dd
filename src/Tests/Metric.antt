-- ===== src/Tests/Metric.antt =====
-- The metric of eigrpd/eigrp_metric.c at concrete values.
use eigrpd.Base.{◌+◌, ◌-◌, u32, ℕ, ◌≡◌, refl, ◌↔◌, none, some, arith, ◌≤◌, ◌<◌, ◌≢◌}
use eigrpd.Metric.{
  Metrics, KValues, bandwidth_to_scaled, scaled_to_bandwidth, delay_to_scaled, scaled_to_delay,
  calculate_metrics, metric_max, max_metric, IntfParams, calculate_total_metrics,
}
use eigrpd.Metric.Scaling.{
  scaled_to_delay-delay_to_scaled, bandwidth_to_scaled-antitone,
  scaled_to_bandwidth-bandwidth_to_scaled,
}
use eigrpd.Metric.Composite.{
  IsKValues, IsClassic, ideal_sum, calculate_metrics-none, calculate_metrics-ideal_sum,
  calculate_metrics_mono,
}
use eigrpd.Metric.Total.{
  default_k, IsFastest, total_metric-IsFastest, calculate_total_metrics_lt,
  calculate_metrics_unreachable,
}
use eigrpd.Tests.Scenario.{near, far}

abbrev absent : ℕ
absent = 0

abbrev fast : ℕ
fast = 100000

abbrev k : KValues
k = record { k1 = 1; k2 = 1; k3 = 1; k4 = 0; k5 = 0 }

k-IsKValues : IsKValues k
k-IsKValues = record { k1_byte = omega arith; k2_byte = omega arith; k3_byte = omega arith }

near-IsClassic : IsClassic near
near-IsClassic = record {
  delay_word = omega arith;
  bandwidth_word = omega arith;
  load_byte = omega arith;
}

far-IsClassic : IsClassic far
far-IsClassic = record {
  delay_word = omega arith;
  bandwidth_word = omega arith;
  load_byte = omega arith;
}

distance_near : calculate_metrics k near ≡ some 28260
unfolding calculate_metrics
distance_near = refl

scaled_to_delay-delay_to_scaled_example :
    (scaled_to_delay (delay_to_scaled 10) ≡ 10) ↔ ((1 ≤ 10) × (10 < 16777216))
scaled_to_delay-delay_to_scaled_example = scaled_to_delay-delay_to_scaled 10 (omega arith)

bandwidth_to_scaled-antitone_example :
    (s : ℕ) × (t : ℕ) × (bandwidth_to_scaled 10000 ≡ some s)
    × (bandwidth_to_scaled 100000 ≡ some t)
    × (1 ≤ t)
    × (t ≤ s)
    × (s ≤ 2560000000)
bandwidth_to_scaled-antitone_example =
    bandwidth_to_scaled-antitone 10000 100000 (omega arith) (omega arith) (omega arith)

scaled_to_bandwidth-bandwidth_to_scaled_example :
    (s : ℕ) × (bandwidth_to_scaled fast ≡ some s)
    × ((scaled_to_bandwidth s ≡ fast) ↔ (fast ≡ 2560000000))
scaled_to_bandwidth-bandwidth_to_scaled_example =
    scaled_to_bandwidth-bandwidth_to_scaled fast (omega arith) (omega arith)

calculate_metrics-none_example :
    (calculate_metrics k near ≡ none)
    ↔ ((near.delay ≢ metric_max) × (k.k5 ≢ 0) × (near.reliability ≡ 0))
calculate_metrics-none_example = calculate_metrics-none k near

calculate_metrics-ideal_sum_example : calculate_metrics k near ≡ some (ideal_sum k near)
calculate_metrics-ideal_sum_example =
    calculate_metrics-ideal_sum k near k-IsKValues near-IsClassic refl refl

calculate_metrics_mono_example :
    (c : ℕ) × (d : ℕ) × (calculate_metrics k near ≡ some c)
    × (calculate_metrics k far ≡ some d)
    × (c ≤ d)
calculate_metrics_mono_example =
    calculate_metrics_mono k near far k-IsKValues near-IsClassic far-IsClassic refl refl
      (omega arith) (omega arith) (omega arith)

abbrev link : IntfParams
link = record { bandwidth = 10000000; delay = 1 }

abbrev slow : Metrics
slow = record near { bandwidth = 2560000 }

abbrev gone : Metrics
gone = record near { delay = max_metric }

link_scaled : bandwidth_to_scaled link.bandwidth ≡ some 256
unfolding bandwidth_to_scaled
link_scaled = refl

slow_scaled : bandwidth_to_scaled 1000 ≡ some slow.bandwidth
unfolding bandwidth_to_scaled
slow_scaled = refl

slow-IsClassic : IsClassic slow
slow-IsClassic = record {
  delay_word = omega arith;
  bandwidth_word = omega arith;
  load_byte = omega arith;
}

link_delay : slow.delay + delay_to_scaled link.delay < 4294967296
unfolding delay_to_scaled
link_delay = omega arith

total_metric-IsFastest_example : IsFastest link slow 1000
total_metric-IsFastest_example =
    total_metric-IsFastest link slow 1000 (omega arith) (omega arith) (omega arith) (omega arith)
      (omega arith) slow_scaled

calculate_total_metrics_lt_example :
    (t : Metrics) × (d : ℕ) × (rd : ℕ) × (calculate_total_metrics default_k link slow ≡ some (t, d))
    × (calculate_metrics default_k slow ≡ some rd)
    × ((d < rd) ↔ (256 + delay_to_scaled link.delay < slow.bandwidth))
calculate_total_metrics_lt_example =
    calculate_total_metrics_lt link slow 256 link_scaled slow-IsClassic link_delay

calculate_metrics_unreachable_example :
    (d : ℕ) × (calculate_metrics default_k gone ≡ some d) × (u32 d ≡ gone.bandwidth - 1)
calculate_metrics_unreachable_example =
    calculate_metrics_unreachable gone refl (omega arith) (omega arith)
