-- ===== src/Metric.antt =====
-- eigrpd/eigrp_metric.c: vector metrics, their scaling, and the composite distance.
pub mod Scaling
pub mod Composite
pub mod Total
use eigrpd.Base.{
  ℕ, ◌+◌, ◌-◌, ◌*◌, ◌/◌, Bool, not, ◌&&◌, Option, some, ltb, leb, ◌==◌, if◌then◌else◌, ◌>>=?◌, u32,
  u64, div_int,
}

-- The constants of eigrp_metric.h and eigrp_const.h.
abbrev pub bandwidth_min : ℕ
bandwidth_min = 1

abbrev pub bandwidth_scaler : ℕ
bandwidth_scaler = 10000000

abbrev pub bandwidth_max : ℕ
bandwidth_max = 0xffffffffffffffff

abbrev pub delay_min : ℕ
delay_min = 1

abbrev pub metric_max : ℕ
metric_max = 0xffffffffffffffff

abbrev pub classic_max : ℕ
classic_max = 0xffffffff

abbrev pub classic_scaler : ℕ
classic_scaler = 256

-- EIGRP_MAX_METRIC: what the topology code writes for an unreachable route.
abbrev pub max_metric : ℕ
max_metric = 0xffffffff

-- `eigrp_metrics_t`: delay and bandwidth are 64 bits wide, all else is a byte.
pub record Metrics : Type 0 where
  pub delay : ℕ
  pub bandwidth : ℕ
  pub mtu0 : ℕ
  pub mtu1 : ℕ
  pub mtu2 : ℕ
  pub hop_count : ℕ
  pub reliability : ℕ
  pub load : ℕ
  pub tag : ℕ
  pub flags : ℕ

-- `k_values[0]` to `k_values[4]` of `eigrp_instance`, each a byte.
pub record KValues : Type 0 where
  pub k1 : ℕ
  pub k2 : ℕ
  pub k3 : ℕ
  pub k4 : ℕ
  pub k5 : ℕ

-- The fields of `eigrp_intf_params_t` that the metric reads, 32 bits each.
pub record IntfParams : Type 0 where
  pub bandwidth : ℕ
  pub delay : ℕ

-- The quotient, raised to the least bandwidth.
invert_bandwidth : ℕ → Option ℕ
invert_bandwidth bandwidth = div_int (classic_scaler * bandwidth_scaler) bandwidth >>=? λ scaled.
    some (if scaled == 0 then bandwidth_min else scaled)

unfoldable pub bandwidth_to_scaled : ℕ → Option ℕ
unfolding invert_bandwidth
bandwidth_to_scaled bandwidth =
    (if bandwidth == bandwidth_max then some bandwidth_max else invert_bandwidth bandwidth)
    >>=? λ scaled. some (u32 (if ltb scaled metric_max then scaled else metric_max))

pub scaled_to_bandwidth : ℕ → ℕ
scaled_to_bandwidth scaled =
    if scaled == classic_max
    then bandwidth_max
    else (let bandwidth = u64 (scaled * (classic_scaler * bandwidth_scaler)) in
        if ltb bandwidth metric_max then bandwidth else bandwidth_max)

unfoldable pub delay_to_scaled : ℕ → ℕ
delay_to_scaled delay = u32 (u64 ((if delay == 0 then delay_min else delay) * classic_scaler))

pub scaled_to_delay : ℕ → ℕ
scaled_to_delay scaled =
    let quotient = scaled / classic_scaler in if quotient == 0 then delay_min else quotient

-- The additive part: bandwidth, load and delay.
pub weighted_sum : KValues → Metrics → ℕ
weighted_sum k m =
    let a = if k.k1 == 0 then 0 else u64 (k.k1 * m.bandwidth) in
    let b = if k.k2 == 0 then a else u64 (a + u64 (k.k2 * m.bandwidth) / (256 - m.load)) in
    if k.k3 == 0 then b else u64 (b + u64 (k.k3 * m.delay))

-- The reliability factor: the three conditional products, of which at most one is made.
weigh_reliability : KValues → Metrics → ℕ → Option ℕ
weigh_reliability k m composite =
    if not (k.k4 == 0) && k.k5 == 0
    then some (u64 (composite * k.k4))
    else if k.k4 == 0 && not (k.k5 == 0)
    then (div_int k.k5 m.reliability >>=? λ q. some (u64 (composite * q)))
    else if not (k.k4 == 0) && not (k.k5 == 0)
    then (div_int k.k5 m.reliability >>=? λ q. some (u64 (composite * (q + k.k4))))
    else some composite

-- `eigrp_calculate_metrics`: the composite distance, 64 bits wide.
unfoldable pub calculate_metrics : KValues → Metrics → Option ℕ
unfolding weighted_sum weigh_reliability
calculate_metrics k m =
    if m.delay == metric_max
    then some metric_max
    else (weigh_reliability k m (weighted_sum k m) >>=? λ composite.
        some (if leb composite metric_max then composite else metric_max))

-- The vector part of `eigrp_calculate_total_metrics`: the neighbor's metric and the link's.
unfoldable pub total_metric : IntfParams → Metrics → Option Metrics
total_metric params reported = bandwidth_to_scaled params.bandwidth >>=? λ bw.
    let temp_delay = u64 (reported.delay + delay_to_scaled params.delay) in
    some (record reported {
      delay = if ltb metric_max temp_delay then metric_max else temp_delay;
      bandwidth = if ltb bw reported.bandwidth then bw else reported.bandwidth;
    })

-- `eigrp_calculate_total_metrics`: the vector that is stored in the route, and the distance.
unfoldable pub calculate_total_metrics : KValues → IntfParams → Metrics → Option (Metrics × ℕ)
calculate_total_metrics k params reported = total_metric params reported >>=? λ total.
    calculate_metrics k total >>=? λ distance. some (total, distance)

-- `eigrp_metrics_is_same`
unfoldable pub metrics_is_same : Metrics → Metrics → Bool
metrics_is_same m n =
    m.bandwidth == n.bandwidth
    && (m.delay == n.delay
        && (m.hop_count == n.hop_count
            && (m.load == n.load
                && (m.reliability == n.reliability
                    && (m.mtu0 == n.mtu0 && (m.mtu1 == n.mtu1 && m.mtu2 == n.mtu2))))))
