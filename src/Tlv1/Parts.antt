-- ===== src/Tlv1/Parts.antt =====
-- The parts of a TLV of classic metrics.
use eigrpd.Base.{ℕ, Option, none, some, if◌then◌else◌}
use eigrpd.Metric.{Metrics, delay_to_scaled, scaled_to_delay}
use eigrpd.State.{ExtData}
use eigrpd.Stream.{S, pure, ◌>>=◌, ◌>>◌, StreamLib, has}
use eigrpd.Tlv1.{nexthop_size, classic_metric_size, classic_extdata_size}

module _ ⦃sl : StreamLib⦄ where
  unfoldable pub external_fields : S (Option (ExtData × ℕ))
  external_fields = do
    orig ← sl.getl
    as_number ← sl.getl
    tag ← sl.getl
    metric ← sl.getl
    reserved ← sl.getw
    protocol ← sl.getc
    flags ← sl.getc
    let d : ExtData = record {
      orig = orig;
      as_number = as_number;
      tag = tag;
      metric = metric;
      reserved = reserved;
      protocol = protocol;
      flags = flags;
    }
    pure (some (d, classic_extdata_size))

  -- eigrp_tlv1_external_decode: every field of the route's external data is written.
  unfoldable pub external_decode : S (Option (ExtData × ℕ))
  external_decode = do ok ← has classic_extdata_size; (if ok then external_fields else pure none)

  -- eigrp_tlv1_external_encode
  unfoldable pub external_encode : ExtData → S (Unit {0})
  external_encode e = do
    sl.putl e.orig
    sl.putl e.as_number
    sl.putl e.tag
    sl.putl e.metric
    sl.putw e.reserved
    sl.putc e.protocol
    sl.putc e.flags
    pure tt

  unfoldable pub metric_fields : S (Option (Metrics × ℕ))
  metric_fields = do
    scaled ← sl.getl
    bandwidth ← sl.getl
    mtu2 ← sl.getc
    mtu1 ← sl.getc
    mtu0 ← sl.getc
    hop_count ← sl.getc
    reliability ← sl.getc
    load ← sl.getc
    tag ← sl.getc
    flags ← sl.getc
    let m : Metrics = record {
      delay = scaled_to_delay scaled;
      bandwidth = bandwidth;
      mtu0 = mtu0;
      mtu1 = mtu1;
      mtu2 = mtu2;
      hop_count = hop_count;
      reliability = reliability;
      load = load;
      tag = tag;
      flags = flags;
    }
    pure (some (m, classic_metric_size))

  -- eigrp_tlv1_metric_decode
  unfoldable pub metric_decode : S (Option (Metrics × ℕ))
  metric_decode = do ok ← has classic_metric_size; (if ok then metric_fields else pure none)

  -- eigrp_tlv1_metric_encode
  unfoldable pub metric_encode : Metrics → S (Unit {0})
  metric_encode m = do
    sl.putl (delay_to_scaled m.delay)
    sl.putl m.bandwidth
    sl.putc m.mtu2
    sl.putc m.mtu1
    sl.putc m.mtu0
    sl.putc m.hop_count
    sl.putc m.reliability
    sl.putc m.load
    sl.putc m.tag
    sl.putc m.flags
    pure tt

  -- eigrp_tlv1_nexthop_decode: the branch that reads the stream is never taken, and the route's
  -- nexthop becomes 0, which it is.
  unfoldable pub nexthop_decode : S ℕ
  nexthop_decode = do ok ← has nexthop_size; (if ok then pure nexthop_size else pure 0)

  -- eigrp_tlv1_nexthop_encode
  unfoldable pub nexthop_encode : ℕ → S (Unit {0})
  nexthop_encode nexthop = sl.putl nexthop
