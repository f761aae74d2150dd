-- ===== src/Tlv2/Parts.antt =====
-- The parts of a TLV of wide metrics.
use eigrpd.Base.{ℕ, zero, suc, ◌+◌, ◌*◌, ◌/◌, Option, none, some, [], ◌∷◌, ◌==◌, if◌then◌else◌, u8}
use eigrpd.Metric.{Metrics, max_metric}
use eigrpd.State.{ExtData}
use eigrpd.Stream.{S, pure, ◌>>=◌, ◌>>◌, StreamLib, has, get_bytes, put_bytes}
use eigrpd.Tlv2.{metric_size, extdata_size, inaccessible}

-- The marks of an unreachable destination: the daemon's and the wire's.
abbrev pub reachable : ℕ → ℕ
reachable n = if n == inaccessible then max_metric else n

abbrev pub unreachable : ℕ → ℕ
unreachable n = if n == max_metric then inaccessible else n

module _ ⦃sl : StreamLib⦄ where
  -- eigrp_tlv2_get48: the bytes are below 256, so that the `or` is a sum.
  unfoldable pub get48_from : ℕ → ℕ → S ℕ
  get48_from zero value = pure value
  get48_from (suc n) value = do c ← sl.getc; get48_from n (value * 256 + c)

  unfoldable pub get48 : S ℕ
  get48 = get48_from 6 0

  -- eigrp_tlv2_put48
  unfoldable pub put48 : ℕ → S (Unit {0})
  put48 value = put_bytes (
      value / 1099511627776
      ∷ value / 4294967296
      ∷ value / 16777216
      ∷ value / 65536
      ∷ value / 256
      ∷ value
      ∷ [])

  -- The extended attributes are passed over.
  unfoldable pub skip_attributes : ℕ → Metrics → S (Option (Metrics × ℕ))
  skip_attributes attr_len m = do
    ok ← has attr_len
    (if ok
        then (get_bytes attr_len >>= λ _. pure (some (m, metric_size + attr_len)))
        else pure none)

  unfoldable pub metric_fields : S (Option (Metrics × ℕ))
  metric_fields = do
    attr_words ← sl.getc
    tag ← sl.getc
    reliability ← sl.getc
    load ← sl.getc
    mtu2 ← sl.getc
    mtu1 ← sl.getc
    mtu0 ← sl.getc
    hop_count ← sl.getc
    delay ← get48
    bandwidth ← get48
    reserved ← sl.getw
    opaque ← sl.getw
    skip_attributes (attr_words * 2) (record {
      delay = reachable delay;
      bandwidth = reachable bandwidth;
      mtu0 = mtu0;
      mtu1 = mtu1;
      mtu2 = mtu2;
      hop_count = hop_count;
      reliability = reliability;
      load = load;
      tag = tag;
      flags = u8 opaque;
    })

  -- eigrp_tlv2_metric_decode
  unfoldable pub metric_decode : S (Option (Metrics × ℕ))
  metric_decode = do ok ← has metric_size; (if ok then metric_fields else pure none)

  -- eigrp_tlv2_metric_encode
  unfoldable pub metric_encode : Metrics → S (Unit {0})
  metric_encode m = do
    sl.putc 0
    sl.putc m.tag
    sl.putc m.reliability
    sl.putc m.load
    sl.putc m.mtu2
    sl.putc m.mtu1
    sl.putc m.mtu0
    sl.putc m.hop_count
    put48 (unreachable m.delay)
    put48 (unreachable m.bandwidth)
    sl.putw 0
    sl.putw m.flags
    pure tt

  unfoldable pub external_fields : ExtData → S (Option (ExtData × ℕ))
  external_fields e = do
    orig ← sl.getl
    as_number ← sl.getl
    metric ← sl.getl
    reserved ← sl.getw
    protocol ← sl.getc
    flags ← sl.getc
    let d = record e {
      orig = orig;
      as_number = as_number;
      metric = metric;
      reserved = reserved;
      protocol = protocol;
      flags = flags;
    }
    pure (some (d, extdata_size))

  -- eigrp_tlv2_external_decode
  unfoldable pub external_decode : ExtData → S (Option (ExtData × ℕ))
  external_decode e = do ok ← has extdata_size; (if ok then external_fields e else pure none)

  -- eigrp_tlv2_external_encode
  unfoldable pub external_encode : ℕ → ExtData → S (Unit {0})
  external_encode router_id e = do
    sl.putl (if e.orig == 0 then router_id else e.orig)
    sl.putl e.as_number
    sl.putl e.metric
    sl.putw e.reserved
    sl.putc e.protocol
    sl.putc e.flags
    pure tt
