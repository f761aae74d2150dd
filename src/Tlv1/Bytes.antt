-- ===== src/Tlv1/Bytes.antt =====
-- A TLV of classic metrics as bytes.
use eigrpd.Base.{
  ℕ, ◌+◌, ◌<◌, ◌≤◌, ◌≡◌, inl, inr, refl, Bool, true, false, some, List, [], ◌∷◌, ◌++◌, ◌==◌,
  if◌then◌else◌, length, u8, arith, Bool-cases,
}
use eigrpd.Metric.{Metrics, delay_to_scaled, scaled_to_delay}
use eigrpd.State.{ExtData, Dest}
use eigrpd.Stream.{pure, StreamLib, bytes_w, bytes_l}
use eigrpd.Stream.Reading.{Reads, Reads-pure, Reads-getc, Reads-getl, Reads-has, Reads-cast}
use eigrpd.Stream.Writing.{Puts, Puts-pure, Puts-putc, Puts-putw, Puts-putl, Puts-bind, Puts-cast}
use eigrpd.Tlv.{prefix_bytes}
use eigrpd.Tlv.Address.{
  u8_id, IsIpv4, dest_bytes, addr_encode-Puts, length-addr_bytes, prefix_bytes_le,
}
use eigrpd.Receive.{tlv_ipv4_ext}
use eigrpd.Tlv2.{tlv_ipv4_int}
use eigrpd.Tlv2.Bytes.{join_l}
use eigrpd.Tlv1.{classic_metric_size, classic_extdata_size}
use eigrpd.Tlv1.Parts.{external_encode, metric_fields, metric_decode, metric_encode, nexthop_encode}
use eigrpd.Tlv1.Codec.{put_tlv}

-- The one-byte fields of a metric are bytes.
pub record IsMetric (m : Metrics) : Type 0 where
  pub mtu0 : m.mtu0 < 256
  pub mtu1 : m.mtu1 < 256
  pub mtu2 : m.mtu2 < 256
  pub hop_count : m.hop_count < 256
  pub reliability : m.reliability < 256
  pub load : m.load < 256
  pub tag : m.tag < 256
  pub flags : m.flags < 256

abbrev pub classic_metric_bytes : Metrics → List ℕ
classic_metric_bytes m =
    bytes_l (delay_to_scaled m.delay)
    ++ bytes_l m.bandwidth
    ++ m.mtu2 ∷ m.mtu1 ∷ m.mtu0 ∷ m.hop_count ∷ m.reliability ∷ m.load ∷ m.tag ∷ m.flags ∷ []

abbrev pub classic_external_bytes : ExtData → List ℕ
classic_external_bytes e =
    bytes_l e.orig
    ++ bytes_l e.as_number
    ++ bytes_l e.tag
    ++ bytes_l e.metric
    ++ bytes_w e.reserved
    ++ u8 e.protocol ∷ u8 e.flags ∷ []

-- What a TLV says of a route.
pub record Told : Type 0 where
  pub external : Bool
  pub nexthop : ℕ
  pub metric : Metrics
  pub extdata : ExtData
  pub dest : Dest

abbrev pub classic_type : Bool → ℕ
classic_type x = if x then tlv_ipv4_ext else tlv_ipv4_int

abbrev pub classic_rest : Told → List ℕ
classic_rest c =
    bytes_l c.nexthop
    ++ ((if c.external then classic_external_bytes c.extdata else [])
        ++ (classic_metric_bytes c.metric ++ dest_bytes c.dest))

abbrev pub classic_bytes : ℕ → Told → List ℕ
classic_bytes len c = bytes_w (classic_type c.external) ++ bytes_w len ++ classic_rest c

abbrev pub classic_size : Told → ℕ
classic_size c =
    25 + (if c.external then classic_extdata_size else 0) + prefix_bytes c.dest.prefixlen

pub length-classic_bytes :
    (len : ℕ) (c : Told) → IsIpv4 c.dest → length (classic_bytes len c) ≡ classic_size c
length-classic_bytes len c h = elim (Bool-cases c.external) [
  | inl on ↦ rw on (omega (arith, length-addr_bytes c.dest h))
  | inr off ↦ rw off (omega (arith, length-addr_bytes c.dest h))
]

pub classic_size_le : (c : Told) → IsIpv4 c.dest → classic_size c ≤ 49
classic_size_le c h = ground (arith, prefix_bytes_le c.dest.prefixlen h.prefixlen)

scaled_lt : (d : ℕ) → delay_to_scaled d < 4294967296
unfolding delay_to_scaled
scaled_lt d = omega arith

module _ ⦃sl : StreamLib⦄ where
  pub metric_encode-Puts :
      (m : Metrics) → IsMetric m → Puts (metric_encode m) (classic_metric_bytes m) tt
  unfolding metric_encode
  metric_encode-Puts m h =
      Puts-cast _ _ _ _
        (Puts-putl _ _ _ _ (
          Puts-putl _ _ _ _ (
            Puts-putc _ _ _ _ (
              Puts-putc _ _ _ _ (
                Puts-putc _ _ _ _ (
                  Puts-putc _ _ _ _ (
                    Puts-putc _ _ _ _ (
                      Puts-putc _ _ _ _
                        (Puts-putc _ _ _ _ (Puts-putc _ _ _ _ (Puts-pure _)))))))))))
        (rw
          (
            u8_id m.mtu2 h.mtu2,
            u8_id m.mtu1 h.mtu1,
            u8_id m.mtu0 h.mtu0,
            u8_id m.hop_count h.hop_count,
            u8_id m.reliability h.reliability,
            u8_id m.load h.load,
            u8_id m.tag h.tag,
            u8_id m.flags h.flags,
          )
          refl)

  -- The metric's part by itself is read as it was written: the delay as far as it can be scaled.
  pub metric_decode-Reads :
      (m : Metrics)
      → m.bandwidth < 4294967296
      → Reads metric_decode (classic_metric_bytes m) (
          some
            (record m { delay = scaled_to_delay (delay_to_scaled m.delay) }, classic_metric_size))
  unfolding metric_decode metric_fields
  metric_decode-Reads m h = Reads-has _ classic_metric_size _ _ (omega arith) (
      Reads-cast _ _ _ _ _
        (Reads-getl _ _ _ _ _ _ _ (
          Reads-getl _ _ _ _ _ _ _ (
            Reads-getc _ _ _ _ (
              Reads-getc _ _ _ _ (
                Reads-getc _ _ _ _ (
                  Reads-getc _ _ _ _ (
                    Reads-getc _ _ _ _ (
                      Reads-getc _ _ _ _
                        (Reads-getc _ _ _ _ (Reads-getc _ _ _ _ (Reads-pure _)))))))))))
        refl (rw (join_l (delay_to_scaled m.delay) (scaled_lt m.delay), join_l m.bandwidth h) refl))

  external_encode-Puts : (e : ExtData) → Puts (external_encode e) (classic_external_bytes e) tt
  unfolding external_encode
  external_encode-Puts e = Puts-putl _ _ _ _ (
      Puts-putl _ _ _ _ (
        Puts-putl _ _ _ _ (
          Puts-putl _ _ _ _
            (Puts-putw _ _ _ _ (Puts-putc _ _ _ _ (Puts-putc _ _ _ _ (Puts-pure _)))))))

  external_part-Puts :
      (x : Bool) (e : ExtData)
      → Puts
          (if classic_type x == tlv_ipv4_ext then external_encode e else pure tt)
          (if x then classic_external_bytes e else [])
          tt
  external_part-Puts true e = external_encode-Puts e
  external_part-Puts false e = Puts-pure tt

  pub put_tlv-Puts :
      (c : Told)
      → IsMetric c.metric
      → IsIpv4 c.dest
      → Puts
          (put_tlv (classic_type c.external) c.nexthop c.metric c.extdata c.dest)
          (classic_bytes 0 c)
          (1 + prefix_bytes c.dest.prefixlen)
  unfolding put_tlv nexthop_encode
  put_tlv-Puts c hm hd = Puts-putw _ _ _ _ (
      Puts-putw _ _ _ _ (
        Puts-putl _ _ _ _ (
          Puts-bind _ _ _ _ _ _ (external_part-Puts c.external c.extdata)
            (Puts-bind _ _ _ _ _ _ (metric_encode-Puts c.metric hm) (addr_encode-Puts c.dest hd)))))
