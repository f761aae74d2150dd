-- ===== src/Tlv2/Layout.antt =====
-- A whole TLV of wide metrics as bytes: its parts, written in order and read in order.
use eigrpd.Base.{
  ℕ, ◌+◌, ◌≤◌, ◌<◌, ◌≡◌, refl, inl, inr, Bool, true, false, some, List, [], ◌++◌, ltb, ◌==◌,
  if◌then◌else◌, length, u16, arith, Bool-cases,
}
use eigrpd.Metric.{Metrics}
use eigrpd.State.{Dest, ExtData, zero_extdata}
use eigrpd.Stream.{pure, StreamLib, bytes_w, bytes_l}
use eigrpd.Stream.Reading.{Reads, Reads-bind, Reads-ret}
use eigrpd.Stream.Writing.{Puts, Puts-pure, Puts-putw, Puts-putl, Puts-bind}
use eigrpd.Tlv.{Fields, prefix_bytes, Frame}
use eigrpd.Tlv.Address.{
  IsIpv4, covered, dest_bytes, addr_encode-Puts, addr_decode-Reads, length-addr_bytes,
  prefix_bytes_le,
}
use eigrpd.Packet.Framing.{tlv_hdr_size}
use eigrpd.Tlv2.{tlv_mp_int, tlv_mp_ext, af_ipv4, extdata_size}
use eigrpd.Tlv2.Parts.{external_encode}
use eigrpd.Tlv2.Codec.{fields, with_external, with_dest, put_tlv}
use eigrpd.Tlv2.Bytes.{
  IsWide, IsExternal, metric_bytes, external_bytes, external_read, metric_encode-Puts,
  metric_decode-Reads, external_encode-Puts, external_decode-Reads,
}

-- What a TLV says of a route.
pub record Said : Type 0 where
  pub external : Bool
  pub router : ℕ
  pub metric : Metrics
  pub extdata : ExtData
  pub dest : Dest

-- Its fields are inside their widths.
pub record IsSaid (c : Said) : Type 0 where
  pub router : c.router < 4294967296
  pub metric : IsWide c.metric
  pub extdata : IsExternal c.extdata
  pub dest : IsIpv4 c.dest

abbrev pub type_word : Bool → ℕ
type_word x = if x then tlv_mp_ext else tlv_mp_int

-- The parts behind the multiprotocol header.
abbrev pub part_bytes : Said → List ℕ
part_bytes c =
    metric_bytes c.metric
    ++ (if c.external then external_bytes c.router c.extdata else [])
    ++ dest_bytes c.dest

abbrev pub rest_bytes : Said → List ℕ
rest_bytes c = bytes_w af_ipv4 ++ bytes_w 0 ++ bytes_l c.router ++ part_bytes c

abbrev pub tlv_bytes : ℕ → Said → List ℕ
tlv_bytes len c = bytes_w (type_word c.external) ++ bytes_w len ++ rest_bytes c

abbrev pub tlv_size : Said → ℕ
tlv_size c = 37 + (if c.external then extdata_size else 0) + prefix_bytes c.dest.prefixlen

-- What the reader takes from it.
unfoldable pub read_back : Said → Fields
read_back c = record {
  metric = c.metric;
  extdata =
      if c.external
      then external_read c.router c.extdata (record zero_extdata { orig = c.router })
      else record zero_extdata { orig = c.router };
  dest = covered c.dest;
}

pub length-part_bytes : (c : Said) → IsIpv4 c.dest → length (part_bytes c) + 12 ≡ tlv_size c
length-part_bytes c h = elim (Bool-cases c.external) [
  | inl on ↦ rw on (omega (arith, length-addr_bytes c.dest h))
  | inr off ↦ rw off (omega (arith, length-addr_bytes c.dest h))
]

pub length-tlv_bytes : (len : ℕ) (c : Said) → IsIpv4 c.dest → length (tlv_bytes len c) ≡ tlv_size c
length-tlv_bytes len c h = omega (arith, length-part_bytes c h)

pub tlv_size_le : (c : Said) → IsIpv4 c.dest → tlv_size c ≤ 57
tlv_size_le c h = ground (arith, prefix_bytes_le c.dest.prefixlen h.prefixlen)

module _ ⦃sl : StreamLib⦄ where
  external_part-Puts :
      (x : Bool) (rid : ℕ) (e : ExtData)
      → IsExternal e
      → Puts
          (if type_word x == tlv_mp_ext then external_encode rid e else pure tt)
          (if x then external_bytes rid e else [])
          tt
  external_part-Puts true rid e h = external_encode-Puts rid e h
  external_part-Puts false rid e h = Puts-pure tt

  pub put_tlv-Puts :
      (c : Said)
      → IsSaid c
      → Puts
          (put_tlv (type_word c.external) c.router c.metric c.extdata c.dest)
          (tlv_bytes 0 c)
          (1 + prefix_bytes c.dest.prefixlen)
  unfolding put_tlv
  put_tlv-Puts c h = Puts-putw _ _ _ _ (
      Puts-putw _ _ _ _ (
        Puts-putw _ _ _ _ (
          Puts-putw _ _ _ _ (
            Puts-putl _ _ _ _ (
              Puts-bind _ _ _ _ _ _ (metric_encode-Puts c.metric h.metric) (
                Puts-bind _ _ _ _ _ _ (external_part-Puts c.external c.router c.extdata h.extdata)
                  (addr_encode-Puts c.dest h.dest)))))))

  with_dest-Reads :
      (f : Frame) (bytes taken : ℕ) (m : Metrics) (e : ExtData) (d : Dest)
      → IsIpv4 d
      → f.length ≡ bytes + taken + (1 + prefix_bytes d.prefixlen)
      → 4 ≤ bytes
      → f.length < 65536
      → Reads
          (with_dest f bytes m e taken)
          (dest_bytes d)
          (some (record { metric = m; extdata = e; dest = covered d }))
  unfolding with_dest
  with_dest-Reads f bytes taken m e d h el eb ef =
      let total = u16 (bytes + taken + (1 + prefix_bytes d.prefixlen)) in
      let fits : ltb f.length total ≡ false = ground arith in
      let some_bytes : (total == tlv_hdr_size) ≡ false = ground arith in
      Reads-ret _ _ _ _ _ (addr_decode-Reads d h) (rw (fits, some_bytes) refl)

  with_external-Reads :
      (f : Frame) (c : Said)
      → IsSaid c
      → f.type ≡ type_word c.external
      → f.length ≡ tlv_size c
      → Reads
          (with_external f 36 c.metric (record zero_extdata { orig = c.router }))
          ((if c.external then external_bytes c.router c.extdata else []) ++ dest_bytes c.dest)
          (some (read_back c))
  unfolding with_external read_back with_dest
  with_external-Reads f c h et el = elim (Bool-cases c.external) [
    | inl on ↦
        rw (et, on)
          (Reads-bind _ _ _ _ _ _ (external_decode-Reads c.router c.extdata _ h.extdata h.router) (
            with_dest-Reads f 36 16 _ _ c.dest h.dest (ground (arith, el, on)) (omega arith)
              (omega (arith, el, tlv_size_le c h.dest))))
    | inr off ↦
        rw (et, off)
          (with_dest-Reads f 36 0 _ _ c.dest h.dest (ground (arith, el, off)) (omega arith)
            (omega (arith, el, tlv_size_le c h.dest)))
  ]

  pub fields-Reads :
      (f : Frame) (c : Said)
      → IsSaid c
      → f.type ≡ type_word c.external
      → f.length ≡ tlv_size c
      → Reads (fields f c.router) (part_bytes c) (some (read_back c))
  unfolding fields
  fields-Reads f c h et el =
      Reads-bind _ _ _ _ _ _ (metric_decode-Reads c.metric h.metric)
        (with_external-Reads f c h et el)
