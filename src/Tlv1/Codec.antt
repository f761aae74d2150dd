-- ===== src/Tlv1/Codec.antt =====
-- The stream's side of the decoder and of the encoder of classic metrics.
use eigrpd.Base.{ℕ, ◌+◌, not, ◌||◌, Option, none, some, ltb, ◌==◌, if◌then◌else◌, u16}
use eigrpd.Metric.{Metrics}
use eigrpd.State.{Dest, ExtData, zero_extdata}
use eigrpd.Stream.{S, pure, ◌>>=◌, ◌>>◌, StreamLib, get_endp}
use eigrpd.Receive.{tlv_ipv4_ext}
use eigrpd.Packet.Framing.{tlv_hdr_size}
use eigrpd.Tlv.{
  Frame, Fields, Parsed, dropped, refused, parsed, eigrp_int, eigrp_ext, frame, close,
  close_malformed, addr_decode, addr_encode, seal,
}
use eigrpd.Tlv2.{tlv_ipv4_int}
use eigrpd.Tlv1.{nexthop_size, classic_min_length}
use eigrpd.Tlv1.Parts.{
  metric_decode, metric_encode, external_decode, external_encode, nexthop_decode, nexthop_encode,
}

-- eigrp_tlv1_route_tlv_type
unfoldable pub classic_tlv_type : ℕ → ℕ
classic_tlv_type type =
    if type == tlv_ipv4_int || type == tlv_ipv4_ext
    then type
    else if type == eigrp_int
    then tlv_ipv4_int
    else if type == eigrp_ext
    then tlv_ipv4_ext
    else 0

module _ ⦃sl : StreamLib⦄ where
  -- The parts of a TLV behind its header, with the bytes that were counted before each.
  unfoldable pub with_dest : Frame → ℕ → Metrics → ExtData → S (Option Fields)
  with_dest f bytes m e = do
    d ← addr_decode
    elim d [
      | none ↦ pure none
      | some r ↦
          (if ltb f.length (u16 (bytes + r.1)) || u16 (bytes + r.1) == tlv_hdr_size
            then pure none
            else pure (some (record { metric = m; extdata = e; dest = r.0 })))
    ]

  unfoldable pub with_metric : Frame → ℕ → ExtData → S (Option Fields)
  with_metric f bytes e = do
    x ← metric_decode
    elim x [ none ↦ pure none | some r ↦ with_dest f (bytes + r.1) r.0 e ]

  unfoldable pub by_type : Frame → ℕ → S (Option Fields)
  by_type f bytes =
      if f.type == tlv_ipv4_ext
      then (external_decode >>= λ x. elim x [
        | none ↦ pure none
        | some r ↦ with_metric f (bytes + r.1) r.0
      ])
      else with_metric f bytes zero_extdata

  unfoldable pub fields : Frame → S (Option Fields)
  fields f = do
    n ← nexthop_decode
    (if not (tlv_hdr_size + n == tlv_hdr_size + nexthop_size)
        then pure none
        else by_type f (tlv_hdr_size + n))

  unfoldable pub finish : Frame → Option Fields → S Parsed
  finish f none = do close_malformed f; pure refused
  finish f (some x) = do close f; pure (parsed f.type x)

  unfoldable pub body : Option Frame → S Parsed
  body none = pure dropped
  body (some f) = do x ← fields f; finish f x

  -- The stream's side of eigrp_tlv1_decoder.
  unfoldable pub parse : S Parsed
  parse = do f ← frame classic_min_length; body f

  unfoldable pub put_tlv : ℕ → ℕ → Metrics → ExtData → Dest → S ℕ
  put_tlv type nexthop m e d = do
    sl.putw type
    sl.putw 0
    nexthop_encode nexthop
    (if type == tlv_ipv4_ext then external_encode e else pure tt)
    metric_encode m
    addr_encode d

  -- The stream's side of eigrp_tlv1_encoder; `m` is the metric once the filter has seen it.
  unfoldable pub encode : ℕ → ℕ → Metrics → ExtData → Dest → S ℕ
  encode type nexthop m e d = if classic_tlv_type type == 0 then pure 0 else (do
    tlv_start ← get_endp
    encoded ← put_tlv (classic_tlv_type type) nexthop m e d
    seal tlv_start encoded)
