-- ===== src/Tlv2/Codec.antt =====
-- The stream's side of the decoder and of the encoder of wide metrics.
use eigrpd.Base.{ℕ, ◌+◌, not, ◌||◌, Option, none, some, ltb, ◌==◌, if◌then◌else◌, u16}
use eigrpd.Metric.{Metrics}
use eigrpd.State.{Dest, ExtData, zero_extdata}
use eigrpd.Stream.{S, pure, ◌>>=◌, ◌>>◌, StreamLib, has, get_endp}
use eigrpd.Receive.{tlv_ipv4_ext}
use eigrpd.Packet.Framing.{tlv_hdr_size}
use eigrpd.Tlv.{
  Frame, eigrp_int, eigrp_ext, frame, close, close_malformed, addr_decode, addr_encode, seal,
  Fields, Parsed, dropped, refused, parsed,
}
use eigrpd.Tlv2.{tlv_mp_int, tlv_mp_ext, tlv_ipv4_int, af_ipv4, header_ext_size, min_length}
use eigrpd.Tlv2.Parts.{metric_decode, metric_encode, external_decode, external_encode}

module _ ⦃sl : StreamLib⦄ where
  -- eigrp_tlv2_route_tlv_type
  unfoldable pub route_tlv_type : ℕ → ℕ
  route_tlv_type type =
      if type == tlv_mp_ext || (type == tlv_ipv4_ext || type == eigrp_ext)
      then tlv_mp_ext
      else if type == tlv_mp_int || (type == tlv_ipv4_int || type == eigrp_int)
      then tlv_mp_int
      else 0

  -- The parts of a TLV behind its header, with the bytes that each took.
  unfoldable pub with_dest : Frame → ℕ → Metrics → ExtData → ℕ → S (Option Fields)
  with_dest f bytes m e taken = do
    d ← addr_decode
    elim d [
      | none ↦ pure none
      | some r ↦
          (let total = u16 (bytes + taken + r.1) in
            if ltb f.length total || total == tlv_hdr_size
            then pure none
            else pure (some (record { metric = m; extdata = e; dest = r.0 })))
    ]

  unfoldable pub with_external : Frame → ℕ → Metrics → ExtData → S (Option Fields)
  with_external f bytes m e =
      if f.type == tlv_mp_ext
      then (external_decode e >>= λ x. elim x [
        | none ↦ pure none
        | some r ↦ with_dest f bytes m r.0 r.1
      ])
      else with_dest f bytes m e 0

  unfoldable pub fields : Frame → ℕ → S (Option Fields)
  fields f rid = do
    x ← metric_decode
    elim x [
      | none ↦ pure none
      | some r ↦
          with_external f (tlv_hdr_size + header_ext_size + r.1) r.0
            (record zero_extdata { orig = rid })
    ]

  unfoldable pub finish : Frame → Option Fields → S Parsed
  finish f none = do close_malformed f; pure refused
  finish f (some x) = do
    close f
    pure (parsed (if f.type == tlv_mp_ext then tlv_ipv4_ext else tlv_ipv4_int) x)

  -- Other address families and topologies are passed over.
  unfoldable pub multiprotocol : Frame → S Parsed
  multiprotocol f = do
    afi ← sl.getw
    tid ← sl.getw
    rid ← sl.getl
    (if not (afi == af_ipv4) || not (tid == 0)
        then (close f >> pure dropped)
        else (fields f rid >>= λ x. finish f x))

  unfoldable pub body : Option Frame → S Parsed
  body none = pure dropped
  body (some f) = do
    ok ← has header_ext_size
    (if ok then multiprotocol f else (close_malformed f >> pure dropped))

  -- The stream's side of eigrp_tlv2_decoder.
  unfoldable pub parse : S Parsed
  parse = do f ← frame min_length; body f

  unfoldable pub put_tlv : ℕ → ℕ → Metrics → ExtData → Dest → S ℕ
  put_tlv type router_id m e d = do
    sl.putw type
    sl.putw 0
    sl.putw af_ipv4
    sl.putw 0
    sl.putl router_id
    metric_encode m
    (if type == tlv_mp_ext then external_encode router_id e else pure tt)
    addr_encode d

  -- The stream's side of eigrp_tlv2_encoder; `m` is the metric once the filter has seen it.
  unfoldable pub encode : ℕ → ℕ → Metrics → ExtData → Dest → S ℕ
  encode type router_id m e d = if route_tlv_type type == 0 then pure 0 else (do
    tlv_start ← get_endp
    encoded ← put_tlv (route_tlv_type type) router_id m e d
    seal tlv_start encoded)
