-- ===== src/Tlv2/RoundTrip.antt =====
-- The decoder of wide metrics reads what their encoder writes.
use eigrpd.Base.{
  ℕ, ◌+◌, ◌≤◌, ◌<◌, ◌≡◌, refl, ap, ◌∙◌, Bool, true, false, some, ◌++◌, ◌==◌, if◌then◌else◌, length,
  arith,
}
use mathlib.Core.Path.{subst}
use eigrpd.Stream.{Buffer, StreamLib, ◌>>=◌, bytes_w, bytes_l, with_bytes, get_endp}
use eigrpd.Stream.Runs.{Holds, Holds-over, Holds-append}
use eigrpd.Stream.Reading.{has_step, getw_step, getl_step}
use eigrpd.Tlv.{prefix_bytes, parsed}
use eigrpd.Tlv.Envelope.{inside, frame_of, frame_lem, close_lem, seal_lem}
use eigrpd.Receive.{tlv_ipv4_ext}
use eigrpd.Tlv2.{tlv_mp_ext, tlv_ipv4_int, min_length, header_ext_size}
use eigrpd.Tlv2.Codec.{parse, body, multiprotocol, finish, fields, encode, route_tlv_type}
use eigrpd.Tlv2.Layout.{
  Said, IsSaid, tlv_bytes, part_bytes, rest_bytes, tlv_size, type_word, read_back, length-tlv_bytes,
  length-part_bytes, tlv_size_le, put_tlv-Puts, fields-Reads,
}
use eigrpd.Tlv2.Bytes.{join_l, join_w}

abbrev pub decoded_type : Bool → ℕ
decoded_type x = if x then tlv_ipv4_ext else tlv_ipv4_int

type_known : (x : Bool) → (type_word x == 0) ≡ false
type_known true = refl
type_known false = refl

type_decoded :
    (x : Bool) → (if type_word x == tlv_mp_ext then tlv_ipv4_ext else tlv_ipv4_int) ≡ decoded_type x
type_decoded true = refl
type_decoded false = refl

least : Bool → ℕ
least x = if x then 53 else 37

min_length_lem : (x : Bool) → min_length (type_word x) ≡ some (least x)
unfolding least
min_length_lem true = refl
min_length_lem false = refl

least_le : (c : Said) → least c.external ≤ tlv_size c
unfolding least
least_le c = ground arith

type_word_lt : (x : Bool) → type_word x < 65536
type_word_lt true = omega arith
type_word_lt false = omega arith

module _ ⦃sl : StreamLib⦄ where
  -- The encoder.
  pub encode_lem :
      (type : ℕ) (c : Said) (s : Buffer)
      → IsSaid c
      → route_tlv_type type ≡ type_word c.external
      → s.getp ≤ s.endp
      → s.endp + tlv_size c ≤ s.size
      → encode type c.router c.metric c.extdata c.dest s
        ≡ (tlv_size c, with_bytes s (tlv_bytes (tlv_size c) c) (tlv_size c))
  unfolding encode ◌>>=◌ get_endp
  encode_lem type c s h ht hg hs =
      let len : length (tlv_bytes 0 c) ≡ tlv_size c = length-tlv_bytes 0 c h.dest in
      rw (ht, type_known c.external, (put_tlv-Puts c h).at s (omega (arith, len)), len)
        (seal_lem s _ _ (tlv_size c) (prefix_bytes c.dest.prefixlen) (rest_bytes c) (omega arith)
          (omega (arith, tlv_size_le c h.dest)) hg hs)

  -- The parts behind the multiprotocol header, and the end of the decoder.
  finish_lem :
      (c : Said) (s t : Buffer) (rid : ℕ)
      → IsSaid c
      → rid ≡ c.router
      → t ≡ record s { getp = s.getp + 12; endp = s.getp + tlv_size c }
      → Holds s.byte (s.getp + 12) (part_bytes c)
      → s.getp + tlv_size c ≤ s.endp
      → s.endp ≤ s.size
      → (fields (frame_of s (type_word c.external) (tlv_size c)) rid >>= λ x.
            finish (frame_of s (type_word c.external) (tlv_size c)) x)
          t
        ≡ (parsed (decoded_type c.external) (read_back c), record s { getp = s.getp + tlv_size c })
  unfolding finish ◌>>=◌
  finish_lem c s t rid h er et held hl hs =
      let f = frame_of s (type_word c.external) (tlv_size c) in
      let len : length (part_bytes c) + 12 ≡ tlv_size c = length-part_bytes c h.dest in
      let u = record s { getp = s.getp + 12; endp = s.getp + tlv_size c } in
      let moved : fields f c.router u ≡ (
        some (read_back c),
        record s { getp = s.getp + tlv_size c; endp = s.getp + tlv_size c },
      ) =
        (fields-Reads f c h refl refl).at u held (omega (arith, len))
        ∙ ap (λ g. (some (read_back c), record s { getp = g; endp = s.getp + tlv_size c }))
            (omega (arith, len)) in
      rw
        (
          er,
          et,
          moved,
          close_lem s (type_word c.external) (tlv_size c) (s.getp + tlv_size c) (omega arith) hl hs,
        )
        (ap (λ n. (parsed n (read_back c), record s { getp = s.getp + tlv_size c }))
          (type_decoded c.external))

  -- The part of the decoder inside the TLV.
  body_lem :
      (c : Said) (s : Buffer)
      → IsSaid c
      → Holds s.byte (s.getp + 4) (rest_bytes c)
      → s.getp + tlv_size c ≤ s.endp
      → s.endp ≤ s.size
      → body (some (frame_of s (type_word c.external) (tlv_size c))) (inside s (tlv_size c))
        ≡ (parsed (decoded_type c.external) (read_back c), record s { getp = s.getp + tlv_size c })
  unfolding body multiprotocol
  body_lem c s h held hl hs =
      let inner = inside s (tlv_size c) in
      let (e1, h1) =
        getw_step _ 0 1 (bytes_w 0 ++ bytes_l c.router ++ part_bytes c) inner held (omega arith) in
      let (e2, h2) =
        getw_step _ 0 0 (bytes_l c.router ++ part_bytes c) (record inner { getp = s.getp + 4 + 2 })
          h1 (omega arith) in
      let (e3, h3) =
        getl_step _ _ _ _ _ (part_bytes c) (record inner { getp = s.getp + 4 + 2 + 2 }) h2
          (omega arith) in
      has_step _ header_ext_size inner (omega arith)
      ∙ e1
      ∙ e2
      ∙ e3
      ∙ finish_lem c s _ _ h (join_l c.router h.router)
          (ap (λ g. record s { getp = g; endp = s.getp + tlv_size c }) (omega arith))
          (subst (λ g. Holds s.byte g (part_bytes c)) (omega arith) h3) hl hs

  -- A TLV held by the stream, with anything after it in the packet.
  pub parse_lem :
      (c : Said) (s : Buffer)
      → IsSaid c
      → Holds s.byte s.getp (tlv_bytes (tlv_size c) c)
      → s.getp + tlv_size c ≤ s.endp
      → s.endp ≤ s.size
      → parse s
        ≡ (parsed (decoded_type c.external) (read_back c), record s { getp = s.getp + tlv_size c })
  unfolding parse ◌>>=◌
  parse_lem c s h held hl hs =
      let (front, back) =
        Holds-append s.byte s.getp (bytes_w (type_word c.external) ++ bytes_w (tlv_size c))
          (rest_bytes c) held in
      rw
        (frame_lem min_length s _ _ _ _ (least c.external) (type_word c.external) (tlv_size c) front
          (join_w (type_word c.external) (type_word_lt c.external))
          (join_w (tlv_size c) (omega (arith, tlv_size_le c h.dest))) (min_length_lem c.external)
          (least_le c) (omega arith) hl hs)
        (body_lem c s h back hl hs)

  -- A route that the encoder writes behind a packet, read by the decoder where it was written: the
  -- type, the metric (with its mark of an unreachable destination), the external part and the
  -- destination (less the bytes that its prefix does not reach) are those of the route, and the
  -- packet is read to its end. The stream has room for the TLV, and the fields are inside their
  -- widths; the external part's tag is lost, and an originator of 0 is the router's id.
  pub parse-encode :
      (type : ℕ) (c : Said) (s : Buffer)
      → IsSaid c
      → route_tlv_type type ≡ type_word c.external
      → s.getp ≤ s.endp
      → s.endp + tlv_size c ≤ s.size
      → (let written = (encode type c.router c.metric c.extdata c.dest s).1 in
          parse (record written { getp = s.endp }) ≡ (
            parsed (decoded_type c.external) (read_back c),
            record written { getp = written.endp },
          ))
  parse-encode type c s h ht hg hs = rw (encode_lem type c s h ht hg hs) (
      parse_lem c (record (with_bytes s (tlv_bytes (tlv_size c) c) (tlv_size c)) { getp = s.endp })
        h (Holds-over s.byte s.endp (tlv_bytes (tlv_size c) c)) (omega arith) hs)
