-- ===== src/Tlv1/Refused.antt =====
-- What the encoder of classic metrics writes, given to their decoder.
use eigrpd.Base.{
  ℕ, ◌+◌, ◌<◌, ◌≤◌, ◌≡◌, refl, Bool, true, false, some, ◌++◌, ◌==◌, if◌then◌else◌, length, arith,
}
use mathlib.Core.Path.{subst}
use eigrpd.Stream.{Buffer, ◌>>=◌, StreamLib, bytes_w, with_bytes, get_endp}
use eigrpd.Stream.Runs.{Holds, Holds-over, Holds-append}
use eigrpd.Tlv.Address.{IsIpv4}
use eigrpd.Tlv.Envelope.{inside, frame_of, frame_lem, close_malformed_lem, seal_lem}
use eigrpd.Tlv2.Bytes.{join_w}
use eigrpd.Tlv1.{classic_min_length}
use eigrpd.Tlv.{refused, prefix_bytes, ipv4_max_bitlen}
use eigrpd.Tlv1.Codec.{finish, body, parse, encode, classic_tlv_type}
use eigrpd.Tlv1.Bytes.{
  Told, classic_type, classic_rest, classic_bytes, classic_size, classic_size_le,
  length-classic_bytes, IsMetric, put_tlv-Puts,
}
use eigrpd.Tlv1.Misread.{misread, left, rest_split, length-misread, fields-misread}

type_known : (x : Bool) → (classic_type x == 0) ≡ false
type_known true = refl
type_known false = refl

least : Bool → ℕ
least x = if x then 45 else 25

min_length_lem : (x : Bool) → classic_min_length (classic_type x) ≡ some (least x)
unfolding least
min_length_lem true = refl
min_length_lem false = refl

least_le : (c : Told) → least c.external ≤ classic_size c
unfolding least
least_le c = ground arith

classic_type_lt : (x : Bool) → classic_type x < 65536
classic_type_lt true = omega arith
classic_type_lt false = omega arith

module _ ⦃sl : StreamLib⦄ where
  body_misread :
      (c : Told) (s : Buffer)
      → ipv4_max_bitlen < c.metric.reliability
      → Holds s.byte (s.getp + 4) (classic_rest c)
      → s.getp + classic_size c ≤ s.endp
      → s.endp ≤ s.size
      → body
          (some (frame_of s (classic_type c.external) (classic_size c)))
          (inside s (classic_size c))
        ≡ (refused, record s { getp = s.endp })
  unfolding body finish ◌>>=◌
  body_misread c s lt held hl hs =
      let t = inside s (classic_size c) in
      let f = frame_of s (classic_type c.external) (classic_size c) in
      let short : length (misread c) + 4 ≤ classic_size c = length-misread c in
      let front : Holds s.byte (s.getp + 4) (misread c) =
        (Holds-append s.byte (s.getp + 4) (misread c) (left c)
          (subst (λ l. Holds s.byte (s.getp + 4) l) (rest_split c) held)).0 in
      rw
        (
          (fields-misread f c refl lt).at t front (omega (arith, short)),
          close_malformed_lem s (classic_type c.external) (classic_size c)
              (s.getp + 4 + length (misread c)) (omega (arith, short)) hs,
        )
        refl

  parse_misread :
      (c : Told) (s : Buffer)
      → IsIpv4 c.dest
      → ipv4_max_bitlen < c.metric.reliability
      → Holds s.byte s.getp (classic_bytes (classic_size c) c)
      → s.getp + classic_size c ≤ s.endp
      → s.endp ≤ s.size
      → parse s ≡ (refused, record s { getp = s.endp })
  unfolding parse ◌>>=◌
  parse_misread c s hd lt held hl hs =
      let (front, back) =
        Holds-append s.byte s.getp (bytes_w (classic_type c.external) ++ bytes_w (classic_size c))
          (classic_rest c) held in
      rw
        (frame_lem classic_min_length s _ _ _ _ (least c.external) (classic_type c.external)
          (classic_size c) front (join_w (classic_type c.external) (classic_type_lt c.external))
          (join_w (classic_size c) (omega (arith, classic_size_le c hd)))
          (min_length_lem c.external) (least_le c) (omega arith) hl hs)
        (body_misread c s lt back hl hs)

  encode_lem :
      (type : ℕ) (c : Told) (s : Buffer)
      → IsMetric c.metric
      → IsIpv4 c.dest
      → classic_tlv_type type ≡ classic_type c.external
      → s.getp ≤ s.endp
      → s.endp + classic_size c ≤ s.size
      → encode type c.nexthop c.metric c.extdata c.dest s
        ≡ (classic_size c, with_bytes s (classic_bytes (classic_size c) c) (classic_size c))
  unfolding encode ◌>>=◌ get_endp
  encode_lem type c s hm hd ht hg hs =
      let len : length (classic_bytes 0 c) ≡ classic_size c = length-classic_bytes 0 c hd in
      rw (ht, type_known c.external, (put_tlv-Puts c hm hd).at s (omega (arith, len)), len)
        (seal_lem s _ _ (classic_size c) (prefix_bytes c.dest.prefixlen) (classic_rest c)
          (omega arith) (omega (arith, classic_size_le c hd)) hg hs)

  -- A route that the encoder of classic metrics writes behind a packet, internal or external, is
  -- refused by the decoder, which gives up the whole packet, if the route's reliability is above 32:
  -- the decoder counts the four bytes of the nexthop and does not read them, so that it takes the
  -- reliability for the length of the prefix. The stream has room for the TLV, the destination is
  -- an IPv4 prefix, and the metric's bytes are bytes.
  pub classic_refused :
      (type : ℕ) (c : Told) (s : Buffer)
      → IsMetric c.metric
      → IsIpv4 c.dest
      → ipv4_max_bitlen < c.metric.reliability
      → classic_tlv_type type ≡ classic_type c.external
      → s.getp ≤ s.endp
      → s.endp + classic_size c ≤ s.size
      → (let written = (encode type c.nexthop c.metric c.extdata c.dest s).1 in
          parse (record written { getp = s.endp })
          ≡ (refused, record written { getp = written.endp }))
  classic_refused type c s hm hd lt ht hg hs = rw (encode_lem type c s hm hd ht hg hs) (
      parse_misread c
        (record (with_bytes s (classic_bytes (classic_size c) c) (classic_size c)) {
          getp = s.endp;
        })
        hd lt (Holds-over s.byte s.endp (classic_bytes (classic_size c) c)) (omega arith) hs)
