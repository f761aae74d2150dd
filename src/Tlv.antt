-- ===== src/Tlv.antt =====
-- What the two TLV codecs, eigrpd/eigrp_tlv1.c and eigrpd/eigrp_tlv2.c, have in common: each file
-- has its own copy of these functions, and the line numbers of the map are those of the first.
pub mod Address
pub mod Envelope
pub mod Advance
use eigrpd.Base.{
  ℕ, zero, suc, ◌+◌, ◌-◌, ◌/◌, Bool, true, false, not, ◌&&◌, ◌||◌, Option, none, some, List, [],
  ◌∷◌, ltb, leb, ◌==◌, if◌then◌else◌, u16,
}
use eigrpd.Metric.{Metrics}
use eigrpd.State.{Dest, ExtData}
use eigrpd.Packet.Framing.{tlv_hdr_size}
use eigrpd.Stream.{
  Buffer, S, pure, ◌>>=◌, ◌>>◌, StreamLib, remaining, has, get_getp, get_endp, get_bytes, put_bytes,
}

abbrev pub af_inet : ℕ
af_inet = 2

abbrev pub ipv4_max_bitlen : ℕ
ipv4_max_bitlen = 32

-- EIGRP_TLV1_DEST_PREFIX_SIZE and its copy.
abbrev pub dest_prefix_size : ℕ
dest_prefix_size = 1

-- The constants of msg_data_t as route types.
abbrev pub eigrp_int : ℕ
eigrp_int = 1

abbrev pub eigrp_ext : ℕ
eigrp_ext = 2

-- The bytes that a prefix of that length takes.
unfoldable pub prefix_bytes : ℕ → ℕ
prefix_bytes prefixlen = if prefixlen == 0 then 0 else (prefixlen - 1) / 8 + 1

abbrev pub byte_or_zero : List ℕ → ℕ → ℕ
byte_or_zero [] n = 0
byte_or_zero (b ∷ bs) zero = b
byte_or_zero (b ∷ bs) (suc n) = byte_or_zero bs n

-- The destination whose first bytes were read, and the bytes of a destination.
abbrev pub dest_of : ℕ → List ℕ → Dest
dest_of prefixlen bs = record {
  family = af_inet;
  prefixlen = prefixlen;
  addr0 = byte_or_zero bs 0;
  addr1 = byte_or_zero bs 1;
  addr2 = byte_or_zero bs 2;
  addr3 = byte_or_zero bs 3;
}

abbrev pub first_n : ℕ → List ℕ → List ℕ
first_n zero bs = []
first_n (suc n) [] = []
first_n (suc n) (b ∷ bs) = b ∷ first_n n bs

abbrev pub addr_bytes : Dest → List ℕ
addr_bytes d = first_n (prefix_bytes d.prefixlen) (d.addr0 ∷ d.addr1 ∷ d.addr2 ∷ d.addr3 ∷ [])

-- What a decoder takes from a TLV.
pub record Fields : Type 0 where
  pub metric : Metrics
  pub extdata : ExtData
  pub dest : Dest

-- A TLV for which no route is made, one whose route is freed again, and one that gives a route.
pub data Parsed : Type 0 where
  dropped refused : Parsed
  parsed : ℕ → Fields → Parsed

-- The header of a TLV, once its length is checked.
pub record Frame : Type 0 where
  pub type : ℕ
  pub length : ℕ
  pub tlv_end : ℕ
  pub packet_end : ℕ

module _ ⦃sl : StreamLib⦄ where
  -- The rest of the packet is given up.
  unfoldable pub decode_abort : S (Unit {0})
  decode_abort = do endp ← get_endp; sl.set_getp endp

  unfoldable pub decode_skip : ℕ → S (Unit {0})
  decode_skip tlv_end = do
    endp ← get_endp
    (if leb tlv_end endp then sl.set_getp tlv_end else decode_abort)

  -- The bytes of the address that the TLV holds; the others are 0. `none` is the 0 of the code.
  unfoldable pub addr_bits : ℕ → S (Option (Dest × ℕ))
  addr_bits prefixlen = do
    ok ← has (prefix_bytes prefixlen)
    (if ok
        then (get_bytes (prefix_bytes prefixlen) >>= λ bs.
            pure (some (dest_of prefixlen bs, dest_prefix_size + prefix_bytes prefixlen)))
        else pure none)

  unfoldable pub addr_length : S (Option (Dest × ℕ))
  addr_length = do
    prefixlen ← sl.getc
    (if ltb ipv4_max_bitlen prefixlen then pure none else addr_bits prefixlen)

  -- eigrp_tlv1_addr_decode, eigrp_tlv2_addr_decode
  unfoldable pub addr_decode : S (Option (Dest × ℕ))
  addr_decode = do ok ← has dest_prefix_size; (if ok then addr_length else pure none)

  -- eigrp_tlv1_addr_encode, eigrp_tlv2_addr_encode
  unfoldable pub addr_encode : Dest → S ℕ
  addr_encode d =
      if not (d.family == af_inet) || ltb ipv4_max_bitlen d.prefixlen then pure 0 else (do
        sl.putc d.prefixlen
        put_bytes (addr_bytes d)
        pure (dest_prefix_size + prefix_bytes d.prefixlen))

  -- A type that the codec does not know: the TLV is skipped if its length can be believed.
  unfoldable pub skip_unknown : ℕ → ℕ → ℕ → S (Option Frame)
  skip_unknown tlv_start length left =
      if leb tlv_hdr_size length && leb length left
      then (decode_skip (tlv_start + length) >> pure none)
      else (decode_abort >> pure none)

  -- The stream is cut to the TLV.
  unfoldable pub enter : ℕ → ℕ → ℕ → ℕ → ℕ → S (Option Frame)
  enter tlv_start left type length min_length =
      if ltb length min_length || ltb left length then (decode_abort >> pure none) else (do
        packet_end ← get_endp
        sl.set_endp (tlv_start + length)
        pure (
            some (record {
              type = type;
              length = length;
              tlv_end = tlv_start + length;
              packet_end = packet_end;
            })))

  unfoldable pub known : ℕ → ℕ → ℕ → ℕ → Option ℕ → S (Option Frame)
  known tlv_start left type length none = skip_unknown tlv_start length left
  known tlv_start left type length (some min_length) = enter tlv_start left type length min_length

  -- What a decoder begins with; the codec says which types it knows, with their least lengths.
  unfoldable pub open_tlv : (ℕ → Option ℕ) → ℕ → ℕ → S (Option Frame)
  open_tlv min_length tlv_start left = do
    type ← sl.getw
    length ← sl.getw
    known tlv_start left type length (min_length type)

  unfoldable pub frame : (ℕ → Option ℕ) → S (Option Frame)
  frame min_length s =
      (if ltb (remaining s) tlv_hdr_size
          then (decode_abort >> pure none)
          else open_tlv min_length s.getp (remaining s))
        s

  -- A decoder's two ends: the next TLV, or the end of the packet.
  unfoldable pub close : Frame → S (Unit {0})
  close f = do sl.set_endp f.packet_end; decode_skip f.tlv_end

  unfoldable pub close_malformed : Frame → S (Unit {0})
  close_malformed f = do sl.set_endp f.packet_end; decode_abort

  -- The length is written over the 0 that holds its place.
  unfoldable pub patch_length : ℕ → S ℕ
  patch_length tlv_start = do
    tlv_end ← get_endp
    sl.set_endp (tlv_start + 2)
    sl.putw (u16 (tlv_end - tlv_start))
    sl.set_endp tlv_end
    pure (u16 (tlv_end - tlv_start))

  -- An encoder's end: what has no destination is taken back.
  unfoldable pub seal : ℕ → ℕ → S ℕ
  seal tlv_start encoded =
      if encoded == 0 then (sl.set_endp tlv_start >> pure 0) else patch_length tlv_start
