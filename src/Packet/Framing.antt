-- ===== src/Packet/Framing.antt =====
-- eigrp_packet_auth_tlv_find of eigrpd/eigrp_packet.c: the walk over the TLVs of a received packet.
use eigrpd.Base.{
  ℕ, zero, suc, ◌+◌, ◌-◌, ◌*◌, Bool, false, ◌||◌, Option, none, some, ltb, ◌==◌, ◌>>=?◌,
  if◌then◌else◌, u16,
}

abbrev pub header_len : ℕ
header_len = 20

-- sizeof(struct eigrp_tlv_hdr_type)
abbrev pub tlv_hdr_size : ℕ
tlv_hdr_size = 4

abbrev pub tlv_auth : ℕ
tlv_auth = 0x0002

-- What the walk gives: -1, or 0 with the offset of the last authentication TLV and whether it is
-- the first TLV.
pub data Framing : Type 0 where
  malformed : Framing
  framed : Option ℕ → Bool → Framing

-- `ntohs` of the two bytes at an offset. A byte that is `none` lies outside the packet's buffer.
abbrev pub read_u16 : (ℕ → Option ℕ) → ℕ → Option ℕ
read_u16 byte offset =
    byte offset >>=? λ high. byte (offset + 1) >>=? λ low. some (high * 256 + low)

-- The loop. `none` is a read outside the buffer, or the end of the fuel.
unfoldable pub find_from : ℕ → (ℕ → Option ℕ) → ℕ → ℕ → Option ℕ → Bool → Option Framing
find_from zero byte length offset auth first = none
find_from (suc fuel) byte length offset auth first =
    if ltb offset length
    then (if ltb (length - offset) tlv_hdr_size
        then some malformed
        else (read_u16 byte offset >>=? λ type. read_u16 byte (offset + 2) >>=? λ size.
            if ltb size tlv_hdr_size || ltb (length - offset) size
            then some malformed
            else if type == tlv_auth
            then find_from fuel byte length (u16 (offset + size)) (some offset)
                (offset == header_len)
            else find_from fuel byte length (u16 (offset + size)) auth first))
    else some (framed auth first)

-- eigrp_packet_auth_tlv_find. A round takes a byte at least, so the length is fuel enough.
unfoldable pub auth_tlv_find : (ℕ → Option ℕ) → ℕ → Option Framing
unfolding find_from
auth_tlv_find byte length =
    if ltb length header_len
    then some malformed
    else find_from (suc length) byte length header_len none false
