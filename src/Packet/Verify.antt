-- ===== src/Packet/Verify.antt =====
-- eigrp_verify_header of eigrpd/eigrp_packet.c and what it calls: the checks of a received packet
-- before any handler reads it. `none` is a read outside the packet's buffer.
use eigrpd.Base.{
  ℕ, ◌+◌, ◌/◌, ◌^◌, ◌-◌, Bool, false, not, ◌||◌, ◌&&◌, Option, none, some, ltb, ◌==◌, ◌>>=?◌,
  if◌then◌else◌,
}
use eigrpd.Packet.Framing.{header_len, Framing, malformed, framed, read_u16, auth_tlv_find}

abbrev pub header_version : ℕ
header_version = 2

abbrev pub auth_type_none : ℕ
auth_type_none = 0

abbrev pub auth_type_md5 : ℕ
auth_type_md5 = 2

abbrev pub auth_type_sha256 : ℕ
auth_type_sha256 = 3

abbrev pub auth_md5_tlv_size : ℕ
auth_md5_tlv_size = 40

abbrev pub auth_sha256_tlv_size : ℕ
auth_sha256_tlv_size = 56

abbrev pub auth_type_md5_len : ℕ
auth_type_md5_len = 16

abbrev pub auth_type_sha256_len : ℕ
auth_type_sha256_len = 32

-- What the checks read of the interface and of its instance.
pub record Expected : Type 0 where
  pub as_number : ℕ
  pub vrid : ℕ
  pub auth_type : ℕ
  pub auth_keychain : Bool
  pub point_to_point : Bool
  pub prefixlen : ℕ
  pub address : ℕ

-- A received packet: its bytes, its length, the host's checksum of them and the source's address.
pub record Header : Type 0 where
  pub byte : ℕ → Option ℕ
  pub length : ℕ
  pub in_cksum : ℕ
  pub ip_src : ℕ

-- eigrp_packet_auth_tlv_validate: the TLV's length, and its type and length of authentication.
unfoldable pub auth_tlv_validate : Expected → (ℕ → Option ℕ) → ℕ → ℕ → Option Bool
auth_tlv_validate ei byte offset length =
    if ltb length auth_md5_tlv_size
    then some false
    else (read_u16 byte (offset + 4) >>=? λ auth_type.
        read_u16 byte (offset + 6) >>=? λ auth_length. some (
          if not (auth_type == ei.auth_type)
          then false
          else if auth_type == auth_type_md5
          then length == auth_md5_tlv_size && auth_length == auth_type_md5_len
          else if auth_type == auth_type_sha256
          then length == auth_sha256_tlv_size && auth_length == auth_type_sha256_len
          else false))

-- The policy, once the TLVs are walked.
unfoldable pub auth_policy : Expected → (ℕ → Option ℕ) → Framing → Option Bool
auth_policy ei byte malformed = some false
auth_policy ei byte (framed none first) = some (ei.auth_type == auth_type_none)
auth_policy ei byte (framed (some offset) first) =
    if ei.auth_type == auth_type_none || not ei.auth_keychain || not first
    then some false
    else (read_u16 byte (offset + 2) >>=? λ length. auth_tlv_validate ei byte offset length)

-- eigrp_packet_auth_header_validate
unfoldable pub auth_header_validate : Expected → Header → Option Bool
auth_header_validate ei h = auth_tlv_find h.byte h.length >>=? λ f. auth_policy ei h.byte f

-- `masklen2ip`, on addresses as numbers: the first bits.
abbrev pub masked : ℕ → ℕ → ℕ
masked prefixlen address = address / 2 ^ (32 - prefixlen)

-- eigrp_check_network_mask
unfoldable pub check_network_mask : Expected → ℕ → Bool
check_network_mask ei ip_src =
    ei.point_to_point || masked ei.prefixlen ei.address == masked ei.prefixlen ip_src

-- The checks of the fixed header, in their order, up to the checksum.
unfoldable pub header_fields : Expected → Header → Option Bool
header_fields ei h = h.byte 0 >>=? λ version.
    (if not (version == header_version)
      then some false
      else (read_u16 h.byte 18 >>=? λ as_number.
          (if not (as_number == ei.as_number)
            then some false
            else (read_u16 h.byte 16 >>=? λ vrid. some (vrid == ei.vrid && h.in_cksum == 0)))))

-- eigrp_verify_header
unfoldable pub verify_header : Expected → Header → Option Bool
verify_header ei h =
    if ltb h.length header_len
    then some false
    else (header_fields ei h >>=? λ plain.
        (if not plain
          then some false
          else (auth_header_validate ei h >>=? λ ok. some (ok && check_network_mask ei h.ip_src))))
