-- ===== src/Tlv2.antt =====
-- eigrpd/eigrp_tlv2.c: the codec of wide metrics.
pub mod Parts
pub mod Codec
pub mod Bytes
pub mod Layout
pub mod RoundTrip
pub mod Advance
use eigrpd.Base.{ℕ, Option, none, some, ◌==◌, if◌then◌else◌}

abbrev pub tlv_mp_int : ℕ
tlv_mp_int = 0x0602

abbrev pub tlv_mp_ext : ℕ
tlv_mp_ext = 0x0603

abbrev pub tlv_ipv4_int : ℕ
tlv_ipv4_int = 0x0102

abbrev pub af_ipv4 : ℕ
af_ipv4 = 1

abbrev pub header_ext_size : ℕ
header_ext_size = 8

abbrev pub metric_size : ℕ
metric_size = 24

abbrev pub extdata_size : ℕ
extdata_size = 16

abbrev pub inaccessible : ℕ
inaccessible = 0xffffffffffff

-- EIGRP_TLV2_INT_MIN_TLV and EIGRP_TLV2_EXT_MIN_TLV, by type.
abbrev pub min_length : ℕ → Option ℕ
min_length type =
    if type == tlv_mp_int then some 37 else if type == tlv_mp_ext then some 53 else none
