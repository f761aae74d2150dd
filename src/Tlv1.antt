-- ===== src/Tlv1.antt =====
-- eigrpd/eigrp_tlv1.c: the codec of classic metrics.
pub mod Parts
pub mod Codec
pub mod Bytes
pub mod Misread
pub mod Refused
pub mod Advance
use eigrpd.Base.{ℕ, Option, none, some, ◌==◌, if◌then◌else◌}
use eigrpd.Receive.{tlv_ipv4_ext}
use eigrpd.Tlv2.{tlv_ipv4_int}

abbrev pub nexthop_size : ℕ
nexthop_size = 4

-- EIGRP_TLV1_METRIC_SIZE and EIGRP_TLV1_EXTDATA_SIZE
abbrev pub classic_metric_size : ℕ
classic_metric_size = 16

abbrev pub classic_extdata_size : ℕ
classic_extdata_size = 20

-- EIGRP_IPV4_INT_MIN_TLV and EIGRP_IPV4_EXT_MIN_TLV, by type.
abbrev pub classic_min_length : ℕ → Option ℕ
classic_min_length type =
    if type == tlv_ipv4_int then some 25 else if type == tlv_ipv4_ext then some 45 else none
