-- ===== src/Tests/Packet.antt =====
-- Sequence numbers where they come round, and the walk over a packet.
use eigrpd.Packet.Framing.{Framing, framed, auth_tlv_find}
use eigrpd.Packet.Bounds.{Readable, IsInside, auth_tlv_find-IsInside}
use eigrpd.Base.{
  ◌≡◌, ℕ, Option, some, none, true, refl, ltb, ◌==◌, if◌then◌else◌, ◌≢◌, ◌≤◌, ◌<◌, arith,
}
use eigrpd.Packet.{sequence_reserve, reserved}
use eigrpd.Packet.Sequence.{sequence_reserve-distinct}

sequence_reserve-distinct_example :
    (1 ≤ (sequence_reserve (reserved 0 4294967295)).0)
    × ((sequence_reserve (reserved 0 4294967295)).0 < 4294967296)
    × ((sequence_reserve (reserved 0 4294967295)).0 ≢ (sequence_reserve (reserved 1 4294967295)).0)
sequence_reserve-distinct_example =
    sequence_reserve-distinct 0 1 4294967295 (omega arith) (omega arith) (omega arith) (omega arith)

-- A packet of one authentication TLV with four bytes behind its header.
abbrev byte_at : ℕ → ℕ
byte_at i = if i == 21 then 2 else if i == 23 then 8 else 0

abbrev packet : ℕ → Option ℕ
packet i = if ltb i 28 then some (byte_at i) else none

packet-Readable : Readable packet 28
packet-Readable i h = (byte_at i, ground arith, ground arith)

finds_auth : auth_tlv_find packet 28 ≡ some (framed (some 20) true)
unfolding auth_tlv_find
finds_auth = refl

auth_tlv_find-IsInside_example : (r : Framing) × (auth_tlv_find packet 28 ≡ some r) × IsInside 28 r
auth_tlv_find-IsInside_example = auth_tlv_find-IsInside packet 28 packet-Readable (omega arith)
