-- ===== src/Packet.antt =====
-- eigrpd/eigrp_packet.c: the sequence numbers of reliable packets.
pub mod Sequence
pub mod Framing
pub mod Bounds
pub mod Verify
use eigrpd.Base.{ℕ, zero, suc, ◌+◌, ◌==◌, if◌then◌else◌, u32}

-- The increment of `sequence_number`, 32 bits wide, which passes over 0.
pub next_sequence : ℕ → ℕ
next_sequence n = let m = u32 (n + 1) in if m == 0 then 1 else m

-- eigrp_packet_sequence_reserve: the number that is reserved, and the instance's next one.
pub sequence_reserve : ℕ → ℕ × ℕ
unfolding next_sequence
sequence_reserve n = let sequence = if n == 0 then 1 else n in (sequence, next_sequence sequence)

-- The instance's number after so many reservations.
pub reserved : ℕ → ℕ → ℕ
unfolding sequence_reserve
reserved zero n = n
reserved (suc k) n = (sequence_reserve (reserved k n)).1
