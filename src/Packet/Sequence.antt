-- ===== src/Packet/Sequence.antt =====
-- Sequence numbers are nonzero and come round as late as 32 bits allow.
use eigrpd.Base.{ℕ, zero, suc, ◌+◌, ◌-◌, ◌%◌, ◌≤◌, ◌<◌, ◌≡◌, ◌≢◌, arith}
use eigrpd.Packet.{sequence_reserve, reserved}

step : (x : ℕ) → (sequence_reserve (x % 4294967295 + 1)).1 ≡ (x + 1) % 4294967295 + 1
unfolding sequence_reserve
step x = ground arith

reserved-eq : (k n : ℕ) → 1 ≤ n → n < 4294967296 → reserved k n ≡ (n - 1 + k) % 4294967295 + 1
unfolding reserved
reserved-eq zero n p q = ground arith
reserved-eq (suc k) n p q = rw (reserved-eq k n p q, step (n - 1 + k)) (omega arith)

-- The numbers that are reserved, one after the other, from a nonzero 32-bit one are nonzero and fit
-- in 32 bits, and two reservations less than 2 ^ 32 - 1 apart get different ones.
pub sequence_reserve-distinct :
    (i j n : ℕ)
    → 1 ≤ n
    → n < 4294967296
    → i < j
    → j - i < 4294967295
    → (1 ≤ (sequence_reserve (reserved i n)).0)
      × ((sequence_reserve (reserved i n)).0 < 4294967296)
      × ((sequence_reserve (reserved i n)).0 ≢ (sequence_reserve (reserved j n)).0)
unfolding sequence_reserve
sequence_reserve-distinct i j n p q less near =
    rw (reserved-eq i n p q, reserved-eq j n p q)
      (ground arith, ground arith, λ e. ground (arith, e))
