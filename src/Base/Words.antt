-- ===== src/Base/Words.antt =====
-- Fixed-width unsigned integers: a plain number, with the wrap written out.
use Prim.Native.Nat.{ℕ, ◌%◌, ◌/◌}
use mathlib.Core.Option.{Option, none, some}
use eigrpd.Base.Tests.{◌==◌, if◌then◌else◌}

abbrev pub u8 : ℕ → ℕ
u8 n = n % 256

abbrev pub u16 : ℕ → ℕ
u16 n = n % 65536

abbrev pub u32 : ℕ → ℕ
u32 n = n % 4294967296

abbrev pub u64 : ℕ → ℕ
u64 n = n % 18446744073709551616

-- C's `/` on unsigned operands; the fault is a division by zero.
abbrev pub div_int : ℕ → ℕ → Option ℕ
div_int a b = if b == 0 then none else some (a / b)
