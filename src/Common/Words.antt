-- ===== src/Common/Words.antt =====
-- Machine words as native numbers.
use Prim.Native.Nat.{ℕ, ◌+◌, ◌-◌, ◌*◌, ◌/◌, ◌%◌, ◌^◌}
use mathlib.Core.Bool.{Bool}
use l_ost.Common.Tests.{ltb, ◌==◌, if◌then◌else◌}

abbrev pub u8 : ℕ → ℕ
u8 n = n % 256

abbrev pub u16 : ℕ → ℕ
u16 n = n % 65536

abbrev pub u32 : ℕ → ℕ
u32 n = n % 2 ^ 32

-- `v & w` for a power of two `w`.
abbrev pub mask : ℕ → ℕ → ℕ
mask v w = v / w % 2 * w

-- What a one-bit field keeps of the value assigned to it.
abbrev pub bit_field : ℕ → Bool
bit_field v = v % 2 == 1

-- `a < b` on two `int` bit patterns.
abbrev pub slt : ℕ → ℕ → Bool
slt a b = ltb ((a + 2 ^ 31) % 2 ^ 32) ((b + 2 ^ 31) % 2 ^ 32)

-- A byte read as `char`, which is signed, and promoted: its pattern of 32 bits.
unfoldable pub promote : ℕ → ℕ
promote c = if ltb c 128 then c else c + 2 ^ 32 - 256
