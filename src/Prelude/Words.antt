-- ===== src/Prelude/Words.antt =====
-- Machine integers as native numbers, bit flags, and bytes in little-endian order.
use Prim.Native.Nat.{ℕ, ◌+◌, ◌-◌, ◌/◌, ◌%◌, ◌^◌}
use mathlib.Core.Bool.{Bool}
use mathlib.Core.List.{List, [], ◌∷◌}
use vdf.Prelude.Tests.{◌==◌, if◌then◌else◌}

-- Conversion to uint8_t, uint16_t, uint32_t and uint64_t.
abbrev pub u8 : ℕ → ℕ
u8 n = n % 256

abbrev pub u16 : ℕ → ℕ
u16 n = n % 65536

abbrev pub u32 : ℕ → ℕ
u32 n = n % 2 ^ 32

abbrev pub u64 : ℕ → ℕ
u64 n = n % 2 ^ 64

-- uint32_t a - b, for a, b below 2 ^ 32.
abbrev pub sub32 : ℕ → ℕ → ℕ
sub32 a b = (a + 2 ^ 32 - b) % 2 ^ 32

-- `w & bit`, `w | bit` and `w & ~bit` for a mask of one bit, written with its value 2 ^ k.
abbrev pub has : ℕ → ℕ → Bool
has w bit = w / bit % 2 == 1

abbrev pub set_bit : ℕ → ℕ → ℕ
set_bit w bit = if w / bit % 2 == 1 then w else w + bit

abbrev pub clear_bit : ℕ → ℕ → ℕ
clear_bit w bit = if w / bit % 2 == 1 then w - bit else w

-- `n & ~(m - 1)` for m a power of two.
abbrev pub align_down : ℕ → ℕ → ℕ
align_down n m = n - n % m

-- A value as it lies in memory.
abbrev pub le_16 : ℕ → List ℕ
le_16 v = u8 v ∷ u8 (v / 256) ∷ []

abbrev pub le_32 : ℕ → List ℕ
le_32 v = u8 v ∷ u8 (v / 256) ∷ u8 (v / 65536) ∷ u8 (v / 16777216) ∷ []
