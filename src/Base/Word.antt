-- ===== src/Base/Word.antt =====
-- Machine words as native numbers, with their wrap-around written out.
use Prim.Native.Nat.{ℕ, ◌+◌, ◌-◌, ◌%◌, ◌^◌}
use mathlib.Core.Bool.{Bool, not}
use esp_nmea_bridge_zephyr.Base.Tests.{ltb}

abbrev pub u8 : ℕ → ℕ
u8 n = n % 2 ^ 8

abbrev pub u16 : ℕ → ℕ
u16 n = n % 2 ^ 16

abbrev pub u32 : ℕ → ℕ
u32 n = n % 2 ^ 32

-- uint32_t a - b.
abbrev pub sub32 : ℕ → ℕ → ℕ
sub32 a b = (a + 2 ^ 32 - b % 2 ^ 32) % 2 ^ 32

-- `(int32_t)w < 0`: the sign bit of the two's complement pattern.
abbrev pub is_negative32 : ℕ → Bool
is_negative32 w = not (ltb w (2 ^ 31))

-- uint64_t a - b, which is the bit pattern of the int64_t difference too.
abbrev pub sub64 : ℕ → ℕ → ℕ
sub64 a b = (a + 2 ^ 64 - b % 2 ^ 64) % 2 ^ 64
