-- ===== src/Base/Words.antt =====
-- u16, u32, u64 and i32 arithmetic as the source writes it: `wrapping_add`, `wrapping_sub`, `as`.
use Prim.Native.Nat.{ℕ, suc, ◌+◌, ◌-◌, ◌%◌, ◌<◌}
use mathlib.Core.Bool.{Bool, false}
use proxyengine.Base.Tests.{leb, if◌then◌else◌}

abbrev pub u16_mod : ℕ
u16_mod = 65536

abbrev pub u32_mod : ℕ
u32_mod = 4294967296

abbrev pub u64_mod : ℕ
u64_mod = 18446744073709551616

abbrev pub wrapping_add : ℕ → ℕ → ℕ
wrapping_add a b = (a + b) % u32_mod

-- Operands lie below 2^32.
abbrev pub wrapping_sub : ℕ → ℕ → ℕ
wrapping_sub a b = (a + u32_mod - b) % u32_mod

-- An i32: `negsuc n` is -(n + 1).
pub data ℤ : Type 0 where
  pos : ℕ → ℤ
  negsuc : ℕ → ℤ

-- a as i32 - b as i32, for a and b below 2^31.
abbrev pub sub_i32 : ℕ → ℕ → ℤ
sub_i32 a b = if leb b a then pos (a - b) else negsuc (b - a - 1)

-- The two uses of `c2s_inserted_bytes`: `wrapping_add(n as u32)` for n >= 0, and
-- `wrapping_sub((-n) as u32)` below; and the other way round.
abbrev pub shift_up : ℕ → ℤ → ℕ
shift_up a (pos n) = wrapping_add a n
shift_up a (negsuc n) = wrapping_sub a (suc n)

abbrev pub shift_down : ℕ → ℤ → ℕ
shift_down a (pos n) = wrapping_sub a n
shift_down a (negsuc n) = wrapping_add a (suc n)

-- An i32 in range, so that both parts fit a u32.
abbrev pub IsI32 : ℤ → Type 0
IsI32 (pos n) = n < 2147483648
IsI32 (negsuc n) = n < 2147483648

abbrev pub is_zero : ℤ → Bool
is_zero (pos n) = leb n 0
is_zero (negsuc n) = false
