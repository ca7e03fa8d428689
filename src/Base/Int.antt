-- ===== src/Base/Int.antt =====
-- The C++ `int`: the integers, and the conversion of an `unsigned int` to one.
use Prim.Native.Nat.{ℕ, ◌-◌, ◌^◌}
use gemian_leds.Base.Tests.{ltb, if◌then◌else◌}

-- `negsuc n` is -(n + 1).
pub data ℤ : Type 0 where
  pos : ℕ → ℤ
  negsuc : ℕ → ℤ

-- The 32-bit pattern read as a two's complement number.
abbrev pub int_of_uint : ℕ → ℤ
int_of_uint n = if ltb n (2 ^ 31) then pos n else negsuc (2 ^ 32 - n - 1)
