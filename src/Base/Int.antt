-- ===== src/Base/Int.antt =====
-- `int` results, as integers: a C function returns a value, or a negated error number.
use Prim.Native.Nat.{ℕ, ◌-◌, ◌^◌}
use kernel.Base.Tests.{ltb, if◌then◌else◌}

-- `negsuc n` is -(n + 1).
pub data ℤ : Type 0 where
  pos : ℕ → ℤ
  negsuc : ℕ → ℤ

-- A 32-bit word read as an `int`.
abbrev pub int_of : ℕ → ℤ
int_of w = if ltb w (2 ^ 31) then pos w else negsuc (2 ^ 32 - w - 1)

-- -e for an error number, which is positive.
abbrev pub minus : ℕ → ℤ
minus e = negsuc (e - 1)
