-- ===== src/Base/Words.antt =====
-- `uint32_t` arithmetic, with its wrap-around written out.
use Prim.Native.Nat.{ℕ, ◌+◌, ◌-◌, ◌%◌, ◌^◌, ◌≤◌, ◌<◌}
use mathlib.Core.Path.{◌≡◌}
use native.Mathlib.Omega.{arith}

unfoldable pub add32 : ℕ → ℕ → ℕ
add32 a b = (a + b) % 2 ^ 32

unfoldable pub sub32 : ℕ → ℕ → ℕ
sub32 a b = (a + 2 ^ 32 - b) % 2 ^ 32

-- `(uint32_t)-1`, which is how an `int` -1 is stored.
abbrev pub minus_one : ℕ
minus_one = 2 ^ 32 - 1

pub add32_small : (a b : ℕ) → a + b < 2 ^ 32 → add32 a b ≡ a + b
unfolding add32
add32_small a b h = omega arith

pub sub32_small : (a b : ℕ) → b ≤ a → a < 2 ^ 32 → sub32 a b ≡ a - b
unfolding sub32
sub32_small a b h k = omega arith
