-- ===== src/Base/Words.antt =====
-- Unsigned 64-bit words, and signed ones by their two's complement bit pattern.
use Prim.Native.Nat.{ℕ, ◌+◌, ◌-◌, ◌*◌, ◌%◌, ◌≤◌, ◌<◌}
use mathlib.Core.Path.{◌≡◌}
use native.Mathlib.Omega.{arith}

abbrev pub word : ℕ
word = 18446744073709551616

-- The first bit pattern of a negative `int64_t`.
abbrev pub sign_bit : ℕ
sign_bit = 9223372036854775808

unfoldable pub add64 : ℕ → ℕ → ℕ
add64 a b = (a + b) % word

unfoldable pub sub64 : ℕ → ℕ → ℕ
sub64 a b = (a + word - b) % word

unfoldable pub mul64 : ℕ → ℕ → ℕ
mul64 a b = (a * b) % word

pub add64_lem : (a b : ℕ) → a + b < word → add64 a b ≡ a + b
unfolding add64
add64_lem a b h = omega arith

pub sub64_lem : (a b : ℕ) → b ≤ a → a < word → sub64 a b ≡ a - b
unfolding sub64
sub64_lem a b h k = omega arith

pub mul64_lem : (a b : ℕ) → a * b < word → mul64 a b ≡ a * b
unfolding mul64
mul64_lem a b h = omega arith
