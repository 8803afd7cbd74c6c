-- ===== src/Common/Word.antt =====
-- uint64 arithmetic: numbers below 2^64, with wrap-around.
use Prim.Native.Nat.{ℕ, ◌+◌, ◌-◌, ◌%◌, ◌≤◌, ◌<◌}
use mathlib.Core.Path.{◌≡◌}
use native.Mathlib.Omega.{arith}

abbrev pub modulus : ℕ
modulus = 18446744073709551616

unfoldable pub add64 : ℕ → ℕ → ℕ
add64 a b = (a + b) % modulus

unfoldable pub sub64 : ℕ → ℕ → ℕ
sub64 a b = (a + (modulus - b)) % modulus

pub add64_exact : (a b : ℕ) → a + b < modulus → add64 a b ≡ a + b
unfolding add64
add64_exact a b h = omega arith

pub sub64_exact : (a b : ℕ) → b ≤ a → a < modulus → sub64 a b ≡ a - b
unfolding sub64
sub64_exact a b le h = omega arith
