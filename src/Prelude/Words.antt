-- ===== src/Prelude/Words.antt =====
-- Go's `int` and `int64`: bit patterns below 2 ^ 64, read as two's complement by the orders.
use Prim.Native.Nat.{ℕ, ◌+◌, ◌-◌, ◌*◌, ◌%◌, ◌^◌, ◌≤◌, ◌<◌}
use mathlib.Core.Bool.{Bool}
use mathlib.Core.Path.{◌≡◌}
use native.Mathlib.Omega.{arith}
use p2papp.Prelude.Tests.{ltb, if◌then◌else◌}

abbrev pub word : ℕ
word = 2 ^ 64

abbrev pub half_word : ℕ
half_word = 2 ^ 63

unfoldable pub add64 : ℕ → ℕ → ℕ
add64 a b = (a + b) % word

unfoldable pub sub64 : ℕ → ℕ → ℕ
sub64 a b = (a + word - b % word) % word

-- a < b, as signed words.
unfoldable pub lt64 : ℕ → ℕ → Bool
lt64 a b = ltb ((a + half_word) % word) ((b + half_word) % word)

pub add64_small : (a b : ℕ) → a + b < half_word → add64 a b ≡ a + b
unfolding add64
add64_small a b h = omega arith

pub sub64_small : (a b : ℕ) → b ≤ a → a < half_word → sub64 a b ≡ a - b
unfolding sub64
sub64_small a b h k = omega arith

pub lt64_small : (a b : ℕ) → a < half_word → b < half_word → lt64 a b ≡ ltb a b
unfolding lt64
lt64_small a b h k = ground arith

unfoldable pub mul64 : ℕ → ℕ → ℕ
mul64 a b = a * b % word

-- The rounds of `for i := 0; i < n; i++`.
unfoldable pub rounds64 : ℕ → ℕ
rounds64 n = if lt64 0 n then n else 0
