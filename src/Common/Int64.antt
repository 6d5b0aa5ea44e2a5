-- ===== src/Common/Int64.antt =====
-- The int64 of Go as its bit pattern, a number below 2 ^ 64.
use Prim.Native.Nat.{ℕ, ◌+◌, ◌-◌, ◌*◌, ◌/◌, ◌%◌, ◌^◌}
use mathlib.Core.Bool.{Bool}
use mathlib.Core.List.{◌∷◌}
use contest_sync.Common.Tests.{ltb, if◌then◌else◌}
use contest_sync.Common.Text.{Bytes, itoa}

unfoldable pub add64 : ℕ → ℕ → ℕ
add64 a b = (a + b) % 2 ^ 64

unfoldable pub sub64 : ℕ → ℕ → ℕ
sub64 a b = (a + (2 ^ 64 - b)) % 2 ^ 64

unfoldable pub mul64 : ℕ → ℕ → ℕ
mul64 a b = a * b % 2 ^ 64

-- the signed comparison
unfoldable pub lt64 : ℕ → ℕ → Bool
lt64 a b = ltb ((a + 2 ^ 63) % 2 ^ 64) ((b + 2 ^ 63) % 2 ^ 64)

-- the quotient by a positive number, rounded down
unfoldable pub floor64 : ℕ → ℕ → ℕ
floor64 a n = if ltb a (2 ^ 63) then a / n else (2 ^ 64 - (2 ^ 64 - a + (n - 1)) / n) % 2 ^ 64

-- the format "%d"
unfoldable pub itoa64 : ℕ → Bytes
itoa64 a = if ltb a (2 ^ 63) then itoa a else b'-' ∷ itoa (2 ^ 64 - a)
