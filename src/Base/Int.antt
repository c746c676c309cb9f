-- ===== src/Base/Int.antt =====
-- Signed integers, and the subtraction of two moments that Go's `time.Time.Sub` makes.
use sandcode.Base.Tests.{leb, ltb, if◌then◌else◌}
use Prim.Native.Nat.{ℕ, ◌+◌, ◌-◌, ◌^◌, min}
use mathlib.Core.Bool.{Bool, true, false}
use mathlib.Core.List.{List, ◌∷◌}
use sandcode.Base.Decimal.{itoa}

-- `negsuc n` is -(n + 1).
pub data ℤ : Type 0 where
  pos : ℕ → ℤ
  negsuc : ℕ → ℤ

abbrev pub max_duration : ℕ
max_duration = 2 ^ 63 - 1

-- The difference in nanoseconds as an int64, saturated at both ends.
unfoldable pub sub_time : ℕ → ℕ → ℤ
sub_time t u =
    if leb u t then pos (min (t - u) max_duration) else negsuc (min (u - t - 1) max_duration)

-- Go's `<` on signed integers.
unfoldable pub ltz : ℤ → ℤ → Bool
ltz (pos a) (pos b) = ltb a b
ltz (pos a) (negsuc b) = false
ltz (negsuc a) (pos b) = true
ltz (negsuc a) (negsuc b) = ltb b a

-- `%d` of a signed integer.
unfoldable pub show_int : ℤ → List ℕ
show_int (pos n) = itoa n
show_int (negsuc n) = b'-' ∷ itoa (n + 1)
