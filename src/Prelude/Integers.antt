-- ===== src/Prelude/Integers.antt =====
-- The integers over the native numbers, under the library's names, as far as signed fields of C need them.
use Prim.Native.Nat.{ℕ, ◌-◌}
use mathlib.Core.Bool.{Bool, true, false, ◌&&◌}
use sirah_c.Prelude.Tests.{ltb, leb}

pub data ℤ : Type 0 where
  pos : ℕ → ℤ
  negsuc : ℕ → ℤ

-- `a <= n && n <= b`, for a lower bound that is not negative.
abbrev pub is_between : ℕ → ℕ → ℤ → Bool
is_between a b (pos n) = leb a n && leb n b
is_between a b (negsuc n) = false

-- `n >= i`, `n > i` and `n < i` of a count and a signed number.
abbrev pub at_least : ℕ → ℤ → Bool
at_least n (pos i) = leb i n
at_least n (negsuc i) = true

abbrev pub above : ℕ → ℤ → Bool
above n (pos i) = ltb i n
above n (negsuc i) = true

abbrev pub below : ℕ → ℤ → Bool
below n (pos i) = ltb n i
below n (negsuc i) = false

-- `i - n`, and 0 where that is negative.
abbrev pub excess : ℤ → ℕ → ℕ
excess (pos i) n = i - n
excess (negsuc i) n = 0
