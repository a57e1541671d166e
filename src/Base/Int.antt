-- ===== src/Base/Int.antt =====
-- Go's `int` where a value may be negative, over the native numbers (the library's ℤ stands on
-- the unary ones).
use Prim.Native.Nat.{ℕ, ◌-◌, ◌%◌, ◌^◌}
use mathlib.Core.Bool.{Bool, true, false}
use rekreativko_api.Base.Tests.{ltb, leb, if◌then◌else◌}

-- `negsuc n` is -(n + 1).
pub data ℤ : Type 0 where
  pos : ℕ → ℤ
  negsuc : ℕ → ℤ

-- `n < z`, and the value of a number that is not negative.
abbrev pub lt_ℤ : ℕ → ℤ → Bool
lt_ℤ n (pos m) = ltb n m
lt_ℤ n (negsuc m) = false

abbrev pub le_ℤ : ℤ → ℕ → Bool
le_ℤ (pos m) n = leb m n
le_ℤ (negsuc m) n = true

abbrev pub to_nat : ℤ → ℕ
to_nat (pos n) = n
to_nat (negsuc n) = 0

-- A product or sum that is computed in 64 bits, read as a signed number.
unfoldable pub int64 : ℕ → ℤ
int64 n = let w = n % 2 ^ 64 in if ltb w (2 ^ 63) then pos w else negsuc (2 ^ 64 - 1 - w)

-- `int8(n)`.
abbrev pub int8 : ℕ → ℤ
int8 n = let w = n % 256 in if ltb w 128 then pos w else negsuc (255 - w)
