-- ===== src/Prelude/Ints.antt =====
-- The integers over the native ℕ, for signed values such as a time.Duration.
use Prim.Native.Nat.{ℕ, suc}
use mathlib.Core.Bool.{Bool, true, false}

pub data ℤ : Type 0 where
  pos : ℕ → ℤ
  negsuc : ℕ → ℤ

-- d <= 0
abbrev pub is_nonpositive : ℤ → Bool
is_nonpositive (pos ℕ.zero) = true
is_nonpositive (pos (suc n)) = false
is_nonpositive (negsuc n) = true

-- d < 0
abbrev pub is_negative : ℤ → Bool
is_negative (pos n) = false
is_negative (negsuc n) = true

-- The value of an integer that is not negative.
abbrev pub magnitude : ℤ → ℕ
magnitude (pos n) = n
magnitude (negsuc n) = 0
