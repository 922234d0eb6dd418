-- ===== src/Prelude/Integer.antt =====
-- Go's int, as far as it is counted up and down.
use Prim.Native.Nat.{ℕ, zero, suc}
use mathlib.Core.Bool.{Bool, true, false}

pub data ℤ : Type 0 where
  pos : ℕ → ℤ
  negsuc : ℕ → ℤ

-- `n++`.
abbrev pub increase : ℤ → ℤ
increase (pos n) = pos (suc n)
increase (negsuc zero) = pos 0
increase (negsuc (suc n)) = negsuc n

-- `n--`.
abbrev pub decrease : ℤ → ℤ
decrease (pos zero) = negsuc 0
decrease (pos (suc n)) = pos n
decrease (negsuc n) = negsuc (suc n)

-- `n == 1`.
abbrev pub is_one : ℤ → Bool
is_one (pos (suc zero)) = true
is_one _ = false

-- `n < 1`.
abbrev pub below_one : ℤ → Bool
below_one (pos (suc n)) = false
below_one _ = true
