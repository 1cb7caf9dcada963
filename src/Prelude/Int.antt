-- ===== src/Prelude/Int.antt =====
-- JavaScript's `bigint`: `negsuc n` is -(n + 1).
use Prim.Native.Nat.{ℕ, suc}
use mathlib.Core.Bool.{Bool, true, false}

pub data ℤ : Type 0 where
  pos : ℕ → ℤ
  negsuc : ℕ → ℤ

-- `x < 0`
abbrev pub is_neg : ℤ → Bool
is_neg (pos n) = false
is_neg (negsuc n) = true

-- `x < 0 ? -x : x`
abbrev pub abs : ℤ → ℕ
abs (pos n) = n
abs (negsuc n) = suc n
