-- ===== src/Prelude/Int.antt =====
-- Go's `int` and `int64`: integers with the wrap-around of two's complement, over the native numbers.
use free_model_router.Prelude.Tests.{ltb, ◌==◌, if◌then◌else◌}
use Prim.Native.Nat.{ℕ, zero, suc, ◌+◌}
use mathlib.Core.Bool.{Bool, true, false}

-- `negsuc n` is -(n + 1).
pub data ℤ : Type 0 where
  pos : ℕ → ℤ
  negsuc : ℕ → ℤ

abbrev pub max_int64 : ℕ
max_int64 = 9223372036854775807

-- `x++` on a 64-bit integer, which wraps at the top.
abbrev pub suc_int64 : ℤ → ℤ
suc_int64 (pos n) = if n == max_int64 then negsuc max_int64 else pos (n + 1)
suc_int64 (negsuc zero) = pos 0
suc_int64 (negsuc (suc n)) = negsuc n

-- `x--` on a 64-bit integer, which wraps at the bottom.
abbrev pub pred_int64 : ℤ → ℤ
pred_int64 (pos zero) = negsuc 0
pred_int64 (pos (suc n)) = pos n
pred_int64 (negsuc n) = if n == max_int64 then pos max_int64 else negsuc (n + 1)

-- `a < b`
abbrev pub ltb_ℤ : ℤ → ℤ → Bool
ltb_ℤ (pos a) (pos b) = ltb a b
ltb_ℤ (pos a) (negsuc b) = false
ltb_ℤ (negsuc a) (pos b) = true
ltb_ℤ (negsuc a) (negsuc b) = ltb b a

-- `a == b`
abbrev pub eq_ℤ : ℤ → ℤ → Bool
eq_ℤ (pos a) (pos b) = a == b
eq_ℤ (negsuc a) (negsuc b) = a == b
eq_ℤ (pos a) (negsuc b) = false
eq_ℤ (negsuc a) (pos b) = false

-- `0 < a`
abbrev pub is_positive : ℤ → Bool
is_positive (pos n) = ltb 0 n
is_positive (negsuc n) = false

-- The number that a positive integer is, and 0 for any other.
abbrev pub to_ℕ : ℤ → ℕ
to_ℕ (pos n) = n
to_ℕ (negsuc n) = 0
