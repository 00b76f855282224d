-- ===== src/Common/Cint.antt =====
-- The `int` results of C functions: signed numbers, of which the code tests the sign and
-- whether they are zero. Pointers are numbers, with `NULL` as 0.
use Prim.Native.Nat.{ℕ}
use mathlib.Core.Path.{◌≡◌}
use mathlib.Core.Bool.{Bool, true, false}
use native.Mathlib.Omega.{arith}
use rdma_cpp.Common.Tests.{◌==◌, if◌then◌else◌}

-- `negsuc n` is -(n + 1).
pub data ℤ : Type 0 where
  pos : ℕ → ℤ
  negsuc : ℕ → ℤ

abbrev pub minus_one : ℤ
minus_one = negsuc 0

-- `r == 0`
abbrev pub is_zero : ℤ → Bool
is_zero (pos n) = n == 0
is_zero (negsuc n) = false

-- `if (r)`
abbrev pub is_set : ℤ → Bool
is_set (pos n) = if n == 0 then false else true
is_set (negsuc n) = true

-- `r < 0`
abbrev pub is_neg : ℤ → Bool
is_neg (pos n) = false
is_neg (negsuc n) = true

-- `r == -1`
abbrev pub is_minus_one : ℤ → Bool
is_minus_one (pos n) = false
is_minus_one (negsuc n) = n == 0

abbrev pub Ptr : Type 0
Ptr = ℕ

abbrev pub null : Ptr
null = 0

-- `!p`
abbrev pub is_null : Ptr → Bool
is_null p = p == 0

pub eq_zero_of_is_zero : (r : ℤ) → is_zero r ≡ true → r ≡ pos 0
eq_zero_of_is_zero (pos n) h = ground arith
eq_zero_of_is_zero (negsuc n) h = ground arith

pub eq_zero_of_is_set : (r : ℤ) → is_set r ≡ false → r ≡ pos 0
eq_zero_of_is_set (pos n) h = ground arith
eq_zero_of_is_set (negsuc n) h = ground arith
