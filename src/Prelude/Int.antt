-- ===== src/Prelude/Int.antt =====
-- Signed integers over the native numbers; the program only carries and compares them.
use Prim.Native.Nat.{ℕ, ◌+◌, ◌-◌, ◌^◌}
use mathlib.Core.Path.{◌≡◌, refl, ap}
use native.Mathlib.Omega.{arith}
use mathlib.Core.Bool.{Bool, true, false}
use llm_inference_logger.Prelude.Tests.{ltb, if◌then◌else◌}

-- `negsuc n` is -(n + 1).
pub data ℤ : Type 0 where
  pos : ℕ → ℤ
  negsuc : ℕ → ℤ

-- `z >= 0`
abbrev pub is_nonneg : ℤ → Bool
is_nonneg (pos n) = true
is_nonneg (negsuc n) = false

-- Whether `z` is a value of a 32-bit INTEGER column.
abbrev pub fits_int4 : ℤ → Bool
fits_int4 (pos n) = ltb n (2 ^ 31)
fits_int4 (negsuc n) = ltb n (2 ^ 31)

-- `m - n` on naturals, as an integer
abbrev pub nat_sub : ℕ → ℕ → ℤ
nat_sub m n = if ltb m n then negsuc (n - m - 1) else pos (m - n)

abbrev pub ◌+ℤ◌ : ℤ → ℤ → ℤ
pos m +ℤ pos n = pos (m + n)
pos m +ℤ negsuc n = nat_sub m (n + 1)
negsuc m +ℤ pos n = nat_sub n (m + 1)
negsuc m +ℤ negsuc n = negsuc (m + n + 1)

infixl 6 ◌+ℤ◌
-- `now() - t` for times that are naturals, and the tests on the difference
abbrev pub above : ℕ → ℤ → Bool
above m (pos n) = ltb m n
above m (negsuc n) = false

pub add_commℤ : (x y : ℤ) → x +ℤ y ≡ y +ℤ x
add_commℤ (pos m) (pos n) = ap pos (omega arith)
add_commℤ (pos m) (negsuc n) = refl
add_commℤ (negsuc m) (pos n) = refl
add_commℤ (negsuc m) (negsuc n) = ap negsuc (omega arith)

pub add_assocℤ : (x y z : ℤ) → (x +ℤ y) +ℤ z ≡ x +ℤ (y +ℤ z)
add_assocℤ (pos m) (pos n) (pos k) = ground arith
add_assocℤ (pos m) (pos n) (negsuc k) = ground arith
add_assocℤ (pos m) (negsuc n) (pos k) = ground arith
add_assocℤ (pos m) (negsuc n) (negsuc k) = ground arith
add_assocℤ (negsuc m) (pos n) (pos k) = ground arith
add_assocℤ (negsuc m) (pos n) (negsuc k) = ground arith
add_assocℤ (negsuc m) (negsuc n) (pos k) = ground arith
add_assocℤ (negsuc m) (negsuc n) (negsuc k) = ground arith
