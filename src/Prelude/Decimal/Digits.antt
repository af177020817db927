-- ===== src/Prelude/Decimal/Digits.antt =====
-- The characters of a printed number.
use Prim.Native.Nat.{ℕ, zero, suc, ◌≤◌, ◌<◌, ◌/◌, ◌%◌}
use Prim.Native.Char.{code}
use Prim.Native.String.append
use Prim.Native.String.{String, ◌++◌ as ◌<>◌}
use mathlib.Core.Path.{◌≡◌, ap, ◌∙◌}
use mathlib.Core.Bool.{Bool, true, false}
use mathlib.Core.Logic.{inl, inr}
use mathlib.Core.List.{◌∷◌, ◌++◌}
use native.Mathlib.Omega.{arith}
use llm_inference_logger.Prelude.Tests.{Bool-cases, ltb, ltb→lt, if◌then◌else◌, ◌==◌}
use llm_inference_logger.Prelude.Lists.{All, All-append}
use llm_inference_logger.Prelude.Strings.{codes}
use llm_inference_logger.Prelude.Decimal.{digit, decimal, decimal_loop}

abbrev IsDigit : ℕ → Type 0
IsDigit c = (48 ≤ c) × (c ≤ 57)

codes-append : (a b : String) → codes (a <> b) ≡ codes a ++ codes b
codes-append String.[] b = ap codes (append.nil b)
codes-append (String.◌∷◌ c a) b =
    ap codes (append.cons c a b) ∙ ap (◌∷◌ (code c)) (codes-append a b)

if_digits :
    (b : Bool) (x y : String)
    → All IsDigit (codes x)
    → All IsDigit (codes y)
    → All IsDigit (codes (if b then x else y))
if_digits true x y h k = h
if_digits false x y h k = k

IsDigit-one : (n : ℕ) → n < 10 → All IsDigit (codes (digit n))
unfolding digit
IsDigit-one n h =
    if_digits (n == 0) "0" _ ((omega arith, omega arith), tt)
      (if_digits (n == 1) "1" _ ((omega arith, omega arith), tt)
        (if_digits (n == 2) "2" _ ((omega arith, omega arith), tt)
          (if_digits (n == 3) "3" _ ((omega arith, omega arith), tt)
            (if_digits (n == 4) "4" _ ((omega arith, omega arith), tt)
              (if_digits (n == 5) "5" _ ((omega arith, omega arith), tt)
                (if_digits (n == 6) "6" _ ((omega arith, omega arith), tt)
                  (if_digits (n == 7) "7" _ ((omega arith, omega arith), tt)
                    (if_digits (n == 8) "8" _ ((omega arith, omega arith), tt)
                      (((omega arith, omega arith), tt))))))))))

decimal_loop-digits : (fuel n : ℕ) → All IsDigit (codes (decimal_loop fuel n))
unfolding decimal_loop
decimal_loop-digits zero n = tt
decimal_loop-digits (suc fuel) n = elim (Bool-cases (ltb n 10)) [
  | inl e ↦ rw e (IsDigit-one n (ltb→lt n 10 e))
  | inr e ↦
      rw (e, codes-append (decimal_loop fuel (n / 10)) (digit (n % 10)))
        (All-append IsDigit (codes (decimal_loop fuel (n / 10))) (codes (digit (n % 10)))
          (decimal_loop-digits fuel (n / 10)) (IsDigit-one (n % 10) (omega arith)))
]

pub decimal-digits : (n : ℕ) → All IsDigit (codes (decimal n))
unfolding decimal
decimal-digits n = decimal_loop-digits (suc n) n
