-- ===== src/Text/Number/Length.antt =====
-- How long the decimal text of an `int` is.
use cmput.Common.{
  ℕ, zero, suc, ◌+◌, ◌*◌, ◌/◌, ◌%◌, ◌≤◌, ◌<◌, ltb, ◌∷◌, [], arith, ℤ, pos, negsuc, IsInt, length,
  Bool-cases, inl, inr,
}
use cmput.Text.{Bytes}
use cmput.Text.Number.{print_digits, print_nat, to_string}

abbrev power_of_ten : ℕ → ℕ
power_of_ten zero = 1
power_of_ten (suc k) = 10 * power_of_ten k

length-print_digits :
    (f n k : ℕ) (out : Bytes)
    → n < power_of_ten (suc k)
    → length (print_digits f n out) ≤ suc k + length out
unfolding print_digits
length-print_digits zero n k out h = omega arith
length-print_digits (suc f) n zero out h = ground arith
length-print_digits (suc f) n (suc k) out h = elim (Bool-cases (ltb n 10)) [
  | inl e ↦ rw e (omega arith)
  | inr e ↦
      let rest = length-print_digits f (n / 10) k ((b'0' + n % 10) ∷ out) (omega arith) in
      rw e (omega (arith, rest))
]

pub length-to_string : (z : ℤ) → IsInt z → length (to_string z) ≤ 11
unfolding to_string print_nat
length-to_string (pos n) h = omega (arith, length-print_digits (suc n) n 9 [] (omega arith))
length-to_string (negsuc n) h =
    omega (arith, length-print_digits (suc (suc n)) (suc n) 9 [] (omega arith))
