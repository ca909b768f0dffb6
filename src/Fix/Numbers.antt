-- ===== src/Fix/Numbers.antt =====
-- libs/fix/fix_parser.hpp: reading back the decimal digits of a number.
use hft_orderbook_benchmark.Common.{
  ℕ, zero, suc, ◌+◌, ◌*◌, ◌/◌, ◌%◌, ◌^◌, ◌≤◌, ◌<◌, ◌≡◌, ◌≢◌, refl, ap, ◌∙◌, true, false, [], ◌∷◌,
  some, ltb, arith, All, Bool-cases, inl, inr, is_empty, max_u64, length,
}
use hft_orderbook_benchmark.Fix.Text.{
  Bytes, soh, is_digit, number, in_u64, from_chars, decimal_fuel, print_number,
}

number-digit :
    (acc d : ℕ) (cs : Bytes) → d < 10 → number acc ((b'0' + d) ∷ cs) ≡ number (acc * 10 + d) cs
unfolding number is_digit
number-digit acc d cs h = ground arith

number_same : (m n : ℕ) (out : Bytes) → m ≡ n → number m out ≡ number n out
number_same m n out e = ap (λ k. number k out) e

tenth : (n f : ℕ) → n < 10 ^ suc f → n / 10 < 10 ^ f
tenth n f h = let e : 10 ^ suc f ≡ 10 ^ f * 10 = grind arith in omega (arith, e)

-- The digits of `n` in front of `out` are read as `n`.
number-decimal_fuel :
    (f n : ℕ) (out : Bytes) → n < 10 ^ suc f → number 0 (decimal_fuel (suc f) n out) ≡ number n out
unfolding decimal_fuel
number-decimal_fuel zero n out h =
    let e : ltb n 10 ≡ true = ground arith in
    rw e (number-digit 0 n out h ∙ number_same (0 * 10 + n) n out (omega arith))
number-decimal_fuel (suc f) n out h = elim (Bool-cases (ltb n 10)) [
  | inl e ↦
      rw e (number-digit 0 n out (ground arith) ∙ number_same (0 * 10 + n) n out (omega arith))
  | inr e ↦ rw e (
      number-decimal_fuel f (n / 10) ((b'0' + n % 10) ∷ out) (tenth n (suc f) h)
      ∙ number-digit (n / 10) (n % 10) out (omega arith)
      ∙ number_same (n / 10 * 10 + n % 10) n out (omega arith))
]

-- What holds of digits and of `out` holds of the whole.
All-decimal_fuel :
    (f n : ℕ) (out : Bytes) → All (λ c. c ≢ soh) out → All (λ c. c ≢ soh) (decimal_fuel f n out)
unfolding decimal_fuel
All-decimal_fuel zero n out h = h
All-decimal_fuel (suc f) n out h = elim (Bool-cases (ltb n 10)) [
  | inl e ↦ rw e ((λ w. omega arith), h)
  | inr e ↦ rw e (All-decimal_fuel f (n / 10) ((b'0' + n % 10) ∷ out) ((λ w. omega arith), h))
]

is_empty-decimal_fuel :
    (f n : ℕ) (c : ℕ) (out : Bytes) → is_empty (decimal_fuel f n (c ∷ out)) ≡ false
unfolding decimal_fuel
is_empty-decimal_fuel zero n c out = refl
is_empty-decimal_fuel (suc f) n c out =
    ground (arith, is_empty-decimal_fuel f (n / 10) (b'0' + n % 10) (c ∷ out))

pub print_number-All : (n : ℕ) → All (λ c. c ≢ soh) (print_number n)
unfolding print_number
print_number-All n = All-decimal_fuel 20 n [] tt

pub is_empty-print_number : (n : ℕ) → is_empty (print_number n) ≡ false
unfolding print_number
is_empty-print_number n = ground (arith, is_empty-decimal_fuel 19 (n / 10) (b'0' + n % 10) [])

from_chars-filled : (v : Bytes) → is_empty v ≡ false → from_chars v ≡ in_u64 (number 0 v)
unfolding from_chars
from_chars-filled [] h = absurd (cc)
from_chars-filled (c ∷ v) h = refl

print_read : (n : ℕ) → n ≤ max_u64 → number 0 (print_number n) ≡ some n
unfolding print_number number
print_read n h = number-decimal_fuel 19 n [] (omega arith)

-- A 64-bit number that is printed is read back.
pub from_chars-print_number : (n : ℕ) → n ≤ max_u64 → from_chars (print_number n) ≡ some n
from_chars-print_number n h =
    from_chars-filled (print_number n) (is_empty-print_number n)
    ∙ rw (print_read n h) (ground arith)

length-decimal_fuel : (f n : ℕ) (out : Bytes) → length (decimal_fuel f n out) ≤ f + length out
unfolding decimal_fuel
length-decimal_fuel zero n out = omega arith
length-decimal_fuel (suc f) n out =
    ground (arith, length-decimal_fuel f (n / 10) ((b'0' + n % 10) ∷ out))

pub length-print_number : (n : ℕ) → length (print_number n) ≤ 20
unfolding print_number
length-print_number n = omega (arith, length-decimal_fuel 20 n [])
