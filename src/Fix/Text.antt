-- ===== src/Fix/Text.antt =====
-- What the parser uses of `std::string_view`, `std::isdigit`, `std::from_chars` and `snprintf`.
use hft_orderbook_benchmark.Common.{
  ℕ, zero, suc, ◌+◌, ◌-◌, ◌*◌, ◌/◌, ◌%◌, Bool, true, false, ◌&&◌, List, [], ◌∷◌, Option, none, some,
  if◌then◌else◌, ltb, leb, ◌==◌, take, drop, max_u64,
}

abbrev pub Bytes : Type 0
Bytes = List ℕ

-- `SOH`, the separator of fields.
abbrev pub soh : ℕ
soh = 1

unfoldable pub starts_with : Bytes → Bytes → Bool
starts_with [] xs = true
starts_with (p ∷ ps) [] = false
starts_with (p ∷ ps) (x ∷ xs) = p == x && starts_with ps xs

abbrev pub later : Option ℕ → Option ℕ
later none = none
later (some i) = some (suc i)

-- `view.find(pattern)`, for a pattern that is not empty.
unfoldable pub find : Bytes → Bytes → Option ℕ
unfolding starts_with
find ps [] = none
find ps (x ∷ xs) = if starts_with ps (x ∷ xs) then some 0 else later (find ps xs)

abbrev pub shifted : ℕ → Option ℕ → Option ℕ
shifted n none = none
shifted n (some i) = some (n + i)

-- `view.find(c, position)`.
unfoldable pub find_from : ℕ → ℕ → Bytes → Option ℕ
unfolding find
find_from c n xs = shifted n (find (c ∷ []) (drop n xs))

-- `view.substr(position, count)`.
unfoldable pub substr : ℕ → ℕ → Bytes → Bytes
substr n count xs = take count (drop n xs)

-- `==` on views.
unfoldable pub same : Bytes → Bytes → Bool
same [] [] = true
same [] (y ∷ ys) = false
same (x ∷ xs) [] = false
same (x ∷ xs) (y ∷ ys) = x == y && same xs ys

unfoldable pub is_digit : ℕ → Bool
is_digit c = leb b'0' c && leb c b'9'

-- The number that digits stand for, if all are digits.
unfoldable pub number : ℕ → Bytes → Option ℕ
unfolding is_digit
number acc [] = some acc
number acc (c ∷ cs) =
    let rest = number (acc * 10 + (c - b'0')) cs in if is_digit c then rest else none

abbrev pub in_u64 : Option ℕ → Option ℕ
in_u64 none = none
in_u64 (some n) = if leb n max_u64 then some n else none

-- `std::from_chars` into a `uint64_t` as the parser uses it: all bytes must be digits, there must be
-- one, and the number must fit; `none` stands for an error code and for bytes left over.
unfoldable pub from_chars : Bytes → Option ℕ
unfolding number
from_chars [] = none
from_chars (c ∷ cs) = in_u64 (number 0 (c ∷ cs))

-- `%d` of a tag: its decimal digits. A tag has at most ten.
unfoldable pub decimal_fuel : ℕ → ℕ → Bytes → Bytes
decimal_fuel zero n out = out
decimal_fuel (suc f) n out =
    let rest = decimal_fuel f (n / 10) ((b'0' + n % 10) ∷ out) in
    if ltb n 10 then (b'0' + n) ∷ out else rest

unfoldable pub decimal : ℕ → Bytes
unfolding decimal_fuel
decimal n = decimal_fuel 10 n []

-- `%d` and `PRIu64` of a number below 2^64, which has at most 20 digits.
unfoldable pub print_number : ℕ → Bytes
unfolding decimal_fuel
print_number n = decimal_fuel 20 n []
