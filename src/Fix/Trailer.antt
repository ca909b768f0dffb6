-- ===== src/Fix/Trailer.antt =====
-- libs/fix/fix_parser.hpp: `parse` on a message that ends in its checksum field.
use hft_orderbook_benchmark.Common.{
  ℕ, zero, suc, ◌+◌, ◌≤◌, ◌≡◌, refl, ap, ◌∙◌, true, false, [], ◌∷◌, ◌++◌, some, arith, length,
  length-append, take, get_or, ◌&&◌, ltb,
}
use hft_orderbook_benchmark.Fix.Text.{Bytes, soh, find, is_digit}
use hft_orderbook_benchmark.Fix.{parse, parse_frame, parse_order, checksum_tag}

get_or-length : (xs ys : Bytes) (n d : ℕ) → get_or (xs ++ ys) (length xs + n) d ≡ get_or ys n d
get_or-length [] ys n d = ap (λ k. get_or ys k d) (omega arith)
get_or-length (x ∷ xs) ys n d =
    let e : suc (length xs) + n ≡ suc (length xs + n) = omega arith in
    ap (λ k. get_or (x ∷ xs ++ ys) k d) e ∙ get_or-length xs ys n d

take-all : (n : ℕ) (xs : Bytes) → length xs ≤ n → take n xs ≡ xs
take-all zero [] h = refl
take-all zero (x ∷ xs) h = absurd (omega arith)
take-all (suc n) [] h = refl
take-all (suc n) (x ∷ xs) h = ap (◌∷◌ x) (take-all n xs (omega arith))

parse_found :
    (xs : Bytes) (p : ℕ)
    → find checksum_tag xs ≡ some p
    → p + 8 ≤ length xs
    → parse xs ≡ parse_frame xs p
unfolding parse
parse_found xs p e h =
    rw (e, parse) (let f : ltb (length xs) (p + 8) ≡ false = ground arith in rw f refl)

parse_frame-digits :
    (xs : Bytes) (p : ℕ)
    → (is_digit (get_or xs (p + 4) 0)
        && is_digit (get_or xs (p + 5) 0)
        && is_digit (get_or xs (p + 6) 0))
      ≡ true
    → get_or xs (p + 7) 0 ≡ soh
    → length xs ≡ p + 8
    → parse_frame xs p ≡ (parse_order xs, length xs)
unfolding parse_frame
parse_frame-digits xs p h e l =
    let t : take (p + 8) xs ≡ xs = take-all (p + 8) xs (omega arith) in
    rw (parse_frame, t, l) (ground (arith, h, e))

-- A message that ends in its checksum field is read whole.
pub parse-framed :
    (before xs : Bytes) (x y z : ℕ)
    → (is_digit x && is_digit y && is_digit z) ≡ true
    → xs ≡ before ++ soh ∷ b'1' ∷ b'0' ∷ b'=' ∷ x ∷ y ∷ z ∷ soh ∷ []
    → find checksum_tag xs ≡ some (length before)
    → parse xs ≡ (parse_order xs, length xs)
parse-framed before xs x y z h e f =
    let tail = soh ∷ b'1' ∷ b'0' ∷ b'=' ∷ x ∷ y ∷ z ∷ soh ∷ [] in
    let l : length xs ≡ length before + 8 = ap length e ∙ length-append before tail in
    let at : (n d : ℕ) → get_or xs (length before + n) d ≡ get_or tail n d =
      λ n d. ap (λ ys. get_or ys (length before + n) d) e ∙ get_or-length before tail n d in
    parse_found xs (length before) f (omega (arith, l))
    ∙ parse_frame-digits xs (length before) (rw (at 4 0, at 5 0, at 6 0) h) (at 7 0) l
