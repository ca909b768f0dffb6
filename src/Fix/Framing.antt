-- ===== src/Fix/Framing.antt =====
-- Where a message ends: the bytes that `parse` consumes.
use hft_orderbook_benchmark.Common.{
  ℕ, zero, suc, ◌+◌, ◌≤◌, ◌<◌, ◌≡◌, ◌≢◌, refl, ap, ◌∙◌, ◌⊎◌, inl, inr, true, false, [], ◌∷◌, ◌++◌,
  none, some, if◌then◌else◌, ltb, arith, length, length-append, get_or, take, Option-cases,
  Bool-cases,
}
use hft_orderbook_benchmark.Fix.Text.{Bytes, starts_with, find}
use hft_orderbook_benchmark.Fix.{checksum_tag, parse, parse_frame}

starts_with-append :
    (ps xs ys : Bytes) → length ps ≤ length xs → starts_with ps (xs ++ ys) ≡ starts_with ps xs
unfolding starts_with
starts_with-append [] xs ys h = refl
starts_with-append (p ∷ ps) [] ys h = absurd (omega arith)
starts_with-append (p ∷ ps) (x ∷ xs) ys h = ground (arith, starts_with-append ps xs ys)

starts_with-le : (ps xs : Bytes) → starts_with ps xs ≡ true → length ps ≤ length xs
unfolding starts_with
starts_with-le [] xs h = omega arith
starts_with-le (p ∷ ps) [] h = absurd (cc)
starts_with-le (p ∷ ps) (x ∷ xs) h = ground (arith, starts_with-le ps xs)

-- A pattern that is found lies inside the bytes.
pub find-le : (ps xs : Bytes) (i : ℕ) → find ps xs ≡ some i → i + length ps ≤ length xs
unfolding find
find-le ps [] i h = absurd (cc)
find-le ps (x ∷ xs) i h = elim (Bool-cases (starts_with ps (x ∷ xs))) [
  | inl e ↦ let z : i ≡ 0 = ground arith in omega (arith, z, starts_with-le ps (x ∷ xs) e)
  | inr e ↦ elim (Option-cases (find ps xs)) [
    | inl g ↦ absurd (ground arith)
    | inr (j, g) ↦ let z : i ≡ suc j = ground arith in omega (arith, z, find-le ps xs j g)
  ]
]

-- More bytes behind do not move what was found.
pub find-append : (ps xs ys : Bytes) (i : ℕ) → find ps xs ≡ some i → find ps (xs ++ ys) ≡ some i
unfolding find
find-append ps [] ys i h = absurd (cc)
find-append ps (x ∷ xs) ys i h =
    let fits = find-le ps (x ∷ xs) i h in
    let start : starts_with ps (x ∷ xs ++ ys) ≡ starts_with ps (x ∷ xs) =
      starts_with-append ps (x ∷ xs) ys (omega (arith, fits)) in
    elim (Option-cases (find ps xs)) [
      | inl g ↦ ground (arith, start)
      | inr (j, g) ↦ ground (arith, start, find-append ps xs ys j g)
    ]

get_or-append : (xs ys : Bytes) (i d : ℕ) → i < length xs → get_or (xs ++ ys) i d ≡ get_or xs i d
get_or-append [] ys i d h = absurd (omega arith)
get_or-append (x ∷ xs) ys zero d h = refl
get_or-append (x ∷ xs) ys (suc i) d h = get_or-append xs ys i d (omega arith)

pub take-append : (n : ℕ) (xs ys : Bytes) → n ≤ length xs → take n (xs ++ ys) ≡ take n xs
take-append zero xs ys h = refl
take-append (suc n) [] ys h = absurd (omega arith)
take-append (suc n) (x ∷ xs) ys h = ap (◌∷◌ x) (take-append n xs ys (omega arith))

parse_frame-append :
    (xs ys : Bytes) (p : ℕ) → p + 8 ≤ length xs → parse_frame (xs ++ ys) p ≡ parse_frame xs p
unfolding parse_frame
parse_frame-append xs ys p h = rw (
  get_or-append xs ys (p + 4) 0 (omega arith),
  get_or-append xs ys (p + 5) 0 (omega arith),
  get_or-append xs ys (p + 6) 0 (omega arith),
  get_or-append xs ys (p + 7) 0 (omega arith),
  take-append (p + 8) xs ys h,
)

consumed_frame : (xs : Bytes) (p : ℕ) → (parse_frame xs p).1 ≡ p + 8
unfolding parse_frame
consumed_frame xs p = ground arith

parse_found :
    (xs : Bytes) (p : ℕ)
    → find checksum_tag xs ≡ some p
    → parse xs ≡ (if ltb (length xs) (p + 8) then (none, 0) else parse_frame xs p)
unfolding parse
parse_found xs p h = rw (h, parse)

parse_lost : (xs : Bytes) → find checksum_tag xs ≡ none → parse xs ≡ (none, 0)
unfolding parse
parse_lost xs h = rw (h, parse)

-- Either nothing is consumed and there is no order, or a message up to the end of its checksum field,
-- which lies inside the bytes.
pub parse-consumed :
    (xs : Bytes)
    → (parse xs ≡ (none, 0))
      ⊎ ((p : ℕ) × (find checksum_tag xs ≡ some p) × ((parse xs).1 ≡ p + 8) × (p + 8 ≤ length xs))
parse-consumed xs = elim (Option-cases (find checksum_tag xs)) [
  | inl h ↦ inl (parse_lost xs h)
  | inr (p, h) ↦ elim (Bool-cases (ltb (length xs) (p + 8))) [
    | inl e ↦ inl (parse_found xs p h ∙ (rw e))
    | inr e ↦ inr (p, h, rw (parse_found xs p h, e) (consumed_frame xs p), ground arith)
  ]
]

-- If bytes are consumed, more bytes behind them change neither the order nor how many are consumed.
pub parse-append : (xs ys : Bytes) → (parse xs).1 ≢ 0 → parse (xs ++ ys) ≡ parse xs
parse-append xs ys h = elim (Option-cases (find checksum_tag xs)) [
  | inl g ↦ absurd (h (rw (parse_lost xs g)))
  | inr (p, g) ↦ elim (Bool-cases (ltb (length xs) (p + 8))) [
    | inl e ↦ absurd (h (rw (parse_found xs p g, e)))
    | inr e ↦
        let fits : p + 8 ≤ length xs = ground arith in
        let more : ltb (length (xs ++ ys)) (p + 8) ≡ false = ground (arith, length-append xs ys) in
        rw
          (
            parse_found (xs ++ ys) p (find-append checksum_tag xs ys p g),
            more,
            parse_found xs p g,
            e,
          )
          (parse_frame-append xs ys p fits)
  ]
]
