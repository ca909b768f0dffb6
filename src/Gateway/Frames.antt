-- ===== src/Gateway/Frames.antt =====
-- src/network/tcp_order_gateway.cpp: the frame at the front of the buffer, and the bytes behind it.
use hft_orderbook_benchmark.Common.{
  ℕ, zero, suc, ◌+◌, ◌-◌, ◌≤◌, ◌≡◌, ◌≢◌, inl, inr, refl, ap, ◌∙◌, Bool, true, false, [], ◌∷◌, ◌++◌,
  Option, none, some, arith, Option-cases, length, drop,
}
use hft_orderbook_benchmark.Fix.{parse, get_tag_value, get_message_type, value_at}
use hft_orderbook_benchmark.Fix.Text.{Bytes, soh, find, find_from, substr, decimal}
use hft_orderbook_benchmark.Fix.Framing.{
  parse-consumed, parse-append, find-append, find-le, take-append,
}
use hft_orderbook_benchmark.Gateway.{Frame, incomplete, request, message, next_frame}

-- How many bytes a frame takes.
abbrev pub consumed_of : Frame → ℕ
consumed_of incomplete = 0
consumed_of (request c e) = c
consumed_of (message c o) = c

pub next_frame-consumed : (xs : Bytes) → consumed_of (next_frame xs) ≡ (parse xs).1
unfolding next_frame
next_frame-consumed xs = ground arith

-- A frame lies inside the buffered bytes.
pub next_frame-le : (xs : Bytes) → consumed_of (next_frame xs) ≤ length xs
next_frame-le xs = elim (parse-consumed xs) [
  | inl e ↦ omega (arith, next_frame-consumed xs, ap (λ r. r.1) e)
  | inr (p, f, e, h) ↦ omega (arith, next_frame-consumed xs, e)
]

pub next_frame-incomplete :
    (xs : Bytes) → consumed_of (next_frame xs) ≡ 0 → next_frame xs ≡ incomplete
unfolding next_frame
next_frame-incomplete xs h = ground arith

-- "\x0135=".
abbrev pub type_tag : Bytes
type_tag = soh ∷ b'3' ∷ b'5' ∷ b'=' ∷ []

abbrev pub is_found : Option ℕ → Bool
is_found none = false
is_found (some i) = true

abbrev ends_behind : Bytes → Option ℕ → Bool
ends_behind xs none = false
ends_behind xs (some p) = is_found (find_from soh (p + 4) xs)

-- The bytes hold a field with tag 35, up to its end.
unfoldable pub has_type : Bytes → Bool
has_type xs = ends_behind xs (find type_tag xs)

pub drop-append : (n : ℕ) (xs ys : Bytes) → n ≤ length xs → drop n (xs ++ ys) ≡ drop n xs ++ ys
drop-append zero xs ys h = refl
drop-append (suc n) [] ys h = absurd (omega arith)
drop-append (suc n) (x ∷ xs) ys h = drop-append n xs ys (omega arith)

find_from-append :
    (c n : ℕ) (xs ys : Bytes) (i : ℕ)
    → n ≤ length xs
    → find_from c n xs ≡ some i
    → find_from c n (xs ++ ys) ≡ some i
unfolding find_from
find_from-append c n xs ys i h e = elim (Option-cases (find (c ∷ []) (drop n xs))) [
  | inl g ↦ absurd (ground arith)
  | inr (j, g) ↦
      rw (drop-append n xs ys h, find-append (c ∷ []) (drop n xs) ys j g) (ground (arith, e, g))
]

substr-append :
    (xs ys : Bytes) (start e : ℕ)
    → start ≤ length xs
    → find_from soh start xs ≡ some e
    → substr start (e - start) (xs ++ ys) ≡ substr start (e - start) xs
unfolding substr find_from
substr-append xs ys start e h k = elim (Option-cases (find (soh ∷ []) (drop start xs))) [
  | inl g ↦ absurd (ground arith)
  | inr (j, g) ↦
      let i : e ≡ start + j = ground (arith, k, g) in
      rw (drop-append start xs ys h) (
        take-append (e - start) (drop start xs) ys
          (omega (arith, i, find-le (soh ∷ []) (drop start xs) j g)))
]

-- A field that ends in the bytes has the same value when there are more of them.
value_at-append :
    (xs ys : Bytes) (start e : ℕ)
    → start ≤ length xs
    → find_from soh start xs ≡ some e
    → value_at (xs ++ ys) start ≡ value_at xs start
unfolding value_at
value_at-append xs ys start e h k =
    rw (find_from-append soh start xs ys e h k, k, value_at) (substr-append xs ys start e h k)

type_found :
    (xs : Bytes) (p : ℕ) → find type_tag xs ≡ some p → get_message_type xs ≡ value_at xs (p + 4)
unfolding get_message_type get_tag_value decimal
type_found xs p h = ground (arith, h)

-- More bytes behind do not change the message type, once a field with tag 35 is there.
pub get_message_type-append :
    (xs ys : Bytes) → has_type xs ≡ true → get_message_type (xs ++ ys) ≡ get_message_type xs
unfolding has_type
get_message_type-append xs ys h = elim (Option-cases (find type_tag xs)) [
  | inl g ↦ absurd (ground (arith, h, g))
  | inr (p, g) ↦ elim (Option-cases (find_from soh (p + 4) xs)) [
    | inl k ↦ absurd (ground (arith, h, g, k))
    | inr (e, k) ↦
        rw (type_found xs p g, type_found (xs ++ ys) p (find-append type_tag xs ys p g))
          (value_at-append xs ys (p + 4) e (find-le type_tag xs p g) k)
  ]
]

-- A whole frame stays what it is when more bytes come, if the buffered bytes hold a field with tag 35.
pub next_frame-append :
    (xs ys : Bytes)
    → has_type xs ≡ true
    → consumed_of (next_frame xs) ≢ 0
    → next_frame (xs ++ ys) ≡ next_frame xs
unfolding next_frame
next_frame-append xs ys h k =
    let c = next_frame-consumed xs in
    let inside : (parse xs).1 ≤ length xs = omega (arith, c, next_frame-le xs) in
    rw (
      parse-append xs ys (λ e. k (c ∙ e)),
      get_message_type-append xs ys h,
      take-append (parse xs).1 xs ys inside,
      next_frame,
    )
