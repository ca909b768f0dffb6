-- ===== src/Fix/Values.antt =====
-- libs/fix/fix_parser.hpp: the value that the lookup of a tag finds.
use hft_orderbook_benchmark.Common.{
  ℕ, ◌+◌, ◌-◌, ◌≡◌, refl, sym, ap, ◌∙◌, false, List, [], ◌∷◌, ◌++◌, none, some, if◌then◌else◌,
  arith, length, length-append, take, drop,
}
use mathlib.Core.List.{append_assoc}
use hft_orderbook_benchmark.Fix.Text.{Bytes, soh, starts_with, find, find_from, substr, decimal}
use hft_orderbook_benchmark.Fix.{value_at, get_tag_value}
use hft_orderbook_benchmark.Fix.Fields.{IsPlain, joined, Found, find-skip}

pub drop-length : (xs ys : Bytes) → drop (length xs) (xs ++ ys) ≡ ys
drop-length [] ys = refl
drop-length (x ∷ xs) ys = drop-length xs ys

pub take-length : (xs ys : Bytes) → take (length xs) (xs ++ ys) ≡ xs
take-length [] ys = refl
take-length (x ∷ xs) ys = ap (◌∷◌ x) (take-length xs ys)

find_soh : (v xs : Bytes) → IsPlain v → find (soh ∷ []) (v ++ soh ∷ xs) ≡ some (length v)
unfolding starts_with
find_soh v xs h = find-skip [] v xs h

-- The value of a field runs up to its SOH.
value_at-field :
    (before v xs : Bytes) → IsPlain v → value_at (before ++ (v ++ soh ∷ xs)) (length before) ≡ v
unfolding value_at find_from substr
value_at-field before v xs h =
    rw
      (
        drop-length before (v ++ soh ∷ xs),
        find_soh v xs h,
        value_at,
        drop-length before (v ++ soh ∷ xs),
      )
      (let e : length before + length v - length before ≡ length v = omega arith in
        rw e (take-length v (soh ∷ xs)))

split_value :
    (key v xs : Bytes) (ts : List Bytes)
    → (f : Found key xs (key ++ v) ts) → xs ≡ (f.before ++ (soh ∷ key)) ++ (v ++ soh ∷ joined ts)
split_value key v xs ts f =
    f.split
    ∙ ap (λ ys. f.before ++ soh ∷ ys) (append_assoc key v (soh ∷ joined ts))
    ∙ sym (append_assoc f.before (soh ∷ key) (v ++ soh ∷ joined ts))

-- The value behind the key of a field that was found.
pub value_at-Found :
    (key v xs : Bytes) (ts : List Bytes)
    → IsPlain v
    → (f : Found key xs (key ++ v) ts) → value_at xs (length f.before + length (soh ∷ key)) ≡ v
value_at-Found key v xs ts h f =
    let front = f.before ++ (soh ∷ key) in
    let e = split_value key v xs ts f in
    ap (λ n. value_at xs n) (sym (length-append f.before (soh ∷ key)))
    ∙ ap (λ ys. value_at ys (length front)) e
    ∙ value_at-field front v (joined ts) h

-- The SOH behind the value of a field that was found.
pub find_from-Found :
    (key v xs : Bytes) (ts : List Bytes)
    → IsPlain v
    → (f : Found key xs (key ++ v) ts)
    → find_from soh (length f.before + length (soh ∷ key)) xs
      ≡ some (length f.before + length (soh ∷ key) + length v)
unfolding find_from
find_from-Found key v xs ts h f =
    let front = f.before ++ (soh ∷ key) in
    let n = length f.before + length (soh ∷ key) in
    let e = split_value key v xs ts f in
    let l : length front ≡ n = length-append f.before (soh ∷ key) in
    let d : drop n xs ≡ v ++ soh ∷ joined ts =
      ap (λ (m : ℕ). drop m xs) (sym l)
      ∙ ap (λ ys. drop (length front) ys) e
      ∙ drop-length front (v ++ soh ∷ joined ts) in
    rw (d, find_soh v (joined ts) h) refl

-- `get_tag_value`, as a function of the key.
unfoldable value_of : Bytes → Bytes → Bytes
value_of xs key = elim (find (soh ∷ key) xs) [
  | none ↦ if starts_with key xs then value_at xs (length key) else []
  | some p ↦ value_at xs (p + length (soh ∷ key))
]

get_tag_value-value_of :
    (tag : ℕ) (key xs : Bytes)
    → decimal tag ++ b'=' ∷ [] ≡ key
    → get_tag_value xs tag ≡ value_of xs key
unfolding get_tag_value value_of
get_tag_value-value_of tag key xs e = ap (value_of xs) e

value_of-some :
    (key xs : Bytes) (p : ℕ)
    → find (soh ∷ key) xs ≡ some p
    → value_of xs key ≡ value_at xs (p + length (soh ∷ key))
unfolding value_of
value_of-some key xs p e = rw (e, value_of)

value_of-none :
    (key xs : Bytes)
    → find (soh ∷ key) xs ≡ none
    → starts_with key xs ≡ false
    → value_of xs key ≡ []
unfolding value_of
value_of-none key xs e g = rw (e, value_of, g)

pub get_tag_value-Found :
    (tag : ℕ) (key v xs : Bytes) (ts : List Bytes)
    → decimal tag ++ b'=' ∷ [] ≡ key
    → IsPlain v
    → Found key xs (key ++ v) ts
    → get_tag_value xs tag ≡ v
get_tag_value-Found tag key v xs ts e h f =
    get_tag_value-value_of tag key xs e
    ∙ value_of-some key xs (length f.before) f.place
    ∙ value_at-Found key v xs ts h f

pub get_tag_value-none :
    (tag : ℕ) (key xs : Bytes)
    → decimal tag ++ b'=' ∷ [] ≡ key
    → find (soh ∷ key) xs ≡ none
    → starts_with key xs ≡ false
    → get_tag_value xs tag ≡ []
get_tag_value-none tag key xs e h g = get_tag_value-value_of tag key xs e ∙ value_of-none key xs h g
