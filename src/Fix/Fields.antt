-- ===== src/Fix/Fields.antt =====
-- libs/fix/fix_parser.hpp: looking up a tag in a message of fields that each end in SOH.
use hft_orderbook_benchmark.Common.{
  ℕ, suc, ◌+◌, ◌≡◌, ◌≢◌, refl, sym, ap, ◌∙◌, Bool, true, false, List, [], ◌∷◌, ◌++◌, Option, none,
  some, if◌then◌else◌, ==_ne, arith, All, Bool-cases, inl, inr, length, length-append,
}
use mathlib.Core.List.{append_assoc}
use hft_orderbook_benchmark.Fix.Text.{Bytes, soh, starts_with, find, shifted, later}

abbrev pub IsPlain : Bytes → Type 0
IsPlain = All (λ c. c ≢ soh)

-- Fields, each with its SOH.
abbrev pub joined : List Bytes → Bytes
joined [] = []
joined (s ∷ ss) = s ++ soh ∷ joined ss

-- The first field that starts with the key, and those behind it.
abbrev pub seek : Bytes → List Bytes → Option (Bytes × List Bytes)
seek key [] = none
seek key (t ∷ ts) = let rest = seek key ts in if starts_with key t then some (t, ts) else rest

-- A key has no SOH, so it does not reach into the next field.
starts_with-joined :
    (key t xs : Bytes) → IsPlain key → starts_with key (t ++ soh ∷ xs) ≡ starts_with key t
unfolding starts_with
starts_with-joined [] t xs k = refl
starts_with-joined (c ∷ key) [] xs k = rw (==_ne c soh k.0) refl
starts_with-joined (c ∷ key) (d ∷ t) xs k = ground (arith, starts_with-joined key t xs k.1)

later-skip :
    (a : Bool) (l : ℕ) (o : Option ℕ)
    → later (if a then some l else shifted (l + 1) o)
      ≡ (if a then some (suc l) else shifted (suc l + 1) o)
later-skip true l o = refl
later-skip false l none = refl
later-skip false l (some i) = ap some (omega arith)

-- A pattern that begins with SOH is not found inside a field.
pub find-skip :
    (key s xs : Bytes)
    → IsPlain s
    → find (soh ∷ key) (s ++ soh ∷ xs) ≡ (
        if starts_with key xs
        then some (length s)
        else shifted (length s + 1) (find (soh ∷ key) xs))
unfolding find starts_with
find-skip key [] xs h = ground arith
find-skip key (c ∷ s) xs h =
    rw (==_ne soh c (λ e. h.0 (sym e)), find-skip key s xs h.1)
      (later-skip (starts_with key xs) (length s) (find (soh ∷ key) xs))

-- Where a field is found: the bytes before its SOH, and the fields from it on.
pub record Found (key : Bytes) (xs t : Bytes) (ts : List Bytes) : Type 0 where
  pub before : Bytes
  pub split : xs ≡ before ++ soh ∷ joined (t ∷ ts)
  pub place : find (soh ∷ key) xs ≡ some (length before)

next-Found :
    (key s t : Bytes) (ss ts : List Bytes)
    → IsPlain s
    → starts_with key (joined ss) ≡ false
    → Found key (joined ss) t ts
    → Found key (joined (s ∷ ss)) t ts
next-Found key s t ss ts h n f = record {
  before = s ++ soh ∷ f.before;
  split =
      ap (λ xs. s ++ soh ∷ xs) f.split
      ∙ sym (append_assoc s (soh ∷ f.before) (soh ∷ joined (t ∷ ts)));
  place =
      find-skip key s (joined ss) h
      ∙ rw (n, f.place) (ap some (omega (arith, length-append s (soh ∷ f.before))));
}

-- The lookup of a key, behind the first field, finds the first field that starts with it.
pub seek-Found :
    (key s t : Bytes) (ss ts : List Bytes)
    → IsPlain key
    → IsPlain s
    → All IsPlain ss
    → seek key ss ≡ some (t, ts)
    → Found key (joined (s ∷ ss)) t ts
seek-Found key s t [] ts k h a e = absurd (cc)
seek-Found key s t (u ∷ us) ts k h a e = elim (Bool-cases (starts_with key u)) [
  | inl g ↦
      let w : (u ≡ t) × (us ≡ ts) = ground (arith, g, e) in
      record {
        before = s;
        split = rw (w.0, w.1) refl;
        place =
            find-skip key s (joined (u ∷ us)) h
            ∙ rw (starts_with-joined key u (joined us) k, g) refl;
      }
  | inr g ↦
      next-Found key s t (u ∷ us) ts h (rw (starts_with-joined key u (joined us) k, g) refl)
        (seek-Found key u t us ts k a.0 a.1 (ground (arith, g, e)))
]

-- A key that no field starts with is not found.
pub seek-none :
    (c : ℕ) (key s : Bytes) (ss : List Bytes)
    → IsPlain (c ∷ key)
    → IsPlain s
    → All IsPlain ss
    → seek (c ∷ key) ss ≡ none
    → find (soh ∷ c ∷ key) (joined (s ∷ ss)) ≡ none
unfolding starts_with find
seek-none c key s [] k h a e = find-skip (c ∷ key) s [] h
seek-none c key s (u ∷ us) k h a e = elim (Bool-cases (starts_with (c ∷ key) u)) [
  | inl g ↦ absurd (ground (arith, g, e))
  | inr g ↦
      find-skip (c ∷ key) s (joined (u ∷ us)) h
      ∙ rw
          (
            starts_with-joined (c ∷ key) u (joined us) k,
            g,
            seek-none c key u us k a.0 a.1 (ground (arith, g, e)),
          )
          refl
]
