-- ===== src/Metrics/Percentile.antt =====
-- src/core/metrics_collector.hpp: what the percentile and the maximum of `calculateStats` say of the
-- samples.
use hft_orderbook_benchmark.Common.{
  ℕ, zero, suc, ◌+◌, ◌-◌, ◌*◌, ◌≤◌, ◌<◌, ◌≡◌, refl, ap, List, [], ◌∷◌, if◌then◌else◌, ltb, leb,
  length, get_or, arith, All, All-imp, Bool-cases, inl, inr,
}
use hft_orderbook_benchmark.Metrics.{sort_into, sort, p99_index, calculate_stats}

-- How many samples are at most `b`.
abbrev pub count_le : ℕ → List ℕ → ℕ
count_le b [] = 0
count_le b (x ∷ xs) = (if leb x b then 1 else 0) + count_le b xs

-- How many are below `b`.
abbrev pub count_lt : ℕ → List ℕ → ℕ
count_lt b [] = 0
count_lt b (x ∷ xs) = (if ltb x b then 1 else 0) + count_lt b xs

-- The samples rise.
abbrev IsSorted : List ℕ → Type 0
IsSorted [] = Unit
IsSorted (x ∷ xs) = All (λ y. x ≤ y) xs × IsSorted xs

length-sort_into : (x : ℕ) (ys : List ℕ) → length (sort_into x ys) ≡ suc (length ys)
length-sort_into x [] = refl
length-sort_into x (y ∷ ys) = ground (arith, length-sort_into x ys)

length-sort : (xs : List ℕ) → length (sort xs) ≡ length xs
unfolding sort
length-sort [] = refl
length-sort (x ∷ xs) = omega (arith, length-sort_into x (sort xs), length-sort xs)

count_le-sort_into : (b x : ℕ) (ys : List ℕ) → count_le b (sort_into x ys) ≡ count_le b (x ∷ ys)
count_le-sort_into b x [] = refl
count_le-sort_into b x (y ∷ ys) = ground (arith, count_le-sort_into b x ys)

count_le-sort : (b : ℕ) (xs : List ℕ) → count_le b (sort xs) ≡ count_le b xs
unfolding sort
count_le-sort b [] = refl
count_le-sort b (x ∷ xs) = omega (arith, count_le-sort_into b x (sort xs), count_le-sort b xs)

count_lt-sort_into : (b x : ℕ) (ys : List ℕ) → count_lt b (sort_into x ys) ≡ count_lt b (x ∷ ys)
count_lt-sort_into b x [] = refl
count_lt-sort_into b x (y ∷ ys) = ground (arith, count_lt-sort_into b x ys)

count_lt-sort : (b : ℕ) (xs : List ℕ) → count_lt b (sort xs) ≡ count_lt b xs
unfolding sort
count_lt-sort b [] = refl
count_lt-sort b (x ∷ xs) = omega (arith, count_lt-sort_into b x (sort xs), count_lt-sort b xs)

sort_into-All :
    (b x : ℕ) (ys : List ℕ) → b ≤ x → All (λ y. b ≤ y) ys → All (λ y. b ≤ y) (sort_into x ys)
sort_into-All b x [] h v = (h, tt)
sort_into-All b x (y ∷ ys) h v = elim (Bool-cases (leb x y)) [
  | inl e ↦ rw e (h, v)
  | inr e ↦ rw e (v.0, sort_into-All b x ys h v.1)
]

sort_into-IsSorted : (x : ℕ) (ys : List ℕ) → IsSorted ys → IsSorted (sort_into x ys)
sort_into-IsSorted x [] v = (tt, tt)
sort_into-IsSorted x (y ∷ ys) v = elim (Bool-cases (leb x y)) [
  | inl e ↦ rw e (
    (ground (arith, e), All-imp (λ z. y ≤ z) (λ z. x ≤ z) ys (λ z h. ground (arith, e, h)) v.0),
    v,
  )
  | inr e ↦ rw e (sort_into-All y x ys (ground (arith, e)) v.0, sort_into-IsSorted x ys v.1)
]

sort-IsSorted : (xs : List ℕ) → IsSorted (sort xs)
unfolding sort
sort-IsSorted [] = tt
sort-IsSorted (x ∷ xs) = sort_into-IsSorted x (sort xs) (sort-IsSorted xs)

All-get_or : (b : ℕ) (xs : List ℕ) (i : ℕ) → All (λ y. b ≤ y) xs → i < length xs → b ≤ get_or xs i 0
All-get_or b [] i v h = absurd (omega arith)
All-get_or b (x ∷ xs) zero v h = v.0
All-get_or b (x ∷ xs) (suc i) v h = All-get_or b xs i v.1 (omega arith)

none_below : (b : ℕ) (xs : List ℕ) → All (λ y. b ≤ y) xs → count_lt b xs ≡ 0
none_below b [] v = refl
none_below b (x ∷ xs) v = ground (arith, v.0, none_below b xs v.1)

-- At least `i + 1` of the sorted samples are at most the one at the index `i`, and at most `i` are
-- below it.
rank :
    (xs : List ℕ) (i : ℕ)
    → IsSorted xs
    → i < length xs
    → (i < count_le (get_or xs i 0) xs) × (count_lt (get_or xs i 0) xs ≤ i)
rank [] i v h = absurd (omega arith)
rank (x ∷ xs) zero v h = (ground arith, ground (arith, none_below x xs v.0))
rank (x ∷ xs) (suc i) v h =
    let r = rank xs i v.1 (omega arith) in
    let b = All-get_or x xs i v.0 (omega arith) in (ground (arith, r.0, b), ground (arith, r.1, b))

rank-samples :
    (xs : List ℕ) (i : ℕ)
    → i < length xs
    → (i < count_le (get_or (sort xs) i 0) xs) × (count_lt (get_or (sort xs) i 0) xs ≤ i)
rank-samples xs i h =
    let b = get_or (sort xs) i 0 in
    let r = rank (sort xs) i (sort-IsSorted xs) (omega (arith, length-sort xs)) in
    (omega (arith, r.0, count_le-sort b xs), omega (arith, r.1, count_lt-sort b xs))

p99_index-rank :
    (n : ℕ)
    → 0 < n
    → (p99_index n < n) × (99 * n ≤ 100 * (p99_index n + 1)) × (100 * p99_index n < 99 * n)
unfolding p99_index
p99_index-rank n h = (ground arith, ground arith, ground arith)

count_le-le : (b : ℕ) (xs : List ℕ) → count_le b xs ≤ length xs
count_le-le b [] = omega arith
count_le-le b (x ∷ xs) = ground (arith, count_le-le b xs)

p99_lem :
    (xs : List ℕ)
    → 0 < length xs
    → (calculate_stats xs).p99 ≡ get_or (sort xs) (p99_index (length xs)) 0
unfolding calculate_stats
p99_lem [] h = absurd (omega arith)
p99_lem (x ∷ xs) h = ap (λ n. get_or (sort (x ∷ xs)) (p99_index n) 0) (length-sort (x ∷ xs))

max_lem :
    (xs : List ℕ) → 0 < length xs → (calculate_stats xs).max ≡ get_or (sort xs) (length xs - 1) 0
unfolding calculate_stats
max_lem [] h = absurd (omega arith)
max_lem (x ∷ xs) h = ap (λ n. get_or (sort (x ∷ xs)) (n - 1) 0) (length-sort (x ∷ xs))

-- For samples that are not empty, `p99` is their nearest-rank percentile: at least 99 of 100 samples
-- are at most it, and less than 99 of 100 are below it; and no sample is above `max`.
pub calculate_stats-ranks :
    (samples : List ℕ)
    → 0 < length samples
    → (99 * length samples ≤ 100 * count_le (calculate_stats samples).p99 samples)
      × (100 * count_lt (calculate_stats samples).p99 samples < 99 * length samples)
      × (count_le (calculate_stats samples).max samples ≡ length samples)
calculate_stats-ranks xs h =
    let p = p99_index-rank (length xs) h in
    let r = rank-samples xs (p99_index (length xs)) p.0 in
    let m = rank-samples xs (length xs - 1) (omega arith) in
    (
      rw (p99_lem xs h) (omega (arith, p.1, r.0)),
      rw (p99_lem xs h) (omega (arith, p.2, r.1)),
      rw (max_lem xs h) (omega (arith, m.0, count_le-le (get_or (sort xs) (length xs - 1) 0) xs)),
    )
