-- ===== src/ArrayBook/Scans.antt =====
-- src/orderbooks/array_order_book.cpp: `updateBestBidCache` and `updateBestAskCache`, the scans for the
-- best active level.
use mathlib.Core.List.{append_assoc, append-nil}
use hft_orderbook_benchmark.Common.{
  ℕ, zero, suc, ◌+◌, ◌*◌, ◌<◌, ◌≤◌, ◌≡◌, refl, sym, ap, ◌∙◌, Bool, true, false, not, List, [], ◌∷◌,
  ◌++◌, Option, none, some, if◌then◌else◌, arith, All, Bool-cases, inl, inr, length, is_empty,
  get_or, set,
}
use hft_orderbook_benchmark.Containers.OrderList.{OrderList}
use hft_orderbook_benchmark.Containers.Ladder.{Ladder}
use hft_orderbook_benchmark.Core.{Order}
use hft_orderbook_benchmark.Contract
use hft_orderbook_benchmark.Resting.{orders, flat}
use hft_orderbook_benchmark.Resting.Orders.{orders-append}
use hft_orderbook_benchmark.ArrayBook.{last_active, first_active, replicate}
use hft_orderbook_benchmark.ArrayBook.Sides.{rising, falling, ladder, IsPriced}

-- Which levels hold orders.
abbrev pub flags : List OrderList → List Bool
flags [] = []
flags (ns ∷ ls) = not (is_empty ns) ∷ flags ls

abbrev pub scan : Bool → ℕ → List Bool → Option ℕ
scan true n active = last_active n active
scan false n active = first_active n 0 active

-- The price at the index that a scan finds, in steps of `t` from `p`.
abbrev pub found : ℕ → ℕ → ℕ → Option ℕ → ℕ
found d p t none = d
found d p t (some i) = p + i * t

abbrev pub up : Option ℕ → Option ℕ
up none = none
up (some i) = some (suc i)

abbrev pub or_first : Bool → Option ℕ → Option ℕ
or_first a none = if a then some 0 else none
or_first a (some i) = some (suc i)

pub last_active-cons :
    (n : ℕ) (a : Bool) (fs : List Bool)
    → last_active (suc n) (a ∷ fs) ≡ or_first a (last_active n fs)
unfolding last_active
last_active-cons zero a fs = refl
last_active-cons (suc n) a fs = ground (arith, last_active-cons n a fs)

pub first_active-cons :
    (n i : ℕ) (a : Bool) (fs : List Bool)
    → first_active n (suc i) (a ∷ fs) ≡ up (first_active n i fs)
unfolding first_active
first_active-cons zero i a fs = refl
first_active-cons (suc n) i a fs = ground (arith, first_active-cons n (suc i) a fs)

best-append :
    (d : ℕ) (xs ys : List Order)
    → Contract.best d (xs ++ ys) ≡ Contract.best (Contract.best d ys) xs
unfolding Contract.best
best-append d [] ys = refl
best-append d (x ∷ xs) ys = refl

pub flat-append : (m k : Ladder OrderList) → flat (m ++ k) ≡ flat m ++ flat k
flat-append [] k = refl
flat-append ((p, ns) ∷ m) k =
    ap (◌++◌ ns) (flat-append m k) ∙ sym (append_assoc ns (flat m) (flat k))

next_price : (p t i : ℕ) → p + t + i * t ≡ p + suc i * t
next_price p t i = grind arith

-- The best price of a level in front of what stands behind it.
best_level :
    (d p t : ℕ) (ns : OrderList)
    → All (λ n. n.order.price ≡ p) ns
    → Contract.best d (orders ns) ≡ (if not (is_empty ns) then p + 0 * t else d)
unfolding Contract.best
best_level d p t [] v = refl
best_level d p t (n ∷ ns) v = let e : p + 0 * t ≡ p = grind arith in cc

found-or_first :
    (d e p t : ℕ) (a : Bool) (o : Option ℕ)
    → e ≡ (if a then p + 0 * t else d)
    → found e (p + t) t o ≡ found d p t (or_first a o)
found-or_first d e p t a none h = ground (arith, h)
found-or_first d e p t a (some i) h = next_price p t i

found-up : (d p t : ℕ) (o : Option ℕ) → found d (p + t) t o ≡ found d p t (up o)
found-up d p t none = refl
found-up d p t (some i) = next_price p t i

best-falling :
    (d p t : ℕ) (ls : List OrderList)
    → IsPriced p t ls
    → Contract.best d (orders (flat (falling p t ls)))
      ≡ found d p t (last_active (length ls) (flags ls))
unfolding last_active Contract.best
best-falling d p t [] v = refl
best-falling d p t (ns ∷ ls) v =
    let e = Contract.best d (orders ns) in
    rw
      (
        last_active-cons (length ls) (not (is_empty ns)) (flags ls),
        flat-append (falling (p + t) t ls) ((p, ns) ∷ []),
        append-nil ns,
        orders-append (flat (falling (p + t) t ls)) ns,
        best-append d (orders (flat (falling (p + t) t ls))) (orders ns),
      )
      (best-falling e (p + t) t ls v.1
        ∙ found-or_first d e p t (not (is_empty ns)) (last_active (length ls) (flags ls))
            (best_level d p t ns v.0))

best-rising :
    (d p t : ℕ) (ls : List OrderList)
    → IsPriced p t ls
    → Contract.best d (orders (flat (rising p t ls)))
      ≡ found d p t (first_active (length ls) 0 (flags ls))
unfolding first_active Contract.best
best-rising d p t [] v = refl
best-rising d p t ([] ∷ ls) v =
    rw (first_active-cons (length ls) 0 false (flags ls))
      (best-rising d (p + t) t ls v.1 ∙ found-up d p t (first_active (length ls) 0 (flags ls)))
best-rising d p t ((n ∷ ns) ∷ ls) v = let e : p + 0 * t ≡ p = grind arith in v.0.0 ∙ sym e

-- The best price of a side is the price of the level that the scan of its flags finds.
pub best-scan :
    (b : Bool) (d p t : ℕ) (ls : List OrderList)
    → IsPriced p t ls
    → Contract.best d (orders (flat (ladder b p t ls)))
      ≡ found d p t (scan b (length ls) (flags ls))
best-scan true = best-falling
best-scan false = best-rising

-- A scan stays inside the array.
last_active-bound : (n i : ℕ) (fs : List Bool) → last_active n fs ≡ some i → i < n
unfolding last_active
last_active-bound zero i fs h = absurd (cc)
last_active-bound (suc n) i fs h = elim (Bool-cases (get_or fs n false)) [
  | inl e ↦ ground (arith, e, h)
  | inr e ↦ let w = last_active-bound n i fs (ground (arith, e, h)) in omega (arith, w)
]

first_active-bound :
    (n j i : ℕ) (fs : List Bool) → first_active n j fs ≡ some i → (j ≤ i) × (i < j + n)
unfolding first_active
first_active-bound zero j i fs h = absurd (cc)
first_active-bound (suc n) j i fs h = elim (Bool-cases (get_or fs j false)) [
  | inl e ↦ ground (arith, e, h)
  | inr e ↦ let w = first_active-bound n (j + 1) i fs (ground (arith, e, h)) in omega (arith, w)
]

pub scan-bound : (b : Bool) (n i : ℕ) (fs : List Bool) → scan b n fs ≡ some i → i < n
scan-bound true n i fs h = last_active-bound n i fs h
scan-bound false n i fs h = omega (arith, (first_active-bound n 0 i fs h).1)

pub flags-set :
    (ls : List OrderList) (i : ℕ) (ns : OrderList)
    → flags (set ls i ns) ≡ set (flags ls) i (not (is_empty ns))
flags-set [] i ns = refl
flags-set (ms ∷ ls) zero ns = refl
flags-set (ms ∷ ls) (suc i) ns = ap (◌∷◌ (not (is_empty ms))) (flags-set ls i ns)

pub flags-same :
    (ls : List OrderList) (i : ℕ) (ns : OrderList)
    → is_empty (get_or ls i []) ≡ is_empty ns
    → flags (set ls i ns) ≡ flags ls
flags-same [] i ns h = refl
flags-same (ms ∷ ls) zero ns h = ap (λ a. not a ∷ flags ls) (sym h)
flags-same (ms ∷ ls) (suc i) ns h = ap (◌∷◌ (not (is_empty ms))) (flags-same ls i ns h)

pub flags-replicate : (n : ℕ) → flags (replicate n []) ≡ replicate n false
flags-replicate zero = refl
flags-replicate (suc n) = ap (◌∷◌ false) (flags-replicate n)

pub length-set : (ls : List OrderList) (i : ℕ) (ns : OrderList) → length (set ls i ns) ≡ length ls
length-set [] i ns = refl
length-set (ms ∷ ls) zero ns = refl
length-set (ms ∷ ls) (suc i) ns = ap suc (length-set ls i ns)

pub length-replicate : (n : ℕ) → length (replicate {A = OrderList} n []) ≡ n
length-replicate zero = refl
length-replicate (suc n) = ap suc (length-replicate n)
