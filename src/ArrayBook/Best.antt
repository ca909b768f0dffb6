-- ===== src/ArrayBook/Best.antt =====
-- src/orderbooks/array_order_book.cpp: the level that a scan finds is the first of its side.
use mathlib.Core.List.{append_assoc, append-nil}
use native.Mathlib.Nat.{mul-div_cancel}
use hft_orderbook_benchmark.Common.{
  ℕ, zero, suc, ◌+◌, ◌-◌, ◌*◌, ◌/◌, ◌%◌, ◌^◌, ◌<◌, ◌≤◌, ◌≡◌, refl, ap, Bool, true, false, not, List,
  [], ◌∷◌, ◌++◌, Option, none, some, arith, Bool-cases, Option-cases, inl, inr, length,
  length-append, is_empty, get_or, set, max_u64,
}
use hft_orderbook_benchmark.Containers.OrderList.{OrderList}
use hft_orderbook_benchmark.Resting.{flat}
use hft_orderbook_benchmark.ArrayBook.{ArrayBook, last_active, first_active, price_to_index}
use hft_orderbook_benchmark.ArrayBook.Prices.{IsConfigured, index_to_price-inside}
use hft_orderbook_benchmark.ArrayBook.Rounds.{total_length}
use hft_orderbook_benchmark.ArrayBook.Sides.{rising, falling, ladder}
use hft_orderbook_benchmark.ArrayBook.Scans.{
  flags, scan, or_first, up, last_active-cons, first_active-cons, flat-append,
}

pub set-get_or : (ls : List OrderList) (i : ℕ) → set ls i (get_or ls i []) ≡ ls
set-get_or [] i = refl
set-get_or (ns ∷ ls) zero = refl
set-get_or (ns ∷ ls) (suc i) = ap (◌∷◌ ns) (set-get_or ls i)

get_or-flags :
    (ls : List OrderList) (i : ℕ) → get_or (flags ls) i false ≡ not (is_empty (get_or ls i []))
get_or-flags [] i = refl
get_or-flags (ns ∷ ls) zero = refl
get_or-flags (ns ∷ ls) (suc i) = get_or-flags ls i

last_active-flag : (n i : ℕ) (fs : List Bool) → last_active n fs ≡ some i → get_or fs i false ≡ true
unfolding last_active
last_active-flag zero i fs h = absurd (cc)
last_active-flag (suc n) i fs h = elim (Bool-cases (get_or fs n false)) [
  | inl e ↦ ground (arith, e, h)
  | inr e ↦ last_active-flag n i fs (ground (arith, e, h))
]

first_active-flag :
    (n j i : ℕ) (fs : List Bool) → first_active n j fs ≡ some i → get_or fs i false ≡ true
unfolding first_active
first_active-flag zero j i fs h = absurd (cc)
first_active-flag (suc n) j i fs h = elim (Bool-cases (get_or fs j false)) [
  | inl e ↦ ground (arith, e, h)
  | inr e ↦ first_active-flag n (j + 1) i fs (ground (arith, e, h))
]

-- A scan finds a level that holds orders.
pub scan-filled :
    (b : Bool) (n i : ℕ) (ls : List OrderList)
    → scan b n (flags ls) ≡ some i
    → is_empty (get_or ls i []) ≡ false
scan-filled true n i ls h = ground (arith, last_active-flag n i (flags ls) h, get_or-flags ls i)
scan-filled false n i ls h = ground (arith, first_active-flag n 0 i (flags ls) h, get_or-flags ls i)

or_first-none : (a : Bool) (o : Option ℕ) → or_first a o ≡ none → (a ≡ false) × (o ≡ none)
or_first-none true none h = absurd (cc)
or_first-none false none h = (refl, refl)
or_first-none a (some i) h = absurd (cc)

falling_nothing :
    (p t : ℕ) (ls : List OrderList)
    → last_active (length ls) (flags ls) ≡ none
    → flat (falling p t ls) ≡ []
falling_nothing p t [] h = refl
falling_nothing p t (ns ∷ ls) h =
    let w =
      or_first-none (not (is_empty ns)) (last_active (length ls) (flags ls))
        (rw last_active-cons at h) in
    rw
      (
        flat-append (falling (p + t) t ls) ((p, ns) ∷ []),
        falling_nothing (p + t) t ls w.1,
        append-nil ns,
      )
      (no_nodes ns w.0)
  where
    no_nodes : (ns : OrderList) → not (is_empty ns) ≡ false → ns ≡ []
    no_nodes [] h = refl
    no_nodes (n ∷ ns) h = absurd (cc)

-- The level at the index that a scan finds stands first, whatever it is changed to.
first_falling :
    (p t i : ℕ) (ls : List OrderList) (ns : OrderList)
    → last_active (length ls) (flags ls) ≡ some i
    → flat (falling p t (set ls i ns)) ≡ ns ++ flat (falling p t (set ls i []))
unfolding last_active
first_falling p t i [] ns h = absurd (cc)
first_falling p t i (ms ∷ ls) ns h = elim (Option-cases (last_active (length ls) (flags ls))) [
  | inl e ↦
      let w : i ≡ 0 = first_of_none (not (is_empty ms)) i (rw (last_active-cons, e) at h) in
      rw
        (
          w,
          flat-append (falling (p + t) t ls) ((p, ns) ∷ []),
          flat-append (falling (p + t) t ls) ((p, []) ∷ []),
          falling_nothing (p + t) t ls e,
        )
        refl
  | inr (j, e) ↦
      let w : i ≡ suc j = first_of_some (not (is_empty ms)) i j (rw (last_active-cons, e) at h) in
      rw
        (
          w,
          flat-append (falling (p + t) t (set ls j ns)) ((p, ms) ∷ []),
          flat-append (falling (p + t) t (set ls j [])) ((p, ms) ∷ []),
          first_falling (p + t) t j ls ns e,
        )
        (append_assoc ns (flat (falling (p + t) t (set ls j []))) (ms ++ []))
]
  where
    first_of_none : (a : Bool) (i : ℕ) → or_first a none ≡ some i → i ≡ 0
    first_of_none true i h = cc
    first_of_none false i h = absurd (cc)

    first_of_some : (a : Bool) (i j : ℕ) → or_first a (some j) ≡ some i → i ≡ suc j
    first_of_some a i j h = cc

up-some : (o : Option ℕ) (i : ℕ) → up o ≡ some i → (j : ℕ) × (i ≡ suc j) × (o ≡ some j)
up-some none i h = absurd (cc)
up-some (some j) i h = (j, cc, refl)

first_rising :
    (p t i : ℕ) (ls : List OrderList) (ns : OrderList)
    → first_active (length ls) 0 (flags ls) ≡ some i
    → flat (rising p t (set ls i ns)) ≡ ns ++ flat (rising p t (set ls i []))
unfolding first_active
first_rising p t i [] ns h = absurd (cc)
first_rising p t i ([] ∷ ls) ns h =
    let (j, w, e) = up-some (first_active (length ls) 0 (flags ls)) i (rw first_active-cons at h) in
    rw w (first_rising (p + t) t j ls ns e)
first_rising p t zero ((m ∷ ms) ∷ ls) ns h = refl
first_rising p t (suc i) ((m ∷ ms) ∷ ls) ns h = absurd (cc)

pub scan-first :
    (b : Bool) (p t i : ℕ) (ls : List OrderList) (ns : OrderList)
    → scan b (length ls) (flags ls) ≡ some i
    → flat (ladder b p t (set ls i ns)) ≡ ns ++ flat (ladder b p t (set ls i []))
scan-first true = first_falling
scan-first false = first_rising

-- A level's price leads back to its index.
back : (p t i : ℕ) → 0 < t → p + i * t ≤ max_u64 → (p + i * t + 2 ^ 64 - p) % 2 ^ 64 / t ≡ i
back p t i h b =
    let e : (p + i * t + 2 ^ 64 - p) % 2 ^ 64 ≡ i * t = omega arith in rw e (mul-div_cancel i h)

pub price_to_index-level :
    (k : ArrayBook) (i : ℕ)
    → IsConfigured k
    → i < k.num_levels
    → price_to_index k (k.min_price + i * k.tick_size) ≡ i
unfolding price_to_index
price_to_index-level k i c h =
    let w = index_to_price-inside k i c h in
    back k.min_price k.tick_size i c.tick (omega (arith, w.0, c.fits))

-- The fuel of `match_orders` counts the resting orders.
pub total_length-flat :
    (b : Bool) (p t : ℕ) (ls : List OrderList) → total_length ls ≡ length (flat (ladder b p t ls))
total_length-flat true p t [] = refl
total_length-flat true p t (ns ∷ ls) =
    rw (flat-append (falling (p + t) t ls) ((p, ns) ∷ []), append-nil ns)
      (omega (
        arith,
        length-append (flat (falling (p + t) t ls)) ns,
        total_length-flat true (p + t) t ls,
      ))
total_length-flat false p t [] = refl
total_length-flat false p t (ns ∷ ls) =
    omega
      (arith, length-append ns (flat (rising (p + t) t ls)), total_length-flat false (p + t) t ls)
