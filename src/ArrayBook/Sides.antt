-- ===== src/ArrayBook/Sides.antt =====
-- src/orderbooks/array_order_book.hpp: the arrays of a side as price levels, the best one first.
use hft_orderbook_benchmark.Common.{
  ℕ, zero, suc, ◌+◌, ◌*◌, ◌<◌, ◌≡◌, refl, sym, ap, ◌∙◌, Bool, true, false, List, [], ◌∷◌, ◌++◌,
  ◌==◌, arith, All, All-append, length, get_or, set,
}
use hft_orderbook_benchmark.Containers.OrderList.{OrderList}
use hft_orderbook_benchmark.Containers.Ladder.{Ladder, before}
use hft_orderbook_benchmark.Resting.{flat}
use hft_orderbook_benchmark.Resting.Keyed.{
  IsKeyed, adjust, has_key, adjust-append, adjust-append_other,
}
use hft_orderbook_benchmark.ArrayBook.{replicate}

-- The levels with their prices, from the price `p` on in steps of `t`: the lowest price first for asks, the
-- highest first for bids.
abbrev pub rising : ℕ → ℕ → List OrderList → Ladder OrderList
rising p t [] = []
rising p t (ns ∷ ls) = (p, ns) ∷ rising (p + t) t ls

abbrev pub falling : ℕ → ℕ → List OrderList → Ladder OrderList
falling p t [] = []
falling p t (ns ∷ ls) = falling (p + t) t ls ++ (p, ns) ∷ []

abbrev pub ladder : Bool → ℕ → ℕ → List OrderList → Ladder OrderList
ladder true = falling
ladder false = rising

has_key-append :
    (q : ℕ) (m k : Ladder OrderList) → has_key q m ≡ false → has_key q (m ++ k) ≡ has_key q k
has_key-append q [] k h = refl
has_key-append q ((p, ns) ∷ m) k h = ground (arith, has_key-append q m k)

has_key-append_left :
    (q : ℕ) (m k : Ladder OrderList) → has_key q m ≡ true → has_key q (m ++ k) ≡ true
has_key-append_left q [] k h = absurd (cc)
has_key-append_left q ((p, ns) ∷ m) k h = ground (arith, has_key-append_left q m k)

-- A price below the first is no key.
below_rising : (q p t : ℕ) (ls : List OrderList) → q < p → has_key q (rising p t ls) ≡ false
below_rising q p t [] h = refl
below_rising q p t (ns ∷ ls) h = ground (arith, below_rising q (p + t) t ls (omega arith))

below_falling : (q p t : ℕ) (ls : List OrderList) → q < p → has_key q (falling p t ls) ≡ false
below_falling q p t [] h = refl
below_falling q p t (ns ∷ ls) h =
    has_key-append q (falling (p + t) t ls) ((p, ns) ∷ [])
      (below_falling q (p + t) t ls (omega arith))
    ∙ ground arith

next_key : (p t i : ℕ) → p + t + i * t ≡ p + suc i * t
next_key p t i = grind arith

key_behind : (p t i : ℕ) → 0 < t → (p + suc i * t == p) ≡ false
key_behind p t i h = let e = next_key p t i in ground (arith, e)

module _ (t : ℕ) (pos : 0 < t) where
  rising-has_key :
      (p i : ℕ) (ls : List OrderList) → i < length ls → has_key (p + i * t) (rising p t ls) ≡ true
  rising-has_key p i [] h = absurd (omega arith)
  rising-has_key p zero (ns ∷ ls) h = let e : p + 0 * t ≡ p = grind arith in rw e (ground arith)
  rising-has_key p (suc i) (ns ∷ ls) h =
      let step : has_key (p + suc i * t) (rising (p + t) t ls) ≡ true =
        rw (← next_key p t i) (rising-has_key (p + t) i ls (omega arith)) in
      rw (key_behind p t i pos) step

  rising-set :
      (p i : ℕ) (f : OrderList → OrderList) (ls : List OrderList)
      → i < length ls
      → rising p t (set ls i (f (get_or ls i []))) ≡ adjust (p + i * t) f (rising p t ls)
  rising-set p i f [] h = absurd (omega arith)
  rising-set p zero f (ns ∷ ls) h = let e : p + 0 * t ≡ p = grind arith in rw e (ground arith)
  rising-set p (suc i) f (ns ∷ ls) h =
      let step : rising (p + t) t (set ls i (f (get_or ls i [])))
          ≡ adjust (p + suc i * t) f (rising (p + t) t ls) =
        rw (← next_key p t i) (rising-set (p + t) i f ls (omega arith)) in
      rw (key_behind p t i pos) (ap (◌∷◌ (p, ns)) step)

  falling-has_key :
      (p i : ℕ) (ls : List OrderList) → i < length ls → has_key (p + i * t) (falling p t ls) ≡ true
  falling-has_key p i [] h = absurd (omega arith)
  falling-has_key p zero (ns ∷ ls) h =
      let e : p + 0 * t ≡ p = grind arith in
      rw
        (
          e,
          has_key-append p (falling (p + t) t ls) ((p, ns) ∷ [])
              (below_falling p (p + t) t ls (omega arith)),
        )
        (ground arith)
  falling-has_key p (suc i) (ns ∷ ls) h =
      has_key-append_left (p + suc i * t) (falling (p + t) t ls) ((p, ns) ∷ [])
        (rw (← next_key p t i) (falling-has_key (p + t) i ls (omega arith)))

  falling-set :
      (p i : ℕ) (f : OrderList → OrderList) (ls : List OrderList)
      → i < length ls
      → falling p t (set ls i (f (get_or ls i []))) ≡ adjust (p + i * t) f (falling p t ls)
  falling-set p i f [] h = absurd (omega arith)
  falling-set p zero f (ns ∷ ls) h =
      let e : p + 0 * t ≡ p = grind arith in
      rw
        (
          e,
          adjust-append p f (falling (p + t) t ls) ((p, ns) ∷ [])
              (below_falling p (p + t) t ls (omega arith)),
        )
        (ground arith)
  falling-set p (suc i) f (ns ∷ ls) h =
      let step : falling (p + t) t (set ls i (f (get_or ls i [])))
          ≡ adjust (p + suc i * t) f (falling (p + t) t ls) =
        rw (← next_key p t i) (falling-set (p + t) i f ls (omega arith)) in
      ap (λ m. m ++ (p, ns) ∷ []) step
      ∙ sym
          (adjust-append_other (p + suc i * t) p f (falling (p + t) t ls) ns (key_behind p t i pos))

  pub ladder-has_key :
      (b : Bool) (p i : ℕ) (ls : List OrderList)
      → i < length ls
      → has_key (p + i * t) (ladder b p t ls) ≡ true
  ladder-has_key true = falling-has_key
  ladder-has_key false = rising-has_key

  -- A change of the level at an index is the change at its price.
  pub ladder-set :
      (b : Bool) (p i : ℕ) (f : OrderList → OrderList) (ls : List OrderList)
      → i < length ls
      → ladder b p t (set ls i (f (get_or ls i []))) ≡ adjust (p + i * t) f (ladder b p t ls)
  ladder-set true = falling-set
  ladder-set false = rising-set

-- Each level holds its own price.
abbrev pub IsPriced : ℕ → ℕ → List OrderList → Type 0
IsPriced p t [] = Unit
IsPriced p t (ns ∷ ls) = All (λ n. n.order.price ≡ p) ns × IsPriced (p + t) t ls

keys_from :
    (q p t : ℕ) (ls : List OrderList) → q < p → All (λ l. before false q l.0 ≡ true) (rising p t ls)
keys_from q p t [] h = tt
keys_from q p t (ns ∷ ls) h = (ground arith, keys_from q (p + t) t ls (omega arith))

keys_to :
    (q p t : ℕ) (ls : List OrderList) → q < p → All (λ l. before true l.0 q ≡ true) (falling p t ls)
keys_to q p t [] h = tt
keys_to q p t (ns ∷ ls) h =
    All-append (λ l. before true l.0 q ≡ true) (falling (p + t) t ls) ((p, ns) ∷ [])
      (keys_to q (p + t) t ls (omega arith)) (ground arith, tt)

IsKeyed-append :
    (m : Ladder OrderList) (p : ℕ) (ms : OrderList)
    → IsKeyed true m
    → All (λ l. before true l.0 p ≡ true) m
    → All (λ n. n.order.price ≡ p) ms
    → IsKeyed true (m ++ (p, ms) ∷ [])
IsKeyed-append [] p ms v h k = (k, tt, tt)
IsKeyed-append ((q, ns) ∷ m) p ms v h k = (
  v.0,
  All-append (λ l. before true q l.0 ≡ true) m ((p, ms) ∷ []) v.1 (h.0, tt),
  IsKeyed-append m p ms v.2 h.1 k,
)

pub ladder-IsKeyed :
    (b : Bool) (p t : ℕ) (ls : List OrderList)
    → 0 < t
    → IsPriced p t ls
    → IsKeyed b (ladder b p t ls)
ladder-IsKeyed true p t [] h v = tt
ladder-IsKeyed true p t (ns ∷ ls) h v =
    IsKeyed-append (falling (p + t) t ls) p ns (ladder-IsKeyed true (p + t) t ls h v.1)
      (keys_to p (p + t) t ls (omega arith)) v.0
ladder-IsKeyed false p t [] h v = tt
ladder-IsKeyed false p t (ns ∷ ls) h v =
    (v.0, keys_from p (p + t) t ls (omega arith), ladder-IsKeyed false (p + t) t ls h v.1)

pub set-IsPriced :
    (p t i : ℕ) (ns : OrderList) (ls : List OrderList)
    → All (λ n. n.order.price ≡ p + i * t) ns
    → IsPriced p t ls
    → IsPriced p t (set ls i ns)
set-IsPriced p t i ns [] h v = tt
set-IsPriced p t zero ns (ms ∷ ls) h v = let e : p + 0 * t ≡ p = grind arith in (rw e at h, v.1)
set-IsPriced p t (suc i) ns (ms ∷ ls) h v =
    (v.0, set-IsPriced (p + t) t i ns ls (rw (next_key p t i) h) v.1)

pub get_or-IsPriced :
    (p t i : ℕ) (ls : List OrderList)
    → IsPriced p t ls
    → All (λ n. n.order.price ≡ p + i * t) (get_or ls i [])
get_or-IsPriced p t i [] v = tt
get_or-IsPriced p t zero (ms ∷ ls) v = let e : p + 0 * t ≡ p = grind arith in rw e v.0
get_or-IsPriced p t (suc i) (ms ∷ ls) v = rw (← next_key p t i) (get_or-IsPriced (p + t) t i ls v.1)

-- A new side: no order rests.
pub new-IsPriced : (p t n : ℕ) → IsPriced p t (replicate n [])
new-IsPriced p t zero = tt
new-IsPriced p t (suc n) = (tt, new-IsPriced (p + t) t n)

flat-append_empty : (m : Ladder OrderList) (p : ℕ) → flat m ≡ [] → flat (m ++ (p, []) ∷ []) ≡ []
flat-append_empty [] p h = refl
flat-append_empty ((q, []) ∷ m) p h = flat-append_empty m p h
flat-append_empty ((q, n ∷ ns) ∷ m) p h = absurd (cc)

pub new-flat : (b : Bool) (p t n : ℕ) → flat (ladder b p t (replicate n [])) ≡ []
new-flat true p t zero = refl
new-flat true p t (suc n) =
    flat-append_empty (falling (p + t) t (replicate n [])) p (new-flat true (p + t) t n)
new-flat false p t zero = refl
new-flat false p t (suc n) = new-flat false (p + t) t n
