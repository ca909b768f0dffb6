-- ===== src/PoolBook/Erased.antt =====
-- src/orderbooks/pool_order_book.cpp: the test at the end of the inner loop of `match`.
use hft_orderbook_benchmark.Common.{
  ℕ, zero, suc, ◌+◌, ◌≡◌, ◌≢◌, refl, Bool, true, false, not, List, [], ◌∷◌, ltb, arith, Bool-cases,
  inl, inr, length,
}
use hft_orderbook_benchmark.Core.{Trade}
use hft_orderbook_benchmark.Containers.Ladder
use hft_orderbook_benchmark.Containers.Ladder.{Ladder}
use hft_orderbook_benchmark.Containers.Index.{is_some}
use hft_orderbook_benchmark.PoolBook.{PoolBook, PoolLimitLevel, Outcome, ok, undefined, ◌>>=◌}
use hft_orderbook_benchmark.PoolBook.Outcomes.{returned}
use hft_orderbook_benchmark.PoolBook.Rounds.{
  with_trade, behind, trade_slots, is_level_gone, match_level, match_loop, match_orders,
}

-- The best levels of both sides cross.
abbrev crosses : Ladder PoolLimitLevel → Ladder PoolLimitLevel → Bool
crosses [] asks = false
crosses ((p, l) ∷ bids) [] = false
crosses ((p, l) ∷ bids) ((q, m) ∷ asks) = not (ltb l.price m.price)

unfoldable pub is_crossed : PoolBook → Bool
is_crossed k = crosses k.bids k.asks

-- The levels of a book that crosses.
record Fronts (k : PoolBook) : Type 0 where
  bid_key : ℕ
  bid : PoolLimitLevel
  bids : Ladder PoolLimitLevel
  ask_key : ℕ
  ask : PoolLimitLevel
  asks : Ladder PoolLimitLevel
  bid_side : k.bids ≡ (bid_key, bid) ∷ bids
  ask_side : k.asks ≡ (ask_key, ask) ∷ asks
  cross : ltb bid.price ask.price ≡ false

fronts :
    (k : PoolBook) (xs ys : Ladder PoolLimitLevel)
    → k.bids ≡ xs
    → k.asks ≡ ys
    → crosses xs ys ≡ true
    → Fronts k
fronts k [] ys e g h = absurd (cc)
fronts k ((p, l) ∷ xs) [] e g h = absurd (cc)
fronts k ((p, l) ∷ xs) ((q, m) ∷ ys) e g h = record {
  bid_key = p;
  bid = l;
  bids = xs;
  ask_key = q;
  ask = m;
  asks = ys;
  bid_side = e;
  ask_side = g;
  cross = (ground (arith, h));
}

abbrev pub erased : ℕ → Outcome ℕ
erased p = undefined

is_level_gone-erased : (p q : ℕ) (k : PoolBook) → is_level_gone erased p q k ≢ ok true
unfolding is_level_gone
is_level_gone-erased p q k h = elim (Bool-cases (is_some (Ladder.find p k.bids))) [
  | inl e ↦ elim (Bool-cases (is_some (Ladder.find q k.asks))) [
    | inl g ↦ absurd (ground (arith, e, g, h))
    | inr g ↦ absurd (ground (arith, e, g, h))
  ]
  | inr e ↦ absurd (ground (arith, e, h))
]

match_level-erased :
    (f p q i j : ℕ) (k : PoolBook) (r : List Trade × PoolBook)
    → match_level erased f p q i j k ≢ ok r
unfolding match_level
match_level-erased zero p q i j k r h = absurd (cc)
match_level-erased (suc f) p q i j k r h =
    let ((t, i', j', k'), e, g) = returned (trade_slots i j k) _ r h in
    let (gone, w, z) = returned (is_level_gone erased p q k') _ r g in
    elim (Bool-cases gone) [
      | inl x ↦ is_level_gone-erased p q k' (rw x at w)
      | inr x ↦
          let (s, y, v) =
            returned (match_level erased f p q i' j' k') (with_trade t) r (rw x at z) in
          match_level-erased f p q i' j' k' s y
    ]

match_loop-erased :
    (f : ℕ) (k : PoolBook) (r : List Trade × PoolBook)
    → is_crossed k ≡ true
    → match_loop erased f k ≢ ok r
unfolding match_loop is_crossed
match_loop-erased zero k r c h = absurd (cc)
match_loop-erased (suc f) k r c h =
    let w = fronts k k.bids k.asks refl refl c in
    let n = length k.orders + 1 in
    let round = match_level erased n w.bid.price w.ask.price w.bid.head w.ask.head k in
    let z : (round >>= λ (ts, k'). match_loop erased f k' >>= behind ts) ≡ ok r =
      rw (match_loop, w.bid_side, w.ask_side, w.cross) at h in
    let (s, e, g) = returned round (λ (ts, k'). match_loop erased f k' >>= behind ts) r z in
    match_level-erased n w.bid.price w.ask.price w.bid.head w.ask.head k s e

-- A flaw: from a book whose best prices cross, `match` does not return normally, and neither does its
-- inner loop from any two slots, however many rounds it is given, where the read of the price of an
-- erased level is undefined: the test at the end of the last round at a level is such a read.
pub match_orders-erased :
    (k : PoolBook) (r : List Trade × PoolBook)
    → is_crossed k ≡ true
    → (match_orders erased k ≢ ok r) × ((f p q i j : ℕ) → match_level erased f p q i j k ≢ ok r)
unfolding match_orders
match_orders-erased k r c = (
  λ h. match_loop-erased (length k.orders + 1) k r c h,
  λ f p q i j. match_level-erased f p q i j k r,
)
