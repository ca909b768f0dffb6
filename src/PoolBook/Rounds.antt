-- ===== src/PoolBook/Rounds.antt =====
-- src/orderbooks/pool_order_book.cpp: `match`.
use hft_orderbook_benchmark.Common.{
  ℕ, zero, suc, ◌+◌, ◌-◌, Bool, true, false, not, List, [], ◌∷◌, ◌++◌, if◌then◌else◌, ltb, ◌==◌,
  length, min_of,
}
use hft_orderbook_benchmark.Core.{Order, Trade}
use hft_orderbook_benchmark.Containers.Ladder
use hft_orderbook_benchmark.Containers.Ladder.{Ladder}
use hft_orderbook_benchmark.Containers.Index
use hft_orderbook_benchmark.Containers.Index.{is_some}
use hft_orderbook_benchmark.PoolBook.{
  PoolLimitLevel, PoolBook, Outcome, ok, out_of_fuel, ◌>>=◌, node_at, order_at, change,
  requantified, unlink, free_slot,
}

-- A filled order leaves its level, the lookup and its slot.
unfoldable pub drop_filled : Bool → ℕ → Order → PoolBook → Outcome PoolBook
unfolding unlink free_slot Index.erase
drop_filled b i o k =
    if o.quantity == 0
    then (do
      k' ← unlink b i k
      free_slot i (record k' { order_lookup = Index.erase o.id k'.order_lookup }))
    else ok k

abbrev pub filled_by : ℕ → Order → Order
filled_by q o = record o { quantity = o.quantity - q }

-- One round of the inner loop between the orders of two slots: the trade, the slots for the next
-- round, and the book.
unfoldable pub trade_slots : ℕ → ℕ → PoolBook → Outcome (Trade × ℕ × ℕ × PoolBook)
unfolding drop_filled
trade_slots i j k = do
  bid ← order_at i k.orders
  ask ← order_at j k.orders
  let q = min_of bid.quantity ask.quantity
  ns ← change i (requantified (bid.quantity - q)) k.orders
  ms ← change j (requantified (ask.quantity - q)) ns
  b ← node_at i ms
  a ← node_at j ms
  k' ← drop_filled true i (filled_by q bid) (record k { orders = ms })
  k'' ← drop_filled false j (filled_by q ask) k'
  ok (
    record { buy_order_id = bid.id; sell_order_id = ask.id; price = ask.price; quantity = q },
    if bid.quantity - q == 0 then b.next else i,
    if ask.quantity - q == 0 then a.next else j,
    k'',
  )

abbrev pub with_trade : Trade → List Trade × PoolBook → Outcome (List Trade × PoolBook)
with_trade t (ts, k) = ok (t ∷ ts, k)

abbrev pub behind : List Trade → List Trade × PoolBook → Outcome (List Trade × PoolBook)
behind ts (us, k) = ok (ts ++ us, k)

-- The loops, where `reread` is what the read of the price of an erased level comes to, for a level that
-- had the price `p`: the level is a node of a `std::map`, and C++ leaves its use after `erase` undefined.
module _ (reread : ℕ → Outcome ℕ) where
  -- `bidLevel.price` at the end of a round.
  abbrev price_of : ℕ → Ladder PoolLimitLevel → Outcome ℕ
  price_of p m = if is_some (Ladder.find p m) then ok p else reread p

  -- The test for the end of the inner loop, which reads the prices of both levels.
  unfoldable pub is_level_gone : ℕ → ℕ → PoolBook → Outcome Bool
  unfolding Ladder.find
  is_level_gone p q k = do
    p' ← price_of p k.bids
    if is_some (Ladder.find p' k.bids)
        then (do q' ← price_of q k.asks; ok (not (is_some (Ladder.find q' k.asks))))
        else ok true

  -- The inner loop, from the slots `i` and `j` of the levels of the prices `p` and `q`.
  unfoldable pub match_level : ℕ → ℕ → ℕ → ℕ → ℕ → PoolBook → Outcome (List Trade × PoolBook)
  unfolding trade_slots is_level_gone
  match_level zero p q i j k = out_of_fuel
  match_level (suc f) p q i j k = do
    (t, i', j', k') ← trade_slots i j k
    gone ← is_level_gone p q k'
    elim gone [ true ↦ ok (t ∷ [], k') | false ↦ match_level f p q i' j' k' >>= with_trade t ]

  -- The outer loop.
  unfoldable pub match_loop : ℕ → PoolBook → Outcome (List Trade × PoolBook)
  unfolding match_level
  match_loop zero k = out_of_fuel
  match_loop (suc f) k = elim k.bids [
    | [] ↦ ok ([], k)
    | (p, l) ∷ bids ↦ elim k.asks [
      | [] ↦ ok ([], k)
      | (q, m) ∷ asks ↦ elim (ltb l.price m.price) [
        | true ↦ ok ([], k)
        | false ↦ do
          (ts, k') ← match_level (length k.orders + 1) l.price m.price l.head m.head k
          match_loop f k' >>= behind ts
      ]
    ]
  ]

  -- A round of either loop takes an order off the book, so there are at most as many as slots, and one
  -- more of the outer loop to see that nothing crosses.
  unfoldable pub match_orders : PoolBook → Outcome (List Trade × PoolBook)
  unfolding match_loop
  match_orders k = match_loop (length k.orders + 1) k
