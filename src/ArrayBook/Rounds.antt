-- ===== src/ArrayBook/Rounds.antt =====
-- src/orderbooks/array_order_book.cpp: `match`. `none` is `front()` of an empty list, which C++ leaves
-- undefined.
use hft_orderbook_benchmark.Common.{
  ℕ, zero, suc, ◌+◌, ◌-◌, true, false, List, [], ◌∷◌, Option, none, some, if◌then◌else◌, ltb, ◌==◌,
  length, is_empty, get_or, set, min_of,
}
use hft_orderbook_benchmark.Core.{Trade}
use hft_orderbook_benchmark.Containers.OrderList.{Node, OrderList}
use hft_orderbook_benchmark.Containers.Index
use hft_orderbook_benchmark.Matching.{less, pop_filled}
use hft_orderbook_benchmark.ArrayBook.{
  ArrayBook, price_to_index, update_best_bid_cache, update_best_ask_cache,
}

-- The front bid, filled by `q`: written back, or popped and its level closed when that was the last.
unfoldable pub fill_bid : ℕ → ℕ → Node → OrderList → ArrayBook → ArrayBook
unfolding update_best_bid_cache Index.erase
fill_bid i q n ns k =
    let k' = record k { bid_levels = set k.bid_levels i (pop_filled (less q n) ns) } in
    let k'' = record k' { order_lookup = Index.erase n.order.id k'.order_lookup } in
    if n.order.quantity - q == 0
    then (if is_empty ns
        then update_best_bid_cache
            (record k'' { active_bid_levels = set k''.active_bid_levels i false })
        else k'')
    else k'

unfoldable pub fill_ask : ℕ → ℕ → Node → OrderList → ArrayBook → ArrayBook
unfolding update_best_ask_cache Index.erase
fill_ask i q n ns k =
    let k' = record k { ask_levels = set k.ask_levels i (pop_filled (less q n) ns) } in
    let k'' = record k' { order_lookup = Index.erase n.order.id k'.order_lookup } in
    if n.order.quantity - q == 0
    then (if is_empty ns
        then update_best_ask_cache
            (record k'' { active_ask_levels = set k''.active_ask_levels i false })
        else k'')
    else k'

-- One round of `match`, between the fronts of the two best levels.
unfoldable pub trade_fronts : OrderList → OrderList → ArrayBook → Option (Trade × ArrayBook)
unfolding fill_bid fill_ask price_to_index
trade_fronts [] ys k = none
trade_fronts (b ∷ xs) [] k = none
trade_fronts (b ∷ xs) (a ∷ ys) k =
    let q = min_of b.order.quantity a.order.quantity in
    some (
      record {
        buy_order_id = b.order.id;
        sell_order_id = a.order.id;
        price = a.order.price;
        quantity = q;
      },
      fill_ask (price_to_index k k.cached_best_ask) q a ys
          (fill_bid (price_to_index k k.cached_best_bid) q b xs k),
    )

abbrev pub with_trade : Trade → Option (List Trade × ArrayBook) → Option (List Trade × ArrayBook)
with_trade t none = none
with_trade t (some (ts, k)) = some (t ∷ ts, k)

-- The loop of `match`. Each round takes an order off the book.
unfoldable pub match_loop : ℕ → ArrayBook → Option (List Trade × ArrayBook)
unfolding trade_fronts
match_loop zero k = some ([], k)
match_loop (suc f) k = elim (ltb k.cached_best_bid k.cached_best_ask) [
  | true ↦ some ([], k)
  | false ↦
      elim (trade_fronts (get_or k.bid_levels (price_to_index k k.cached_best_bid) [])
        (get_or k.ask_levels (price_to_index k k.cached_best_ask) []) k) [
          | none ↦ none
          | some (t, k') ↦ with_trade t (match_loop f k')
        ]
]

abbrev pub total_length : List OrderList → ℕ
total_length [] = 0
total_length (ns ∷ levels) = length ns + total_length levels

-- `match`, with a round for every resting order and one more to see that none is left.
unfoldable pub match_orders : ArrayBook → Option (List Trade × ArrayBook)
unfolding match_loop
match_orders k = match_loop (suc (total_length k.bid_levels + total_length k.ask_levels)) k
