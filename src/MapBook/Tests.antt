-- ===== src/MapBook/Tests.antt =====
-- A sample map book, and the theorems at it.
use hft_orderbook_benchmark.Common.{◌+◌, ◌≡◌, ◌<◌, ◌⊎◌, refl, false, List, [], ◌∷◌}
use hft_orderbook_benchmark.Samples.{order, session}
use hft_orderbook_benchmark.Core.{buy, sell}
use hft_orderbook_benchmark.Contract
use hft_orderbook_benchmark.Contract.{Match}
use hft_orderbook_benchmark.Contract.Matches.{total, traded}
use hft_orderbook_benchmark.Contract.Runs.{Op, add, Run}
use hft_orderbook_benchmark.Matching.{Location, match_levels, match_front}
use hft_orderbook_benchmark.MapBook.{
  MapBook, empty, add_order, cancel_order, modify_order, match_orders, get_best_bid, get_best_ask,
  get_order_count,
}
use hft_orderbook_benchmark.MapBook.View.{view, IsValid, Refines}
use hft_orderbook_benchmark.MapBook.Add.{add_order-Refines}
use hft_orderbook_benchmark.MapBook.Cancel.{cancel_order-Refines, modify_order-Refines}
use hft_orderbook_benchmark.MapBook.Refine.{
  run, run-empty-Refines, match_orders-Refines, match_orders-determined, getters-Refine,
  match_orders-settles,
}

-- Two bids and two asks, of which the best two cross.
abbrev sample_ops : List Op
sample_ops =
    add (order 1 100 5 buy)
    ∷ add (order 2 102 3 buy)
    ∷ add (order 3 101 4 sell)
    ∷ add (order 4 103 2 sell)
    ∷ []

abbrev sample_book : MapBook
sample_book = (run sample_ops empty).1

sample_book-IsValid : IsValid sample_book
sample_book-IsValid = (run-empty-Refines sample_ops).0

-- A match trades the three that cross at the ask's price.
match_sample :
    (match_orders sample_book).0
    ≡ record { buy_order_id = 2; sell_order_id = 3; price = 101; quantity = 3 } ∷ []
unfolding run empty match_orders match_levels match_front
match_sample = refl

best_after_match :
    (get_best_bid (match_orders sample_book).1 ≡ 100)
    × (get_best_ask (match_orders sample_book).1 ≡ 101)
unfolding run empty match_orders match_levels match_front get_best_bid get_best_ask
best_after_match = (refl, refl)

run-empty-Refines_example :
    IsValid (run session empty).1
    × Run
        (record { bids = []; asks = [] })
        session
        (run session empty).0
        (view (run session empty).1)
run-empty-Refines_example = run-empty-Refines session

match_orders-Refines_example :
    IsValid (match_orders sample_book).1
    × Match
        (view sample_book).bids
        (view sample_book).asks
        (match_orders sample_book).0
        (view (match_orders sample_book).1).bids
        (view (match_orders sample_book).1).asks
match_orders-Refines_example = match_orders-Refines sample_book sample_book-IsValid

match_orders-determined_example :
    ((match_orders sample_book).0 ≡ (match_orders sample_book).0)
    × ((view (match_orders sample_book).1).bids ≡ (view (match_orders sample_book).1).bids)
    × ((view (match_orders sample_book).1).asks ≡ (view (match_orders sample_book).1).asks)
match_orders-determined_example =
    match_orders-determined sample_book sample_book-IsValid
      (match_orders-Refines sample_book sample_book-IsValid).1

add_order-Refines_example :
    Refines
      (add_order (order 5 100 7 buy) sample_book)
      (Contract.add (order 5 100 7 buy) (view sample_book))
add_order-Refines_example = add_order-Refines sample_book sample_book-IsValid (order 5 100 7 buy)

cancel_order-Refines_example :
    Refines (cancel_order 3 sample_book) (Contract.cancel 3 (view sample_book))
cancel_order-Refines_example = cancel_order-Refines sample_book sample_book-IsValid 3

modify_order-Refines_example :
    Refines (modify_order 2 9 sample_book) (Contract.modify 2 9 (view sample_book))
modify_order-Refines_example = modify_order-Refines sample_book sample_book-IsValid 2 9

getters-Refine_example :
    (get_order_count sample_book ≡ Contract.count (view sample_book))
    × (get_best_bid sample_book ≡ Contract.best_bid (view sample_book))
    × (get_best_ask sample_book ≡ Contract.best_ask (view sample_book))
getters-Refine_example = getters-Refine sample_book sample_book-IsValid

match_orders-settles_example :
    (total (view sample_book).bids
      ≡ traded (match_orders sample_book).0 + total (view (match_orders sample_book).1).bids)
    × (total (view sample_book).asks
        ≡ traded (match_orders sample_book).0 + total (view (match_orders sample_book).1).asks)
    × (((view (match_orders sample_book).1).bids ≡ [])
        ⊎ ((view (match_orders sample_book).1).asks ≡ [])
        ⊎ (get_best_bid (match_orders sample_book).1 < get_best_ask (match_orders sample_book).1))
match_orders-settles_example = match_orders-settles sample_book sample_book-IsValid

abbrev third : Location
third = record { is_buy = false; price = 101; iterator = 2 }
