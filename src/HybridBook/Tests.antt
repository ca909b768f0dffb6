-- ===== src/HybridBook/Tests.antt =====
-- Hybrid books with one hot level, and the theorems at them.
use mathlib.Core.Option
use hft_orderbook_benchmark.Common.{ℕ, ◌≡◌, ◌<◌, refl, List, [], ◌∷◌, Option, none, some, arith}
use hft_orderbook_benchmark.Core.{Trade, buy, sell}
use hft_orderbook_benchmark.Samples.{order}
use hft_orderbook_benchmark.Containers.OrderList.{OrderList}
use hft_orderbook_benchmark.Containers.Ladder
use hft_orderbook_benchmark.Containers.Index
use hft_orderbook_benchmark.HybridBook.{HybridBook, create, add_order, cancel_order, get_best_bid}
use hft_orderbook_benchmark.HybridBook.Rounds.{match_orders}
use hft_orderbook_benchmark.HybridBook.Priority.{add_order-worse_best}

abbrev or_new : Option HybridBook → HybridBook
or_new none = create 1
or_new (some k) = k

-- A bid at 10 is hot and one at 9 cold; then the first is cancelled.
abbrev one_cold : HybridBook
one_cold = or_new (
    Option.bind (add_order (order 1 10 5 buy) (create 1))
      (λ k. Option.bind (add_order (order 2 9 5 buy) k) (cancel_order 1)))

abbrev cold_level : OrderList
cold_level = record { cell = 1; order = order 2 9 5 buy } ∷ []

add_order-worse_best_example :
    (k' : HybridBook) × (add_order (order 3 5 5 buy) one_cold ≡ some k')
    × (get_best_bid k' < 9)
    × (Ladder.find 9 k'.bids.cold ≡ some cold_level)
unfolding add_order cancel_order create Index.empty Index.insert Index.erase Ladder.find Option.bind
add_order-worse_best_example =
    add_order-worse_best one_cold (order 3 5 5 buy) 9 cold_level refl refl refl refl refl
      (omega arith)

abbrev outcome : Option (List Trade × HybridBook) → List Trade × ℕ
outcome none = ([], 0)
outcome (some (ts, k)) = (ts, get_best_bid k)

-- An ask at 5 then trades with the bid at 5 before the one at 9.
match_worse_first :
    outcome (
      Option.bind
        (add_order (order 3 5 5 buy) one_cold)
        (λ k. Option.bind (add_order (order 4 5 5 sell) k) match_orders))
    ≡ (record { buy_order_id = 3; sell_order_id = 4; price = 5; quantity = 5 } ∷ [], 9)
unfolding add_order cancel_order create Index.empty Index.insert Index.erase Option.bind
    match_orders get_best_bid
match_worse_first = refl
