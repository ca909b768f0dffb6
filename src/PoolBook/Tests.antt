-- ===== src/PoolBook/Tests.antt =====
-- Pool books of a few slots, and the theorems at them.
use hft_orderbook_benchmark.Common.{ℕ, ◌≡◌, ◌≢◌, refl, true, List, [], ◌∷◌, arith}
use hft_orderbook_benchmark.Samples.{order}
use hft_orderbook_benchmark.Core.{Order, Trade, buy, sell}
use hft_orderbook_benchmark.Containers.Index
use hft_orderbook_benchmark.PoolBook.{
  PoolBook, Outcome, ok, out_of_memory, ◌>>=◌, create, add_order, cancel_order, modify_order,
  get_best_bid, get_best_ask, get_order_count, free_slots,
}
use hft_orderbook_benchmark.PoolBook.Rounds.{match_orders, match_level}
use hft_orderbook_benchmark.PoolBook.Erased.{erased, is_crossed, match_orders-erased}
use hft_orderbook_benchmark.PoolBook.View.{Stands}
use hft_orderbook_benchmark.PoolBook.Add.{Adds, add_order-Adds}
use hft_orderbook_benchmark.PoolBook.Filling.{
  nothing, fresh_pool-Stands, add_orders, added, add_orders-create,
}
use hft_orderbook_benchmark.PoolBook.Modify.{modify_order-Stands}
use hft_orderbook_benchmark.Contract

abbrev two_slots : PoolBook
two_slots = record {
  orders = free_slots 1 0;
  free_head = 0;
  order_lookup = Index.empty;
  bids = [];
  asks = [];
}

create-two_slots : create 2 ≡ ok two_slots
unfolding create
create-two_slots = refl

abbrev or_two_slots : Outcome PoolBook → PoolBook
or_two_slots (ok k) = k
or_two_slots o = two_slots

abbrev after_adds : Outcome PoolBook
after_adds = do k ← add_order (order 1 102 3 buy) two_slots; add_order (order 2 101 4 sell) k

abbrev crossed : PoolBook
crossed = or_two_slots after_adds

abbrev outcome : Outcome (List Trade × PoolBook) → Outcome (List Trade × ℕ × ℕ × ℕ)
outcome o = do (ts, k) ← o; ok (ts, k.free_head, get_best_bid k, get_best_ask k)

-- Where the memory of an erased level still has its price, the match trades and frees the slot of the bid.
match_crossed :
    outcome (match_orders ok crossed)
    ≡ ok (record { buy_order_id = 1; sell_order_id = 2; price = 101; quantity = 3 } ∷ [], 0, 0, 101)
unfolding add_order Index.empty match_orders get_best_bid get_best_ask
match_crossed = refl

third_add : add_order (order 3 100 1 buy) crossed ≡ out_of_memory
unfolding add_order Index.empty
third_add = refl

abbrev after_cancel : Outcome (ℕ × ℕ × ℕ)
after_cancel = do
  k ← cancel_order 1 crossed
  k' ← modify_order 2 9 k
  ok (get_best_bid k', get_order_count k', k'.free_head)

cancel_first : after_cancel ≡ ok (0, 1, 0)
unfolding add_order Index.empty cancel_order modify_order get_best_bid get_order_count
cancel_first = refl

crossed-is_crossed : is_crossed crossed ≡ true
unfolding is_crossed add_order Index.empty
crossed-is_crossed = refl

match_orders-erased_example :
    (match_orders erased crossed ≢ ok ([], crossed))
    × ((f p q i j : ℕ) → match_level erased f p q i j crossed ≢ ok ([], crossed))
match_orders-erased_example = match_orders-erased crossed ([], crossed) crossed-is_crossed

add_order-Adds_example : Adds (order 1 102 3 buy) two_slots nothing 2
add_order-Adds_example =
    add_order-Adds two_slots nothing 2 (fresh_pool-Stands 1 (omega arith)) (order 1 102 3 buy)

-- The second order has the id of the first.
abbrev twice : List Order
twice = order 1 102 3 buy ∷ order 1 101 4 sell ∷ []

add_orders-create_example :
    (k : PoolBook) × (r : ℕ) × (add_orders twice two_slots ≡ ok k)
    × Stands k (added twice nothing) r
add_orders-create_example =
    add_orders-create 1 two_slots twice (omega arith) create-two_slots (omega arith)

abbrev two : List Order
two = order 1 102 3 buy ∷ order 2 103 4 sell ∷ []

-- A book in which the two rest.
filled :
    (k : PoolBook) × (r : ℕ) × (add_orders two two_slots ≡ ok k) × Stands k (added two nothing) r
filled = add_orders-create 1 two_slots two (omega arith) create-two_slots (omega arith)

modify_order-Stands_example :
    (k : PoolBook) × (modify_order 2 9 filled.0 ≡ ok k)
    × Stands k (Contract.modify 2 9 (added two nothing)) filled.1
modify_order-Stands_example =
    modify_order-Stands filled.0 (added two nothing) filled.1 filled.3 2 9 refl
