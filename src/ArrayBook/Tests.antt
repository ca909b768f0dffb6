-- ===== src/ArrayBook/Tests.antt =====
-- Array books of a few levels, and the theorems at them.
use hft_orderbook_benchmark.Common.{
  ℕ, if◌then◌else◌, ◌≡◌, ◌^◌, ◌≤◌, ◌<◌, refl, false, List, [], ◌∷◌, Option, none, some, arith,
  max_u64,
}
use hft_orderbook_benchmark.Samples.{order, session}
use hft_orderbook_benchmark.Core.{Trade, buy, sell}
use hft_orderbook_benchmark.ArrayBook.{
  ArrayBook, ok, create, add_order, cancel_order, modify_order, index_to_price, price_to_index,
  is_valid_price,
}
use hft_orderbook_benchmark.ArrayBook.Rounds.{match_orders}
use hft_orderbook_benchmark.Containers.Index
use hft_orderbook_benchmark.ArrayBook.Prices.{
  create-IsConfigured, index_to_price-price_to_index, IsConfigured,
}
use hft_orderbook_benchmark.Contract
use hft_orderbook_benchmark.ArrayBook.View.{view, IsValid, Refines, few-IsSameGrid}
use hft_orderbook_benchmark.ArrayBook.Add.{array_add-Refines}
use hft_orderbook_benchmark.ArrayBook.Cancel.{array_cancel-Refines}
use hft_orderbook_benchmark.ArrayBook.Modify.{array_modify-Refines}
use hft_orderbook_benchmark.ArrayBook.Matched.{Settled, array_match-Settled}
use hft_orderbook_benchmark.ArrayBook.New.{create-IsValid}
use hft_orderbook_benchmark.ArrayBook.Refine.{Ran, listed, run, array_run-create}
use hft_orderbook_benchmark.ArrayBook.Agreement.{Agrees, array_run-Agrees}
use hft_orderbook_benchmark.ArrayBook.Zero.{match_orders_at_zero}

-- Prices 100 to 108 in steps of 4.
abbrev three_levels : ArrayBook
three_levels = record {
  min_price = 100;
  max_price = 108;
  tick_size = 4;
  num_levels = 3;
  bid_levels = [] ∷ [] ∷ [] ∷ [];
  ask_levels = [] ∷ [] ∷ [] ∷ [];
  active_bid_levels = false ∷ false ∷ false ∷ [];
  active_ask_levels = false ∷ false ∷ false ∷ [];
  order_lookup = Index.empty;
  cached_best_bid = 0;
  cached_best_ask = max_u64;
  next_cell = 0;
}

create-three_levels : create 100 108 4 ≡ ok three_levels
unfolding create
create-three_levels = refl

three_levels-IsConfigured : IsConfigured three_levels
three_levels-IsConfigured = create-IsConfigured 100 108 4 (omega arith) create-three_levels

index_to_price-price_to_index_example :
    (index_to_price three_levels (price_to_index three_levels 104) ≡ 104)
    × (price_to_index three_levels 104 < 3)
unfolding is_valid_price
index_to_price-price_to_index_example =
    index_to_price-price_to_index three_levels 104 three_levels-IsConfigured refl

abbrev crossed : ArrayBook
crossed = add_order (order 2 100 3 sell) (add_order (order 1 104 5 buy) three_levels)

abbrev outcome : Option (List Trade × ArrayBook) → List Trade × ℕ × ℕ
outcome none = ([], 0, 0)
outcome (some (ts, k)) = (ts, k.cached_best_bid, k.cached_best_ask)

-- A trade at the ask's price, which leaves the rest of the bid.
match_crossed :
    outcome (match_orders crossed)
    ≡ (record { buy_order_id = 1; sell_order_id = 2; price = 100; quantity = 3 } ∷ [], 104, max_u64)
unfolding add_order match_orders Index.empty
match_crossed = refl

-- Prices 0 and 1.
abbrev from_zero : ArrayBook
from_zero = record {
  min_price = 0;
  max_price = 1;
  tick_size = 1;
  num_levels = 2;
  bid_levels = [] ∷ [] ∷ [];
  ask_levels = [] ∷ [] ∷ [];
  active_bid_levels = false ∷ false ∷ [];
  active_ask_levels = false ∷ false ∷ [];
  order_lookup = Index.empty;
  cached_best_bid = 0;
  cached_best_ask = max_u64;
  next_cell = 0;
}

create-from_zero : create 0 1 1 ≡ ok from_zero
unfolding create
create-from_zero = refl

match_orders_at_zero_example : match_orders (add_order (order 1 0 5 sell) from_zero) ≡ none
match_orders_at_zero_example =
    match_orders_at_zero 1 1 (order 1 0 5 sell) create-from_zero refl refl

three_levels-IsValid : IsValid three_levels
three_levels-IsValid = (create-IsValid 100 108 4 (omega arith) (omega arith) create-three_levels).0

abbrev one_bid : ArrayBook
one_bid = add_order (order 1 104 5 buy) three_levels

array_add-Refines_example : Refines three_levels one_bid (
    if is_valid_price three_levels 104
    then Contract.add (order 1 104 5 buy) (view three_levels)
    else view three_levels)
array_add-Refines_example = array_add-Refines three_levels three_levels-IsValid (order 1 104 5 buy)

one_bid-IsValid : IsValid one_bid
one_bid-IsValid = (array_add-Refines three_levels three_levels-IsValid (order 1 104 5 buy)).valid

crossed-IsValid : IsValid crossed
crossed-IsValid = (array_add-Refines one_bid one_bid-IsValid (order 2 100 3 sell)).valid

crossed_few : crossed.num_levels ≤ 2 ^ 31
unfolding add_order Index.empty
crossed_few =
    few-IsSameGrid three_levels crossed three_levels-IsConfigured crossed-IsValid.configured
      (refl, refl, refl) (omega arith)

array_match-Settled_example : Settled crossed (match_orders crossed)
array_match-Settled_example = array_match-Settled crossed crossed-IsValid crossed_few

array_cancel-Refines_example :
    Refines crossed (cancel_order 1 crossed) (Contract.cancel 1 (view crossed))
array_cancel-Refines_example = array_cancel-Refines crossed crossed-IsValid crossed_few 1

array_modify-Refines_example :
    Refines crossed (modify_order 2 7 crossed) (Contract.modify 2 7 (view crossed))
array_modify-Refines_example = array_modify-Refines crossed crossed-IsValid crossed_few 2 7

-- Prices 100 to 103, all of which are listed.
abbrev four_levels : ArrayBook
four_levels = record {
  min_price = 100;
  max_price = 103;
  tick_size = 1;
  num_levels = 4;
  bid_levels = [] ∷ [] ∷ [] ∷ [] ∷ [];
  ask_levels = [] ∷ [] ∷ [] ∷ [] ∷ [];
  active_bid_levels = false ∷ false ∷ false ∷ false ∷ [];
  active_ask_levels = false ∷ false ∷ false ∷ false ∷ [];
  order_lookup = Index.empty;
  cached_best_bid = 0;
  cached_best_ask = max_u64;
  next_cell = 0;
}

create-four_levels : create 100 103 1 ≡ ok four_levels
unfolding create
create-four_levels = refl

array_run-create_example :
    Ran (record { bids = []; asks = [] }) (listed four_levels session) (run session four_levels)
array_run-create_example =
    array_run-create 100 103 1 four_levels session (omega arith) (omega arith) create-four_levels
      (omega arith)

array_run-Agrees_example : Agrees four_levels session (run session four_levels)
array_run-Agrees_example =
    array_run-Agrees 100 103 1 four_levels session (omega arith) (omega arith) create-four_levels
      (omega arith)
