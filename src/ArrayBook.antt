-- ===== src/ArrayBook.antt =====
-- src/orderbooks/array_order_book.hpp and src/orderbooks/array_order_book.cpp, `ArrayOrderBook`.
-- `none` is `front()` of an empty list, which C++ leaves undefined. The prices are 64-bit; the counter of
-- `updateBestBidCache` is a 32-bit `int`.
pub mod Rounds
pub mod Prices
pub mod Sides
pub mod Scans
pub mod Clearing
pub mod View
pub mod Located
pub mod Changes
pub mod Caches
pub mod Best
pub mod Add
pub mod Held
pub mod Cancel
pub mod Modify
pub mod Exchange
pub mod Matched
pub mod New
pub mod Refine
pub mod Agreement
pub mod Zero
mod Tests
use hft_orderbook_benchmark.Common.{
  ℕ, zero, suc, ◌+◌, ◌-◌, ◌*◌, ◌/◌, ◌%◌, ◌^◌, Bool, true, false, not, ◌||◌, List, [], ◌∷◌, Option,
  none, some, if◌then◌else◌, ltb, leb, ◌==◌, length, is_empty, get_or, set, max_u64, min_of,
}
use hft_orderbook_benchmark.Core.{Order, Trade, is_buy}
use hft_orderbook_benchmark.Containers.OrderList
use hft_orderbook_benchmark.Containers.OrderList.{Node, OrderList, push_back}
use hft_orderbook_benchmark.Containers.Index
use hft_orderbook_benchmark.Containers.Index.{Index}
use hft_orderbook_benchmark.Matching.{less, pop_filled}

-- `OrderLocation`.
pub record ArrayLocation : Type 0 where
  pub is_buy : Bool
  pub array_index : ℕ
  pub iterator : ℕ

-- The configuration and the state. `levels b` and `active b` are those of the bids for `true`, and of
-- the asks for `false`.
pub record ArrayBook : Type 0 where
  pub min_price : ℕ
  pub max_price : ℕ
  pub tick_size : ℕ
  pub num_levels : ℕ
  pub bid_levels : List OrderList
  pub ask_levels : List OrderList
  pub active_bid_levels : List Bool
  pub active_ask_levels : List Bool
  pub order_lookup : Index ArrayLocation
  pub cached_best_bid : ℕ
  pub cached_best_ask : ℕ
  -- The next cell that the allocator of list nodes hands out.
  pub next_cell : ℕ

-- The messages of `std::invalid_argument`.
pub data InvalidArgument : Type 0 where
  min_not_below_max : InvalidArgument
  tick_size_zero : InvalidArgument
  range_not_divisible : InvalidArgument

pub data Created : Type 0 where
  ok : ArrayBook → Created
  throws : InvalidArgument → Created

abbrev pub replicate {ℓ} : {A : Type ℓ} → ℕ → A → List A
replicate zero a = []
replicate (suc n) a = a ∷ replicate n a

-- The constructor.
unfoldable pub create : ℕ → ℕ → ℕ → Created
unfolding Index.empty
create min_price max_price tick_size =
    let num_levels = ((max_price - min_price) / tick_size + 1) % 2 ^ 64 in
    if leb max_price min_price
    then throws min_not_below_max
    else if tick_size == 0
    then throws tick_size_zero
    else if not ((max_price - min_price) % tick_size == 0)
    then throws range_not_divisible
    else ok (record {
      min_price = min_price;
      max_price = max_price;
      tick_size = tick_size;
      num_levels = num_levels;
      bid_levels = replicate num_levels [];
      ask_levels = replicate num_levels [];
      active_bid_levels = replicate num_levels false;
      active_ask_levels = replicate num_levels false;
      order_lookup = Index.empty;
      cached_best_bid = 0;
      cached_best_ask = max_u64;
      next_cell = 0;
    })

-- `priceToIndex`: the difference of two `uint64_t`.
unfoldable pub price_to_index : ArrayBook → ℕ → ℕ
price_to_index k price = (price + 2 ^ 64 - k.min_price) % 2 ^ 64 / k.tick_size

unfoldable pub index_to_price : ArrayBook → ℕ → ℕ
index_to_price k index = (k.min_price + index * k.tick_size) % 2 ^ 64

unfoldable pub is_valid_price : ArrayBook → ℕ → Bool
is_valid_price k price =
    if ltb price k.min_price || ltb k.max_price price
    then false
    else (price - k.min_price) % k.tick_size == 0

-- The highest active index below `n`, and the lowest one from `i` on among `n`.
unfoldable pub last_active : ℕ → List Bool → Option ℕ
last_active zero active = none
last_active (suc n) active =
    let rest = last_active n active in if get_or active n false then some n else rest

unfoldable pub first_active : ℕ → ℕ → List Bool → Option ℕ
first_active zero i active = none
first_active (suc n) i active =
    let rest = first_active n (i + 1) active in if get_or active i false then some i else rest

-- How often `for (int i = numLevels_ - 1; i >= 0; --i)` runs with `n` levels: the `size_t` is narrowed to
-- 32 bits, and a negative counter ends the loop at once.
unfoldable pub bid_rounds : ℕ → ℕ
bid_rounds n = let i = (n + 2 ^ 64 - 1) % 2 ^ 32 in if ltb i (2 ^ 31) then i + 1 else 0

unfoldable pub update_best_bid_cache : ArrayBook → ArrayBook
unfolding last_active index_to_price bid_rounds
update_best_bid_cache k = elim (last_active (bid_rounds k.num_levels) k.active_bid_levels) [
  | some i ↦ record k { cached_best_bid = index_to_price k i }
  | none ↦ record k { cached_best_bid = 0 }
]

unfoldable pub update_best_ask_cache : ArrayBook → ArrayBook
unfolding first_active index_to_price
update_best_ask_cache k = elim (first_active k.num_levels 0 k.active_ask_levels) [
  | some i ↦ record k { cached_best_ask = index_to_price k i }
  | none ↦ record k { cached_best_ask = max_u64 }
]

-- The new order at the end of the list of its level.
abbrev queued : ℕ → Node → List OrderList → List OrderList
queued i n levels = set levels i (push_back n (get_or levels i []))

unfoldable pub add_order : Order → ArrayBook → ArrayBook
unfolding is_valid_price price_to_index Index.insert
add_order o k =
    let i = price_to_index k o.price in
    let n : Node = record { cell = k.next_cell; order = o } in
    elim (k.order_lookup.find o.id) [
      | some l ↦ k
      | none ↦
          if not (is_valid_price k o.price)
          then k
          else if is_buy o.side
          then record k {
            bid_levels = queued i n k.bid_levels;
            active_bid_levels = set k.active_bid_levels i true;
            cached_best_bid = if ltb k.cached_best_bid o.price then o.price else k.cached_best_bid;
            order_lookup =
                Index.insert o.id
                  (record { is_buy = true; array_index = i; iterator = k.next_cell })
                  k.order_lookup;
            next_cell = k.next_cell + 1;
          }
          else record k {
            ask_levels = queued i n k.ask_levels;
            active_ask_levels = set k.active_ask_levels i true;
            cached_best_ask = if ltb o.price k.cached_best_ask then o.price else k.cached_best_ask;
            order_lookup =
                Index.insert o.id
                  (record { is_buy = false; array_index = i; iterator = k.next_cell })
                  k.order_lookup;
            next_cell = k.next_cell + 1;
          }
    ]

-- The bid level `i` becomes `ns`; an empty one is not active, and may have been the best.
unfoldable pub erase_bid : ℕ → OrderList → ArrayBook → ArrayBook
unfolding update_best_bid_cache
erase_bid i ns k =
    let k' = record k { bid_levels = set k.bid_levels i ns } in
    let k'' = record k' { active_bid_levels = set k'.active_bid_levels i false } in
    if is_empty ns
    then (if index_to_price k i == k.cached_best_bid then update_best_bid_cache k'' else k'')
    else k'

unfoldable pub erase_ask : ℕ → OrderList → ArrayBook → ArrayBook
unfolding update_best_ask_cache
erase_ask i ns k =
    let k' = record k { ask_levels = set k.ask_levels i ns } in
    let k'' = record k' { active_ask_levels = set k'.active_ask_levels i false } in
    if is_empty ns
    then (if index_to_price k i == k.cached_best_ask then update_best_ask_cache k'' else k'')
    else k'

unfoldable pub cancel_order : ℕ → ArrayBook → ArrayBook
unfolding erase_bid erase_ask OrderList.erase Index.erase
cancel_order id k = elim (k.order_lookup.find id) [
  | none ↦ k
  | some l ↦
      let k' =
        if l.is_buy
        then erase_bid l.array_index
            (OrderList.erase l.iterator (get_or k.bid_levels l.array_index [])) k
        else erase_ask l.array_index
            (OrderList.erase l.iterator (get_or k.ask_levels l.array_index [])) k in
      record k' { order_lookup = Index.erase id k'.order_lookup }
]

-- `iterator->quantity = q` in the level `i`.
abbrev requantified : ℕ → ℕ → ℕ → List OrderList → List OrderList
requantified i c q levels = set levels i (OrderList.set_quantity c q (get_or levels i []))

unfoldable pub modify_order : ℕ → ℕ → ArrayBook → ArrayBook
unfolding cancel_order OrderList.set_quantity
modify_order id q k = elim (k.order_lookup.find id) [
  | none ↦ k
  | some l ↦
      if q == 0
      then cancel_order id k
      else if l.is_buy
      then record k { bid_levels = requantified l.array_index l.iterator q k.bid_levels }
      else record k { ask_levels = requantified l.array_index l.iterator q k.ask_levels }
]

unfoldable pub get_order_count : ArrayBook → ℕ
get_order_count k = k.order_lookup.size

unfoldable pub get_best_bid : ArrayBook → ℕ
get_best_bid k = k.cached_best_bid

unfoldable pub get_best_ask : ArrayBook → ℕ
get_best_ask k = k.cached_best_ask
