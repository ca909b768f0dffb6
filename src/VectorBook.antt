-- ===== src/VectorBook.antt =====
-- src/orderbooks/vector_order_book.hpp and src/orderbooks/vector_order_book.cpp, `VectorOrderBook`.
-- `none` is a use of `bids_.end()` or `asks_.end()` as if it were a level, which C++ leaves undefined.
pub mod Levels
pub mod Equivalence
mod Tests
use hft_orderbook_benchmark.Common.{
  ℕ, zero, suc, ◌+◌, Bool, true, false, List, [], ◌∷◌, Option, none, some, if◌then◌else◌, ◌==◌,
  length, is_empty, get_elem?, set, max_u64,
}
use hft_orderbook_benchmark.Core.{Order, Trade, is_buy}
use hft_orderbook_benchmark.Containers.OrderList
use hft_orderbook_benchmark.Containers.OrderList.{Node, OrderList, push_back}
use hft_orderbook_benchmark.Containers.Ladder.{before}
use hft_orderbook_benchmark.Containers.Index
use hft_orderbook_benchmark.Containers.Index.{Index}
use hft_orderbook_benchmark.Matching.{Location, match_levels}

-- `std::vector<std::pair<Price, OrderList>>`.
abbrev pub Levels : Type 0
Levels = List (ℕ × OrderList)

pub record VectorBook : Type 0 where
  pub bids : Levels
  pub asks : Levels
  pub order_lookup : Index Location
  -- The next cell that the allocator of list nodes hands out.
  pub next_cell : ℕ

unfoldable pub empty : VectorBook
unfolding Index.empty
empty = record { bids = []; asks = []; order_lookup = Index.empty; next_cell = 0 }

-- `std::lower_bound`: the first level that does not come before the price, or the end.
unfoldable pub lower_bound : Bool → ℕ → Levels → ℕ
lower_bound b p [] = 0
lower_bound b p ((q, ns) ∷ m) = if before b q p then suc (lower_bound b p m) else 0

-- `vector::insert` and `vector::erase` at a position.
unfoldable pub insert_at : ℕ → ℕ × OrderList → Levels → Levels
insert_at zero l m = l ∷ m
insert_at (suc i) l [] = l ∷ []
insert_at (suc i) l (k ∷ m) = k ∷ insert_at i l m

unfoldable pub remove_at : ℕ → Levels → Levels
remove_at i [] = []
remove_at zero (k ∷ m) = m
remove_at (suc i) (k ∷ m) = k ∷ remove_at i m

-- The level at the position is extended if it has the order's price, and else made there.
unfoldable pub push_at : Node → ℕ → Levels → Option (ℕ × OrderList) → Levels
unfolding insert_at
push_at n i m none = insert_at i (n.order.price, push_back n []) m
push_at n i m (some (q, ns)) =
    if q == n.order.price
    then set m i (q, push_back n ns)
    else insert_at i (n.order.price, push_back n []) m

unfoldable pub push : Bool → Node → Levels → Levels
unfolding lower_bound push_at
push b n m = let i = lower_bound b n.order.price m in push_at n i m (get_elem? m i)

unfoldable pub add_order : Order → VectorBook → VectorBook
unfolding push Index.insert
add_order o k = elim (k.order_lookup.find o.id) [
  | some l ↦ k
  | none ↦
      if is_buy o.side
      then record k {
        bids = push true (record { cell = k.next_cell; order = o }) k.bids;
        order_lookup =
            Index.insert o.id (record { is_buy = true; price = o.price; iterator = k.next_cell })
              k.order_lookup;
        next_cell = k.next_cell + 1;
      }
      else record k {
        asks = push false (record { cell = k.next_cell; order = o }) k.asks;
        order_lookup =
            Index.insert o.id (record { is_buy = false; price = o.price; iterator = k.next_cell })
              k.order_lookup;
        next_cell = k.next_cell + 1;
      }
]

-- The iterator's node leaves the level at the position, and the level goes with its last order.
unfoldable pub erase_in : ℕ → ℕ → Levels → Option (ℕ × OrderList) → Option Levels
unfolding remove_at OrderList.erase
erase_in c i m none = none
erase_in c i m (some (q, ns)) =
    some
      (if is_empty (OrderList.erase c ns) then remove_at i m else set m i (q, OrderList.erase c ns))

unfoldable pub erase_order : Bool → ℕ → ℕ → Levels → Option Levels
unfolding lower_bound erase_in
erase_order b p c m = let i = lower_bound b p m in erase_in c i m (get_elem? m i)

unfoldable pub cancel_order : ℕ → VectorBook → Option VectorBook
unfolding erase_order Index.erase
cancel_order id k = elim (k.order_lookup.find id) [
  | none ↦ some k
  | some l ↦
      if l.is_buy
      then elim (erase_order true l.price l.iterator k.bids) [
        | none ↦ none
        | some m ↦ some (record k { bids = m; order_lookup = Index.erase id k.order_lookup })
      ]
      else elim (erase_order false l.price l.iterator k.asks) [
        | none ↦ none
        | some m ↦ some (record k { asks = m; order_lookup = Index.erase id k.order_lookup })
      ]
]

-- `iterator->quantity = q`, for an iterator into the list of the level `p`.
unfoldable pub write_quantity : ℕ → ℕ → ℕ → Levels → Levels
unfolding OrderList.set_quantity
write_quantity p c q [] = []
write_quantity p c q ((r, ns) ∷ m) =
    if p == r then (r, OrderList.set_quantity c q ns) ∷ m else (r, ns) ∷ write_quantity p c q m

unfoldable pub modify_order : ℕ → ℕ → VectorBook → Option VectorBook
unfolding cancel_order write_quantity
modify_order id q k = elim (k.order_lookup.find id) [
  | none ↦ some k
  | some l ↦
      if q == 0
      then cancel_order id k
      else if l.is_buy
      then some (record k { bids = write_quantity l.price l.iterator q k.bids })
      else some (record k { asks = write_quantity l.price l.iterator q k.asks })
]

-- `match`: the trades, and the book after them.
unfoldable pub match_orders : VectorBook → List Trade × VectorBook
unfolding match_levels
match_orders k =
    let r = match_levels (length k.bids + length k.asks) k.bids k.asks k.order_lookup in
    (r.trades, record k { bids = r.bids; asks = r.asks; order_lookup = r.order_lookup })

unfoldable pub get_order_count : VectorBook → ℕ
get_order_count k = k.order_lookup.size

abbrev first_price : ℕ → Levels → ℕ
first_price d [] = d
first_price d ((p, ns) ∷ m) = p

unfoldable pub get_best_bid : VectorBook → ℕ
get_best_bid k = first_price 0 k.bids

unfoldable pub get_best_ask : VectorBook → ℕ
get_best_ask k = first_price max_u64 k.asks
