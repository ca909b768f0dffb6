-- ===== src/MapBook.antt =====
-- src/orderbooks/map_order_book.hpp and src/orderbooks/map_order_book.cpp, `MapOrderBook`.
pub mod Levels
pub mod View
pub mod Iterators
pub mod Add
pub mod Cancel
pub mod Refine
mod Tests
use hft_orderbook_benchmark.Common.{
  ℕ, ◌+◌, Bool, true, false, List, [], ◌∷◌, Option, none, some, if◌then◌else◌, ◌==◌, length,
  is_empty, max_u64,
}
use hft_orderbook_benchmark.Core.{Order, Trade, is_buy}
use hft_orderbook_benchmark.Containers.OrderList
use hft_orderbook_benchmark.Containers.OrderList.{Node, OrderList, push_back}
use hft_orderbook_benchmark.Containers.Ladder
use hft_orderbook_benchmark.Containers.Ladder.{Ladder}
use hft_orderbook_benchmark.Containers.Index
use hft_orderbook_benchmark.Containers.Index.{Index}
use hft_orderbook_benchmark.Matching.{Location, match_levels}

pub record MapBook : Type 0 where
  pub bids : Ladder OrderList
  pub asks : Ladder OrderList
  pub order_lookup : Index Location
  -- The next cell that the allocator of list nodes hands out.
  pub next_cell : ℕ

unfoldable pub empty : MapBook
unfolding Index.empty
empty = record { bids = []; asks = []; order_lookup = Index.empty; next_cell = 0 }

-- `ladder[order.price].push_back(order)`.
abbrev push : Bool → Node → Ladder OrderList → Ladder OrderList
push b n m = Ladder.update b n.order.price [] (push_back n) m

unfoldable pub add_order : Order → MapBook → MapBook
unfolding Ladder.update Index.insert
add_order o k = elim (k.order_lookup.find o.id) [
  | some l ↦ k
  | none ↦
      if is_buy o.side
      then record k {
        bids = push true (record { cell = k.next_cell; order = o }) k.bids;
        order_lookup =
            Index.insert o.id (record { is_buy = true; price = o.price; iterator = k.next_cell })
              k.order_lookup;
        next_cell = k.next_cell + 1;
      }
      else record k {
        asks = push false (record { cell = k.next_cell; order = o }) k.asks;
        order_lookup =
            Index.insert o.id (record { is_buy = false; price = o.price; iterator = k.next_cell })
              k.order_lookup;
        next_cell = k.next_cell + 1;
      }
]

abbrev or_empty : Option OrderList → OrderList
or_empty none = []
or_empty (some ns) = ns

-- `ladder[price].erase(iterator)`, and the level goes with its last order.
unfoldable pub erase_order : Bool → ℕ → ℕ → Ladder OrderList → Ladder OrderList
unfolding Ladder.update Ladder.find Ladder.erase OrderList.erase
erase_order b p c m =
    let m' = Ladder.update b p [] (OrderList.erase c) m in
    if is_empty (or_empty (Ladder.find p m')) then Ladder.erase p m' else m'

unfoldable pub cancel_order : ℕ → MapBook → MapBook
unfolding erase_order Index.erase
cancel_order id k = elim (k.order_lookup.find id) [
  | none ↦ k
  | some l ↦
      if l.is_buy
      then record k {
        bids = erase_order true l.price l.iterator k.bids;
        order_lookup = Index.erase id k.order_lookup;
      }
      else record k {
        asks = erase_order false l.price l.iterator k.asks;
        order_lookup = Index.erase id k.order_lookup;
      }
]

-- `iterator->quantity = q`, for an iterator into the list of the level `p`.
unfoldable pub write_quantity : ℕ → ℕ → ℕ → Ladder OrderList → Ladder OrderList
unfolding OrderList.set_quantity
write_quantity p c q [] = []
write_quantity p c q ((r, ns) ∷ m) =
    if p == r then (r, OrderList.set_quantity c q ns) ∷ m else (r, ns) ∷ write_quantity p c q m

unfoldable pub modify_order : ℕ → ℕ → MapBook → MapBook
unfolding cancel_order write_quantity
modify_order id q k = elim (k.order_lookup.find id) [
  | none ↦ k
  | some l ↦
      if q == 0
      then cancel_order id k
      else if l.is_buy
      then record k { bids = write_quantity l.price l.iterator q k.bids }
      else record k { asks = write_quantity l.price l.iterator q k.asks }
]

-- `match`: the trades, and the book after them.
unfoldable pub match_orders : MapBook → List Trade × MapBook
unfolding match_levels
match_orders k =
    let r = match_levels (length k.bids + length k.asks) k.bids k.asks k.order_lookup in
    (r.trades, record k { bids = r.bids; asks = r.asks; order_lookup = r.order_lookup })

unfoldable pub get_order_count : MapBook → ℕ
get_order_count k = k.order_lookup.size

unfoldable pub best_price : {A : Type 0} → ℕ → Ladder A → ℕ
best_price d [] = d
best_price d ((p, a) ∷ m) = p

unfoldable pub get_best_bid : MapBook → ℕ
unfolding best_price
get_best_bid k = best_price 0 k.bids

unfoldable pub get_best_ask : MapBook → ℕ
unfolding best_price
get_best_ask k = best_price max_u64 k.asks
