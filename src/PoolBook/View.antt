-- ===== src/PoolBook/View.antt =====
-- src/orderbooks/pool_order_book.cpp: the abstract book that a pool book stands for.
use hft_orderbook_benchmark.Common.{
  ℕ, ◌≡◌, ◌≢◌, Bool, true, false, List, Option, none, some, All, All-imp, length,
}
use hft_orderbook_benchmark.Containers.OrderList.{Node, OrderList}
use hft_orderbook_benchmark.Containers.Ladder.{Ladder}
use hft_orderbook_benchmark.Containers.Index.{Index}
use hft_orderbook_benchmark.Contract.{Book}
use hft_orderbook_benchmark.Resting.{orders, flat, IsLadder}
use hft_orderbook_benchmark.Matching.{Location}
use hft_orderbook_benchmark.Matching.Indexed.{Indexed, IsIndexed, place}
use hft_orderbook_benchmark.PoolBook.{PoolBook, null_idx}
use hft_orderbook_benchmark.PoolBook.Slots.{IsFree}
use hft_orderbook_benchmark.PoolBook.Levels.{IsLevels}

abbrev pub cell_of : Option Location → Option ℕ
cell_of none = none
cell_of (some l) = some l.iterator

-- The slot is that of no resting order.
abbrev pub IsUnused : Index Location → ℕ → Type 0
IsUnused ix j = (id : ℕ) (l : Location) → ix.find id ≡ some l → j ≢ l.iterator

-- The representation: the levels are linked lists of slots, the lookup gives the slot of each resting
-- order, and all slots of the free list are other ones.
pub record IsPool (k : PoolBook) (bids asks : Ladder OrderList) (ix : Index Location) (js : List ℕ)
    : Type 0 where
  pub bid_levels : IsLevels k.orders k.bids bids
  pub ask_levels : IsLevels k.orders k.asks asks
  pub bid_ladder : IsLadder true bids
  pub ask_ladder : IsLadder false asks
  pub lookup : Indexed (flat bids) (flat asks) ix null_idx
  pub same_cells : (id : ℕ) → k.order_lookup.find id ≡ cell_of (ix.find id)
  pub same_size : k.order_lookup.size ≡ ix.size
  pub free : IsFree k js
  pub unused : All (IsUnused ix) js

-- The book stands for the abstract book, and has room for a number of orders.
pub record Stands (k : PoolBook) (c : Book) (room : ℕ) : Type 0 where
  pub bids : Ladder OrderList
  pub asks : Ladder OrderList
  pub lookup : Index Location
  pub slots : List ℕ
  pub is_pool : IsPool k bids asks lookup slots
  pub seen : ◌≡◌ {A = Book} (record { bids = orders (flat bids); asks = orders (flat asks) }) c
  pub has_room : length slots ≡ room

-- A slot that is not used is that of no node.
pub unused-apart :
    (b : Bool) (ix : Index Location) (j : ℕ) (ns : List Node)
    → IsUnused ix j
    → All (IsIndexed b ix) ns
    → All (λ n. j ≢ n.cell) ns
unused-apart b ix j ns u a =
    All-imp (IsIndexed b ix) (λ n. j ≢ n.cell) ns (λ n h. u n.order.id (place b n) h) a
