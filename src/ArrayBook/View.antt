-- ===== src/ArrayBook/View.antt =====
-- src/orderbooks/array_order_book.hpp: what a client sees of an array book, and the representation
-- invariant.
use hft_orderbook_benchmark.Common.{
  ℕ, ◌+◌, ◌*◌, ◌^◌, ◌≤◌, ◌<◌, ◌≡◌, refl, ◌∙◌, Bool, true, false, List, Option, none, some, length,
  max_u64,
}
use hft_orderbook_benchmark.Containers.OrderList.{Node, OrderList}
use hft_orderbook_benchmark.Containers.Index.{Index}
use hft_orderbook_benchmark.Contract.{Book}
use hft_orderbook_benchmark.Resting.{orders, flat}
use hft_orderbook_benchmark.Matching.{Location}
use hft_orderbook_benchmark.Matching.Indexed.{Indexed}
use hft_orderbook_benchmark.ArrayBook.{ArrayBook, ArrayLocation}
use hft_orderbook_benchmark.ArrayBook.Prices.{IsConfigured}
use hft_orderbook_benchmark.ArrayBook.Sides.{ladder, IsPriced}
use hft_orderbook_benchmark.ArrayBook.Scans.{flags, scan, found}

abbrev pub bid_nodes : ArrayBook → List Node
bid_nodes k = flat (ladder true k.min_price k.tick_size k.bid_levels)

abbrev pub ask_nodes : ArrayBook → List Node
ask_nodes k = flat (ladder false k.min_price k.tick_size k.ask_levels)

-- The resting orders, without arrays, flags, cached prices and lookup.
abbrev pub view : ArrayBook → Book
view k = record { bids = orders (bid_nodes k); asks = orders (ask_nodes k) }

-- The price of the level that a location names by its index.
abbrev pub locate : ℕ → ℕ → ArrayLocation → Location
locate p t l = record { is_buy = l.is_buy; price = p + l.array_index * t; iterator = l.iterator }

abbrev pub locate_some : ℕ → ℕ → Option ArrayLocation → Option Location
locate_some p t none = none
locate_some p t (some l) = some (locate p t l)

abbrev pub located : ℕ → ℕ → Index ArrayLocation → Index Location
located p t ix = record { find = λ id. locate_some p t (ix.find id); size = ix.size }

-- A side of `n` levels from the price `p` in steps of `t`: a level holds its own price, the flags say
-- which levels hold orders, and the cached price is that of the best of them, or `d` where there is none.
pub record IsSide (b : Bool) (d p t n : ℕ) (ls : List OrderList) (active : List Bool) (best : ℕ)
    : Type 0 where
  pub sized : length ls ≡ n
  pub priced : IsPriced p t ls
  pub marked : active ≡ flags ls
  pub cached : best ≡ found d p t (scan b n active)

-- The prices of the book leave out those that the cached prices take for an empty side.
pub record IsValid (k : ArrayBook) : Type 0 where
  pub configured : IsConfigured k
  pub above_zero : 0 < k.min_price
  pub below_max : k.max_price < max_u64
  pub bid_side :
      IsSide true 0 k.min_price k.tick_size k.num_levels k.bid_levels k.active_bid_levels
        k.cached_best_bid
  pub ask_side :
      IsSide false max_u64 k.min_price k.tick_size k.num_levels k.ask_levels k.active_ask_levels
        k.cached_best_ask
  pub lookup :
      Indexed
        (bid_nodes k)
        (ask_nodes k)
        (located k.min_price k.tick_size k.order_lookup)
        k.next_cell
  pub inside :
      (id : ℕ) (l : ArrayLocation) → k.order_lookup.find id ≡ some l → l.array_index < k.num_levels

-- One configuration of prices.
abbrev pub IsSameGrid : ArrayBook → ArrayBook → Type 0
IsSameGrid k k' =
    (k'.min_price ≡ k.min_price) × (k'.max_price ≡ k.max_price) × (k'.tick_size ≡ k.tick_size)

pub IsSameGrid-trans :
    (k k' k'' : ArrayBook) → IsSameGrid k k' → IsSameGrid k' k'' → IsSameGrid k k''
IsSameGrid-trans k k' k'' g h = (h.0 ∙ g.0, h.1 ∙ g.1, h.2 ∙ g.2)

-- The grid settles the number of levels.
pub few-IsSameGrid :
    (k k' : ArrayBook)
    → IsConfigured k
    → IsConfigured k'
    → IsSameGrid k k'
    → k.num_levels ≤ 2 ^ 31
    → k'.num_levels ≤ 2 ^ 31
few-IsSameGrid k k' c d g h =
    let e : k'.num_levels ≡ k.num_levels = rw (d.levels, c.levels, g.0, g.1, g.2) refl in rw e h

-- What an operation that takes the book `k` to `k'` must do: keep the representation, and act as the
-- contract says.
pub record Refines (k k' : ArrayBook) (b : Book) : Type 0 where
  pub valid : IsValid k'
  pub grid : IsSameGrid k k'
  pub seen : view k' ≡ b
