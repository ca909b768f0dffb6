-- ===== src/ArrayBook/Held.antt =====
-- src/orderbooks/array_order_book.cpp: what the lookup of an array book says of an id.
use hft_orderbook_benchmark.Common.{ℕ, ◌<◌, ◌≡◌, ap, true, false, none, some}
use hft_orderbook_benchmark.Containers.Index.{Index}
use hft_orderbook_benchmark.Contract.{holds}
use hft_orderbook_benchmark.Resting.{orders}
use hft_orderbook_benchmark.Matching.{Location}
use hft_orderbook_benchmark.Matching.Indexed.Sides.{holds_of_none, holds_of_other}
use hft_orderbook_benchmark.ArrayBook.{ArrayBook, ArrayLocation}
use hft_orderbook_benchmark.ArrayBook.View.{
  bid_nodes, ask_nodes, located, locate, locate_some, IsValid,
}

module _ (k : ArrayBook) (v : IsValid k) (id : ℕ) where
  abbrev ix : Index Location
  ix = located k.min_price k.tick_size k.order_lookup

  module _ (h : k.order_lookup.find id ≡ none) where
    pub no_bid : holds id (orders (bid_nodes k)) ≡ false
    no_bid =
        holds_of_none true id (bid_nodes k) ix (ap (locate_some k.min_price k.tick_size) h)
          v.lookup.bids.indexed

    pub no_ask : holds id (orders (ask_nodes k)) ≡ false
    no_ask =
        holds_of_none false id (ask_nodes k) ix (ap (locate_some k.min_price k.tick_size) h)
          v.lookup.asks.indexed

  module _ (l : ArrayLocation) (h : k.order_lookup.find id ≡ some l) where
    abbrev pub place : Location
    place = locate k.min_price k.tick_size l

    pub known : ix.find id ≡ some place
    known = ap (locate_some k.min_price k.tick_size) h

    pub inside : l.array_index < k.num_levels
    inside = v.inside id l h

    pub bid_only : l.is_buy ≡ true → holds id (orders (ask_nodes k)) ≡ false
    bid_only s =
        holds_of_other false id (ask_nodes k) ix place known (λ e. cc) v.lookup.asks.indexed

    pub ask_only : l.is_buy ≡ false → holds id (orders (bid_nodes k)) ≡ false
    ask_only s = holds_of_other true id (bid_nodes k) ix place known (λ e. cc) v.lookup.bids.indexed
