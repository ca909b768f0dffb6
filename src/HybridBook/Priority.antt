-- ===== src/HybridBook/Priority.antt =====
-- src/orderbooks/hybrid_order_book.cpp: which of two resting bids is the best one.
use hft_orderbook_benchmark.Common.{ℕ, ◌+◌, ◌≡◌, ◌<◌, true, [], ◌∷◌, none, some, arith}
use hft_orderbook_benchmark.Core.{Order, buy}
use hft_orderbook_benchmark.Containers.OrderList.{Node, OrderList}
use hft_orderbook_benchmark.Containers.Ladder
use hft_orderbook_benchmark.Containers.Ladder.{Ladder, before}
use hft_orderbook_benchmark.MapBook.{best_price}
use hft_orderbook_benchmark.VectorBook.{lower_bound, insert_at}
use hft_orderbook_benchmark.HybridBook.{
  HybridBook, is_close_to_spread, add_level, add_to_side, add_order, get_best_bid, demote_from_hot,
  add_to_hot, add_at, best_of_side, located,
}

-- A flaw: where no bid is hot and one rests in a cold level at the price `p`, `addOrder` of a bid at a
-- lower price that has no level makes that level hot, and the book then reports the lower price as its
-- best bid while the better one still rests.
pub add_order-worse_best :
    (k : HybridBook) (o : Order) (p : ℕ) (ns : OrderList)
    → k.order_lookup.find o.id ≡ none
    → o.side ≡ buy
    → k.bids.hot ≡ []
    → Ladder.find o.price k.bids.cold ≡ none
    → Ladder.find p k.bids.cold ≡ some ns
    → o.price < p
    → (k' : HybridBook) × (add_order o k ≡ some k')
      × (get_best_bid k' < p)
      × (Ladder.find p k'.bids.cold ≡ some ns)
unfolding add_order add_to_side add_at add_level get_best_bid best_of_side is_close_to_spread
    add_to_hot lower_bound insert_at best_price demote_from_hot
add_order-worse_best k o p ns h hs he hf hp lt =
    let n : Node = record { cell = k.next_cell; order = o } in
    (
      record k {
        bids = record { hot = (o.price, n ∷ []) ∷ []; cold = k.bids.cold };
        order_lookup = located true true n k.order_lookup;
        next_cell = k.next_cell + 1;
      },
      ground (arith, h, hs, he, hf),
      lt,
      hp,
    )
