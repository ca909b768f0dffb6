-- ===== src/MapBook/Add.antt =====
-- `MapOrderBook::addOrder` against the contract.
use hft_orderbook_benchmark.Common.{
  ◌≡◌, refl, ap, ◌∙◌, true, false, none, some, Bool-cases, Option-cases, inl, inr,
}
use hft_orderbook_benchmark.Core.{Order, is_buy}
use hft_orderbook_benchmark.Containers.OrderList.{Node}
use hft_orderbook_benchmark.Contract
use hft_orderbook_benchmark.Contract.{Book, Match, holds}
use hft_orderbook_benchmark.Resting.{orders, flat}
use hft_orderbook_benchmark.Resting.Orders.{orders-insert_node}
use hft_orderbook_benchmark.Resting.Levels.{flat-update-push_back, update-push_back-IsLadder}
use hft_orderbook_benchmark.Matching.{Location}
use hft_orderbook_benchmark.Matching.Indexed.Sides.{holds_of_none}
use hft_orderbook_benchmark.Matching.Indexed.Books.{insert_bid-Indexed, insert_ask-Indexed}
use hft_orderbook_benchmark.MapBook.{MapBook, add_order}
use hft_orderbook_benchmark.MapBook.View.{view, IsValid, Refines, Book_path, known}

module _ (k : MapBook) (v : IsValid k) where
  add_order_duplicate :
      (o : Order) (l : Location)
      → k.order_lookup.find o.id ≡ some l
      → Refines (add_order o k) (Contract.add o (view k))
  unfolding add_order Contract.add
  add_order_duplicate o l h =
      rw (h, add_order, known o.id l v.lookup h) (record { valid = v; seen = refl })

  add_order_new :
      (o : Order)
      → k.order_lookup.find o.id ≡ none
      → Refines (add_order o k) (Contract.add o (view k))
  unfolding add_order Contract.add
  add_order_new o h = elim (Bool-cases (is_buy o.side)) [
    | inl e ↦
        rw (h, add_order, no_bid, no_ask, e)
          (record {
            valid = record {
              bid_ladder = update-push_back-IsLadder true n k.bids v.bid_ladder;
              ask_ladder = v.ask_ladder;
              lookup =
                  rw (flat-update-push_back true n k.bids v.bid_ladder)
                    (insert_bid-Indexed v.lookup n h refl);
            };
            seen =
                Book_path _ _ _ _
                  (ap orders (flat-update-push_back true n k.bids v.bid_ladder)
                    ∙ orders-insert_node true n (flat k.bids))
                  refl;
          })
    | inr e ↦
        rw (h, add_order, no_bid, no_ask, e)
          (record {
            valid = record {
              bid_ladder = v.bid_ladder;
              ask_ladder = update-push_back-IsLadder false n k.asks v.ask_ladder;
              lookup =
                  rw (flat-update-push_back false n k.asks v.ask_ladder)
                    (insert_ask-Indexed v.lookup n h refl);
            };
            seen = Book_path _ _ _ _ refl (
                ap orders (flat-update-push_back false n k.asks v.ask_ladder)
                ∙ orders-insert_node false n (flat k.asks));
          })
  ]
    where
      n : Node
      n = record { cell = k.next_cell; order = o }

      no_bid : holds o.id (orders (flat k.bids)) ≡ false
      no_bid = holds_of_none true o.id (flat k.bids) k.order_lookup h v.lookup.bids.indexed

      no_ask : holds o.id (orders (flat k.asks)) ≡ false
      no_ask = holds_of_none false o.id (flat k.asks) k.order_lookup h v.lookup.asks.indexed

  -- For a book that is in order, `addOrder` keeps it in order and does to the resting orders what the
  -- contract says: an id that rests is refused, any other order goes behind those of its price.
  pub add_order-Refines : (o : Order) → Refines (add_order o k) (Contract.add o (view k))
  add_order-Refines o = elim (Option-cases (k.order_lookup.find o.id)) [
    | inl h ↦ add_order_new o h
    | inr (l, h) ↦ add_order_duplicate o l h
  ]
