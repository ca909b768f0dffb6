-- ===== src/ArrayBook/Zero.antt =====
-- src/orderbooks/array_order_book.cpp: the empty bid side of a book whose lowest price is 0.
use hft_orderbook_benchmark.Common.{
  ℕ, zero, suc, ◌≡◌, false, [], none, ltb, get_or, arith, refl, subst, sym,
}
use hft_orderbook_benchmark.Core.{Order, sell}
use hft_orderbook_benchmark.Containers.OrderList.{OrderList}
use hft_orderbook_benchmark.Containers.Index
use hft_orderbook_benchmark.ArrayBook.{
  ArrayBook, ok, create, add_order, is_valid_price, price_to_index, replicate,
}
use hft_orderbook_benchmark.ArrayBook.Rounds.{match_orders, match_loop, trade_fronts}

get_or-replicate : (n i : ℕ) → get_or {A = OrderList} (replicate n []) i [] ≡ []
get_or-replicate zero i = refl
get_or-replicate (suc n) zero = refl
get_or-replicate (suc n) (suc i) = get_or-replicate n i

-- What a new book whose lowest price is 0 holds.
record IsNew (k : ArrayBook) : Type 0 where
  lowest : k.min_price ≡ 0
  bids : (i : ℕ) → get_or k.bid_levels i [] ≡ []
  unknown : (id : ℕ) → k.order_lookup.find id ≡ none
  bid : k.cached_best_bid ≡ 0

create-bid_levels :
    (hi tick : ℕ) {k : ArrayBook}
    → create 0 hi tick ≡ ok k
    → k.bid_levels ≡ replicate k.num_levels []
unfolding create
create-bid_levels hi tick e = ground arith

create-find :
    (hi tick id : ℕ) {k : ArrayBook} → create 0 hi tick ≡ ok k → k.order_lookup.find id ≡ none
unfolding create Index.empty
create-find hi tick id e = ground arith

create-IsNew : (hi tick : ℕ) {k : ArrayBook} → create 0 hi tick ≡ ok k → IsNew k
unfolding create
create-IsNew hi tick {k} e = record {
  lowest = (ground arith);
  bids = λ i.
      subst (λ ls. get_or ls i [] ≡ []) (sym (create-bid_levels hi tick e))
        (get_or-replicate k.num_levels i);
  unknown = λ id. create-find hi tick id e;
  bid = (ground arith);
}

no_bid :
    (k : ArrayBook)
    → ltb k.cached_best_bid k.cached_best_ask ≡ false
    → ((i : ℕ) → get_or k.bid_levels i [] ≡ [])
    → match_orders k ≡ none
unfolding match_orders match_loop trade_fronts
no_bid k e h = ground (arith, e, h (price_to_index k k.cached_best_bid))

ask_added :
    (k : ArrayBook) (o : Order)
    → IsNew k
    → o.side ≡ sell
    → o.price ≡ 0
    → ((add_order o k).bid_levels ≡ k.bid_levels) × ((add_order o k).cached_best_bid ≡ 0)
unfolding add_order
ask_added k o n hs hp = ground (arith, n.unknown o.id, n.bid)

best_ask :
    (k : ArrayBook) (o : Order)
    → IsNew k
    → o.side ≡ sell
    → o.price ≡ 0
    → ltb (add_order o k).cached_best_bid (add_order o k).cached_best_ask ≡ false
unfolding add_order is_valid_price
best_ask k o n hs hp = ground (arith, n.unknown o.id, n.bid, n.lowest)

-- A flaw: in a new book whose lowest price is 0, `match` after an ask at price 0 reads the front of an
-- empty list of bids, because the cached best bid of an empty side is the valid price 0.
pub match_orders_at_zero :
    (hi tick : ℕ) {k : ArrayBook} (o : Order)
    → create 0 hi tick ≡ ok k
    → o.side ≡ sell
    → o.price ≡ 0
    → match_orders (add_order o k) ≡ none
match_orders_at_zero hi tick {k} o e hs hp =
    let n = create-IsNew hi tick e in
    no_bid (add_order o k) (best_ask k o n hs hp)
      (λ i. subst (λ ls. get_or ls i [] ≡ []) (sym (ask_added k o n hs hp).0) (n.bids i))
