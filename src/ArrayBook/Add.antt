-- ===== src/ArrayBook/Add.antt =====
-- src/orderbooks/array_order_book.cpp: `addOrder` against the contract.
use hft_orderbook_benchmark.Common.{
  ℕ, ◌<◌, ◌≡◌, refl, ap, ◌∙◌, true, false, none, some, if◌then◌else◌, ◌==◌, arith, Bool-cases,
  Option-cases, inl, inr,
}
use hft_orderbook_benchmark.Core.{Order, is_buy}
use hft_orderbook_benchmark.Containers.OrderList.{Node}
use hft_orderbook_benchmark.Containers.Index
use hft_orderbook_benchmark.Containers.Index.{Index}
use hft_orderbook_benchmark.Contract
use hft_orderbook_benchmark.Contract.{Book, holds}
use hft_orderbook_benchmark.Resting.{orders}
use hft_orderbook_benchmark.Resting.Orders.{orders-insert_node}
use hft_orderbook_benchmark.Matching.Indexed.Sides.{holds_of_none}
use hft_orderbook_benchmark.Matching.Indexed.Books.{insert_bid-Indexed, insert_ask-Indexed}
use hft_orderbook_benchmark.MapBook.View.{Book_path, known}
use hft_orderbook_benchmark.ArrayBook.{
  ArrayBook, ArrayLocation, add_order, price_to_index, is_valid_price,
}
use hft_orderbook_benchmark.ArrayBook.Prices.{price-on_level, reconfigured}
use hft_orderbook_benchmark.ArrayBook.Changes.{pushed-IsSide, flat_pushed}
use hft_orderbook_benchmark.ArrayBook.Located.{located-insert}
use hft_orderbook_benchmark.ArrayBook.View.{
  view, bid_nodes, ask_nodes, located, locate, locate_some, IsValid, Refines,
}

-- A new location inside the arrays keeps all of them inside.
insert-inside :
    (id n : ℕ) (l : ArrayLocation) (ix : Index ArrayLocation)
    → l.array_index < n
    → ((jd : ℕ) (k : ArrayLocation) → ix.find jd ≡ some k → k.array_index < n)
    → (jd : ℕ) (k : ArrayLocation) → (Index.insert id l ix).find jd ≡ some k
    → k.array_index < n
unfolding Index.insert
insert-inside id n l ix h v jd k e = elim (Bool-cases (jd == id)) [
  | inl w ↦ ground (arith, w, e, h)
  | inr w ↦ v jd k (ground (arith, w, e))
]

module _ (k : ArrayBook) (v : IsValid k) (o : Order) where
  abbrev i : ℕ
  i = price_to_index k o.price

  abbrev n : Node
  n = record { cell = k.next_cell; order = o }

  unknown :
      k.order_lookup.find o.id ≡ none
      → (located k.min_price k.tick_size k.order_lookup).find o.id ≡ none
  unknown h = ap (locate_some k.min_price k.tick_size) h

  add_order_duplicate :
      (l : ArrayLocation)
      → k.order_lookup.find o.id ≡ some l
      → Refines k (add_order o k) (Contract.add o (view k))
  unfolding add_order Contract.add
  add_order_duplicate l h =
      rw
        (
          h,
          add_order,
          known o.id (locate k.min_price k.tick_size l) v.lookup
              (ap (locate_some k.min_price k.tick_size) h),
        )
        (record { valid = v; grid = (refl, refl, refl); seen = refl })

  add_order_off_grid :
      k.order_lookup.find o.id ≡ none
      → is_valid_price k o.price ≡ false
      → Refines k (add_order o k) (view k)
  unfolding add_order
  add_order_off_grid h e =
      rw (h, add_order, e) (record { valid = v; grid = (refl, refl, refl); seen = refl })

  module _ (h : k.order_lookup.find o.id ≡ none) (g : is_valid_price k o.price ≡ true) where
    no_bid : holds o.id (orders (bid_nodes k)) ≡ false
    no_bid =
        holds_of_none true o.id (bid_nodes k) (located k.min_price k.tick_size k.order_lookup)
          (unknown h) v.lookup.bids.indexed

    no_ask : holds o.id (orders (ask_nodes k)) ≡ false
    no_ask =
        holds_of_none false o.id (ask_nodes k) (located k.min_price k.tick_size k.order_lookup)
          (unknown h) v.lookup.asks.indexed

    add_order_bid : is_buy o.side ≡ true → Refines k (add_order o k) (Contract.add o (view k))
    unfolding add_order Contract.add
    add_order_bid e =
        let w = price-on_level k o.price v.configured g in
        let f = flat_pushed v.configured.tick v.bid_side i w.1 n w.0 in
        let l : ArrayLocation = record { is_buy = true; array_index = i; iterator = k.next_cell } in
        rw (h, add_order, g, no_bid, no_ask, e)
          (record {
            valid = record {
              configured = reconfigured v.configured;
              above_zero = v.above_zero;
              below_max = v.below_max;
              bid_side =
                  pushed-IsSide v.configured.tick v.bid_side i w.1 n w.0
                    (ground (arith, v.above_zero, w.2));
              ask_side = v.ask_side;
              lookup =
                  rw (f, located-insert k.min_price k.tick_size o.id l k.order_lookup, ← w.0)
                    (insert_bid-Indexed v.lookup n (unknown h) refl);
              inside = insert-inside o.id k.num_levels l k.order_lookup w.1 v.inside;
            };
            grid = (refl, refl, refl);
            seen = Book_path _ _ _ _ (ap orders f ∙ orders-insert_node true n (bid_nodes k)) refl;
          })

    add_order_ask : is_buy o.side ≡ false → Refines k (add_order o k) (Contract.add o (view k))
    unfolding add_order Contract.add
    add_order_ask e =
        let w = price-on_level k o.price v.configured g in
        let f = flat_pushed v.configured.tick v.ask_side i w.1 n w.0 in
        let l : ArrayLocation = record {
          is_buy = false;
          array_index = i;
          iterator = k.next_cell;
        } in
        rw (h, add_order, g, no_bid, no_ask, e)
          (record {
            valid = record {
              configured = reconfigured v.configured;
              above_zero = v.above_zero;
              below_max = v.below_max;
              bid_side = v.bid_side;
              ask_side =
                  pushed-IsSide v.configured.tick v.ask_side i w.1 n w.0
                    (ground (arith, v.below_max, w.3));
              lookup =
                  rw (f, located-insert k.min_price k.tick_size o.id l k.order_lookup, ← w.0)
                    (insert_ask-Indexed v.lookup n (unknown h) refl);
              inside = insert-inside o.id k.num_levels l k.order_lookup w.1 v.inside;
            };
            grid = (refl, refl, refl);
            seen = Book_path _ _ _ _ refl (ap orders f ∙ orders-insert_node false n (ask_nodes k));
          })

  add_order_duplicate_off_grid :
      (l : ArrayLocation) → k.order_lookup.find o.id ≡ some l → Refines k (add_order o k) (view k)
  unfolding add_order
  add_order_duplicate_off_grid l h =
      rw (h, add_order) (record { valid = v; grid = (refl, refl, refl); seen = refl })

  -- For a book that is in order, `addOrder` keeps it in order. An order whose price is between the
  -- lowest and the highest one and a whole number of ticks above the lowest is added as the contract
  -- says; any other changes nothing.
  pub array_add-Refines :
      Refines k
        (add_order o k)
        (if is_valid_price k o.price then Contract.add o (view k) else view k)
  array_add-Refines = elim (Option-cases (k.order_lookup.find o.id)) [
    | inl h ↦ elim (Bool-cases (is_valid_price k o.price)) [
      | inl g ↦ elim (Bool-cases (is_buy o.side)) [
        | inl e ↦ rw g (add_order_bid h g e)
        | inr e ↦ rw g (add_order_ask h g e)
      ]
      | inr g ↦ rw g (add_order_off_grid h g)
    ]
    | inr (l, h) ↦ elim (Bool-cases (is_valid_price k o.price)) [
      | inl g ↦ rw g (add_order_duplicate l h)
      | inr g ↦ rw g (add_order_duplicate_off_grid l h)
    ]
  ]
