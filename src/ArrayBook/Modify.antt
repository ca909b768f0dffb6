-- ===== src/ArrayBook/Modify.antt =====
-- src/orderbooks/array_order_book.cpp: `modifyOrder` against the contract.
use hft_orderbook_benchmark.Common.{
  ℕ, ◌^◌, ◌≤◌, ◌≡◌, refl, sym, ap, ◌∙◌, true, false, none, some, ◌==◌, arith, Bool-cases,
  Option-cases, inl, inr,
}
use hft_orderbook_benchmark.Contract
use hft_orderbook_benchmark.Contract.{Book, holds}
use hft_orderbook_benchmark.Resting.{orders}
use hft_orderbook_benchmark.Matching.Indexed.Removal.{orders-set_at}
use hft_orderbook_benchmark.Matching.Indexed.Absent.{set_quantity_absent}
use hft_orderbook_benchmark.Matching.Indexed.Books.{
  set_bid-Indexed, set_ask-Indexed, Marks-bids, Marks-asks,
}
use hft_orderbook_benchmark.MapBook.View.{Book_path}
use hft_orderbook_benchmark.ArrayBook.{ArrayBook, ArrayLocation, cancel_order, modify_order}
use hft_orderbook_benchmark.ArrayBook.Prices.{reconfigured}
use hft_orderbook_benchmark.ArrayBook.Changes.{requantified-IsSide, flat_requantified}
use hft_orderbook_benchmark.ArrayBook.View.{view, bid_nodes, ask_nodes, IsValid, Refines}
use hft_orderbook_benchmark.ArrayBook.Held.{
  no_bid, no_ask, place, known, inside, bid_only, ask_only,
}
use hft_orderbook_benchmark.ArrayBook.Cancel.{array_cancel-Refines}

module _ (k : ArrayBook) (v : IsValid k) (few : k.num_levels ≤ 2 ^ 31) (id : ℕ) where
  module _ (h : k.order_lookup.find id ≡ none) where
    modify_order_absent :
        (q : ℕ) → (q == 0) ≡ false → Refines k (modify_order id q k) (Contract.modify id q (view k))
    unfolding modify_order Contract.modify
    modify_order_absent q z =
        rw (h, modify_order, z)
          (record {
            valid = v;
            grid = (refl, refl, refl);
            seen = sym (
                Book_path _ _ _ _ (set_quantity_absent id q _ (no_bid k v id h))
                  (set_quantity_absent id q _ (no_ask k v id h)));
          })

  module _ (l : ArrayLocation) (h : k.order_lookup.find id ≡ some l) where
    modify_bid :
        (q : ℕ)
        → (q == 0) ≡ false
        → l.is_buy ≡ true
        → Refines k (modify_order id q k) (Contract.modify id q (view k))
    unfolding modify_order Contract.modify
    modify_bid q z s =
        let f =
          flat_requantified v.configured.tick v.bid_side l.array_index (inside k v id l h)
            l.iterator q in
        rw (h, modify_order, z, s)
          (record {
            valid = record {
              configured = reconfigured v.configured;
              above_zero = v.above_zero;
              below_max = v.below_max;
              bid_side =
                  requantified-IsSide v.configured.tick v.bid_side l.array_index (inside k v id l h)
                    l.iterator q;
              ask_side = v.ask_side;
              lookup = rw f (set_bid-Indexed v.lookup (place k v id l h).price l.iterator q);
              inside = v.inside;
            };
            grid = (refl, refl, refl);
            seen =
                Book_path _ _ _ _
                  (ap orders f
                    ∙ orders-set_at id q (place k v id l h) (bid_nodes k)
                        (Marks-bids v.lookup id (place k v id l h) (known k v id l h) s))
                  (sym (set_quantity_absent id q _ (bid_only k v id l h s)));
          })

    modify_ask :
        (q : ℕ)
        → (q == 0) ≡ false
        → l.is_buy ≡ false
        → Refines k (modify_order id q k) (Contract.modify id q (view k))
    unfolding modify_order Contract.modify
    modify_ask q z s =
        let f =
          flat_requantified v.configured.tick v.ask_side l.array_index (inside k v id l h)
            l.iterator q in
        rw (h, modify_order, z, s)
          (record {
            valid = record {
              configured = reconfigured v.configured;
              above_zero = v.above_zero;
              below_max = v.below_max;
              bid_side = v.bid_side;
              ask_side =
                  requantified-IsSide v.configured.tick v.ask_side l.array_index (inside k v id l h)
                    l.iterator q;
              lookup = rw f (set_ask-Indexed v.lookup (place k v id l h).price l.iterator q);
              inside = v.inside;
            };
            grid = (refl, refl, refl);
            seen = Book_path _ _ _ _ (sym (set_quantity_absent id q _ (ask_only k v id l h s))) (
                ap orders f
                ∙ orders-set_at id q (place k v id l h) (ask_nodes k)
                    (Marks-asks v.lookup id (place k v id l h) (known k v id l h) s));
          })

  modify_order_zero : (q : ℕ) → (q == 0) ≡ true → modify_order id q k ≡ cancel_order id k
  unfolding modify_order cancel_order
  modify_order_zero q z = ground arith

  Contract-modify_zero :
      (q : ℕ) (b : Book) → (q == 0) ≡ true → Contract.modify id q b ≡ Contract.cancel id b
  unfolding Contract.modify
  Contract-modify_zero q b z = rw (z, Contract.modify)

  -- For a book that is in order and has at most 2^31 levels, `modifyOrder` keeps it in order and changes
  -- the quantity of the order of that id in its place, or cancels it for the quantity 0, as the contract
  -- says.
  pub array_modify-Refines :
      (q : ℕ) → Refines k (modify_order id q k) (Contract.modify id q (view k))
  array_modify-Refines q = elim (Bool-cases (q == 0)) [
    | inl z ↦
        rw (modify_order_zero q z, Contract-modify_zero q (view k) z)
          (array_cancel-Refines k v few id)
    | inr z ↦ elim (Option-cases (k.order_lookup.find id)) [
      | inl h ↦ modify_order_absent h q z
      | inr (l, h) ↦ elim (Bool-cases l.is_buy) [
        | inl s ↦ modify_bid l h q z s
        | inr s ↦ modify_ask l h q z s
      ]
    ]
  ]
