-- ===== src/ArrayBook/Cancel.antt =====
-- src/orderbooks/array_order_book.cpp: `cancelOrder` against the contract.
use hft_orderbook_benchmark.Common.{
  ℕ, ◌^◌, ◌≤◌, ◌<◌, ◌≡◌, refl, sym, ap, ◌∙◌, true, false, none, some, ◌==◌, arith, Bool-cases,
  Option-cases, inl, inr,
}
use hft_orderbook_benchmark.Containers.Index
use hft_orderbook_benchmark.Containers.Index.{Index}
use hft_orderbook_benchmark.Contract
use hft_orderbook_benchmark.Contract.{Book, holds}
use hft_orderbook_benchmark.Resting.{orders}
use hft_orderbook_benchmark.Matching.Indexed.Removal.{orders-erase_at}
use hft_orderbook_benchmark.Matching.Indexed.Absent.{remove_absent}
use hft_orderbook_benchmark.Matching.Indexed.Books.{
  erase_bid-Indexed, erase_ask-Indexed, Marks-bids, Marks-asks,
}
use hft_orderbook_benchmark.MapBook.View.{Book_path}
use hft_orderbook_benchmark.ArrayBook.{ArrayBook, ArrayLocation, cancel_order}
use hft_orderbook_benchmark.ArrayBook.Prices.{reconfigured}
use hft_orderbook_benchmark.ArrayBook.Changes.{erased-IsSide, flat_erased}
use hft_orderbook_benchmark.ArrayBook.Caches.{erase_bid_lem, erase_ask_lem}
use hft_orderbook_benchmark.ArrayBook.Located.{located-erase}
use hft_orderbook_benchmark.ArrayBook.View.{view, bid_nodes, ask_nodes, IsValid, Refines}
use hft_orderbook_benchmark.ArrayBook.Held.{
  no_bid, no_ask, place, known, inside, bid_only, ask_only,
}

pub erase-inside :
    (id n : ℕ) (ix : Index ArrayLocation)
    → ((jd : ℕ) (k : ArrayLocation) → ix.find jd ≡ some k → k.array_index < n)
    → (jd : ℕ) (k : ArrayLocation) → (Index.erase id ix).find jd ≡ some k
    → k.array_index < n
unfolding Index.erase
erase-inside id n ix v jd k e = elim (Bool-cases (jd == id)) [
  | inl w ↦ absurd (ground (arith, w, e))
  | inr w ↦ v jd k (ground (arith, w, e))
]

module _ (k : ArrayBook) (v : IsValid k) (few : k.num_levels ≤ 2 ^ 31) (id : ℕ) where
  module _ (h : k.order_lookup.find id ≡ none) where
    cancel_order_absent : Refines k (cancel_order id k) (Contract.cancel id (view k))
    unfolding cancel_order Contract.cancel
    cancel_order_absent =
        rw (h, cancel_order)
          (record {
            valid = v;
            grid = (refl, refl, refl);
            seen = sym (
                Book_path _ _ _ _ (remove_absent id _ (no_bid k v id h))
                  (remove_absent id _ (no_ask k v id h)));
          })

  module _ (l : ArrayLocation) (h : k.order_lookup.find id ≡ some l) where
    cancel_bid : l.is_buy ≡ true → Refines k (cancel_order id k) (Contract.cancel id (view k))
    unfolding cancel_order Contract.cancel
    cancel_bid s =
        let f =
          flat_erased v.configured.tick v.bid_side l.array_index (inside k v id l h) l.iterator in
        rw
          (h, cancel_order, s, erase_bid_lem k v.configured l.array_index (inside k v id l h) _ few)
          (record {
            valid = record {
              configured = reconfigured v.configured;
              above_zero = v.above_zero;
              below_max = v.below_max;
              bid_side =
                  erased-IsSide v.configured.tick v.bid_side l.array_index (inside k v id l h)
                    l.iterator;
              ask_side = v.ask_side;
              lookup =
                  rw (f, located-erase k.min_price k.tick_size id k.order_lookup)
                    (erase_bid-Indexed v.lookup id (place k v id l h) (known k v id l h) s);
              inside = erase-inside id k.num_levels k.order_lookup v.inside;
            };
            grid = (refl, refl, refl);
            seen =
                Book_path _ _ _ _
                  (ap orders f
                    ∙ orders-erase_at id (place k v id l h) (bid_nodes k)
                        (Marks-bids v.lookup id (place k v id l h) (known k v id l h) s))
                  (sym (remove_absent id _ (bid_only k v id l h s)));
          })

    cancel_ask : l.is_buy ≡ false → Refines k (cancel_order id k) (Contract.cancel id (view k))
    unfolding cancel_order Contract.cancel
    cancel_ask s =
        let f =
          flat_erased v.configured.tick v.ask_side l.array_index (inside k v id l h) l.iterator in
        rw (h, cancel_order, s, erase_ask_lem k v.configured l.array_index (inside k v id l h))
          (record {
            valid = record {
              configured = reconfigured v.configured;
              above_zero = v.above_zero;
              below_max = v.below_max;
              bid_side = v.bid_side;
              ask_side =
                  erased-IsSide v.configured.tick v.ask_side l.array_index (inside k v id l h)
                    l.iterator;
              lookup =
                  rw (f, located-erase k.min_price k.tick_size id k.order_lookup)
                    (erase_ask-Indexed v.lookup id (place k v id l h) (known k v id l h) s);
              inside = erase-inside id k.num_levels k.order_lookup v.inside;
            };
            grid = (refl, refl, refl);
            seen = Book_path _ _ _ _ (sym (remove_absent id _ (ask_only k v id l h s))) (
                ap orders f
                ∙ orders-erase_at id (place k v id l h) (ask_nodes k)
                    (Marks-asks v.lookup id (place k v id l h) (known k v id l h) s));
          })

  -- For a book that is in order and has at most 2^31 levels, `cancelOrder` keeps it in order and takes
  -- exactly the order of that id off the resting orders, if there is one.
  pub array_cancel-Refines : Refines k (cancel_order id k) (Contract.cancel id (view k))
  array_cancel-Refines = elim (Option-cases (k.order_lookup.find id)) [
    | inl h ↦ cancel_order_absent h
    | inr (l, h) ↦ elim (Bool-cases l.is_buy) [
      | inl s ↦ cancel_bid l h s
      | inr s ↦ cancel_ask l h s
    ]
  ]
