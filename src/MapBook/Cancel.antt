-- ===== src/MapBook/Cancel.antt =====
-- `MapOrderBook::cancelOrder` and `MapOrderBook::modifyOrder` against the contract.
use hft_orderbook_benchmark.Common.{
  ℕ, ◌≡◌, sym, ap, ◌∙◌, true, false, none, some, ◌==◌, arith, Bool-cases, Option-cases, inl, inr,
}
use hft_orderbook_benchmark.Contract
use hft_orderbook_benchmark.Contract.{Book, Match, holds}
use hft_orderbook_benchmark.Resting.{orders, flat}
use hft_orderbook_benchmark.Matching.{Location}
use hft_orderbook_benchmark.Matching.Indexed.Sides.{holds_of_none, holds_of_other}
use hft_orderbook_benchmark.Matching.Indexed.Removal.{orders-erase_at, orders-set_at}
use hft_orderbook_benchmark.Matching.Indexed.Absent.{remove_absent, set_quantity_absent}
use hft_orderbook_benchmark.Matching.Indexed.Books.{
  erase_bid-Indexed, erase_ask-Indexed, set_bid-Indexed, set_ask-Indexed, Marks-bids, Marks-asks,
}
use hft_orderbook_benchmark.MapBook.{MapBook, cancel_order, modify_order}
use hft_orderbook_benchmark.MapBook.Levels.{
  flat-erase_order, erase_order-IsLadder, flat-write_quantity, write_quantity-IsLadder,
}
use hft_orderbook_benchmark.MapBook.View.{view, IsValid, Refines, Book_path}

module _ (k : MapBook) (v : IsValid k) where
  no_bid : (id : ℕ) → k.order_lookup.find id ≡ none → holds id (orders (flat k.bids)) ≡ false
  no_bid id h = holds_of_none true id (flat k.bids) k.order_lookup h v.lookup.bids.indexed

  no_ask : (id : ℕ) → k.order_lookup.find id ≡ none → holds id (orders (flat k.asks)) ≡ false
  no_ask id h = holds_of_none false id (flat k.asks) k.order_lookup h v.lookup.asks.indexed

  bid_only :
      (id : ℕ) (l : Location)
      → k.order_lookup.find id ≡ some l
      → l.is_buy ≡ true
      → holds id (orders (flat k.asks)) ≡ false
  bid_only id l h s =
      holds_of_other false id (flat k.asks) k.order_lookup l h (λ e. cc) v.lookup.asks.indexed

  ask_only :
      (id : ℕ) (l : Location)
      → k.order_lookup.find id ≡ some l
      → l.is_buy ≡ false
      → holds id (orders (flat k.bids)) ≡ false
  ask_only id l h s =
      holds_of_other true id (flat k.bids) k.order_lookup l h (λ e. cc) v.lookup.bids.indexed

  cancel_order_absent :
      (id : ℕ)
      → k.order_lookup.find id ≡ none
      → Refines (cancel_order id k) (Contract.cancel id (view k))
  unfolding cancel_order Contract.cancel
  cancel_order_absent id h =
      rw (h, cancel_order)
        (record {
          valid = v;
          seen = sym (
              Book_path _ _ _ _ (remove_absent id _ (no_bid id h))
                (remove_absent id _ (no_ask id h)));
        })

  cancel_order_resting :
      (id : ℕ) (l : Location)
      → k.order_lookup.find id ≡ some l
      → Refines (cancel_order id k) (Contract.cancel id (view k))
  unfolding cancel_order Contract.cancel
  cancel_order_resting id l h = elim (Bool-cases l.is_buy) [
    | inl e ↦
        rw (h, cancel_order, e)
          (record {
            valid = record {
              bid_ladder = erase_order-IsLadder true l.price l.iterator k.bids v.bid_ladder;
              ask_ladder = v.ask_ladder;
              lookup =
                  rw (flat-erase_order true l.price l.iterator k.bids v.bid_ladder)
                    (erase_bid-Indexed v.lookup id l h e);
            };
            seen =
                Book_path _ _ _ _
                  (ap orders (flat-erase_order true l.price l.iterator k.bids v.bid_ladder)
                    ∙ orders-erase_at id l (flat k.bids) (Marks-bids v.lookup id l h e))
                  (sym (remove_absent id _ (bid_only id l h e)));
          })
    | inr e ↦
        rw (h, cancel_order, e)
          (record {
            valid = record {
              bid_ladder = v.bid_ladder;
              ask_ladder = erase_order-IsLadder false l.price l.iterator k.asks v.ask_ladder;
              lookup =
                  rw (flat-erase_order false l.price l.iterator k.asks v.ask_ladder)
                    (erase_ask-Indexed v.lookup id l h e);
            };
            seen = Book_path _ _ _ _ (sym (remove_absent id _ (ask_only id l h e))) (
                ap orders (flat-erase_order false l.price l.iterator k.asks v.ask_ladder)
                ∙ orders-erase_at id l (flat k.asks) (Marks-asks v.lookup id l h e));
          })
  ]

  -- For a book that is in order, `cancelOrder` keeps it in order and takes exactly the order of that id
  -- off the resting orders, if there is one.
  pub cancel_order-Refines : (id : ℕ) → Refines (cancel_order id k) (Contract.cancel id (view k))
  cancel_order-Refines id = elim (Option-cases (k.order_lookup.find id)) [
    | inl h ↦ cancel_order_absent id h
    | inr (l, h) ↦ cancel_order_resting id l h
  ]

  modify_order_zero : (id q : ℕ) → (q == 0) ≡ true → modify_order id q k ≡ cancel_order id k
  unfolding modify_order cancel_order
  modify_order_zero id q z = ground arith

  Contract-modify_zero :
      (id q : ℕ) (b : Book) → (q == 0) ≡ true → Contract.modify id q b ≡ Contract.cancel id b
  unfolding Contract.modify
  Contract-modify_zero id q b z = rw (z, Contract.modify)

  modify_order_absent :
      (id q : ℕ)
      → k.order_lookup.find id ≡ none
      → (q == 0) ≡ false
      → Refines (modify_order id q k) (Contract.modify id q (view k))
  unfolding modify_order Contract.modify
  modify_order_absent id q h z =
      rw (h, modify_order, z)
        (record {
          valid = v;
          seen = sym (
              Book_path _ _ _ _ (set_quantity_absent id q _ (no_bid id h))
                (set_quantity_absent id q _ (no_ask id h)));
        })

  modify_order_resting :
      (id q : ℕ) (l : Location)
      → k.order_lookup.find id ≡ some l
      → (q == 0) ≡ false
      → Refines (modify_order id q k) (Contract.modify id q (view k))
  unfolding modify_order Contract.modify
  modify_order_resting id q l h z = elim (Bool-cases l.is_buy) [
    | inl e ↦
        rw (h, modify_order, z, e)
          (record {
            valid = record {
              bid_ladder = write_quantity-IsLadder true l.price l.iterator q k.bids v.bid_ladder;
              ask_ladder = v.ask_ladder;
              lookup =
                  rw (flat-write_quantity true l.price l.iterator q k.bids v.bid_ladder)
                    (set_bid-Indexed v.lookup l.price l.iterator q);
            };
            seen =
                Book_path _ _ _ _
                  (ap orders (flat-write_quantity true l.price l.iterator q k.bids v.bid_ladder)
                    ∙ orders-set_at id q l (flat k.bids) (Marks-bids v.lookup id l h e))
                  (sym (set_quantity_absent id q _ (bid_only id l h e)));
          })
    | inr e ↦
        rw (h, modify_order, z, e)
          (record {
            valid = record {
              bid_ladder = v.bid_ladder;
              ask_ladder = write_quantity-IsLadder false l.price l.iterator q k.asks v.ask_ladder;
              lookup =
                  rw (flat-write_quantity false l.price l.iterator q k.asks v.ask_ladder)
                    (set_ask-Indexed v.lookup l.price l.iterator q);
            };
            seen = Book_path _ _ _ _ (sym (set_quantity_absent id q _ (ask_only id l h e))) (
                ap orders (flat-write_quantity false l.price l.iterator q k.asks v.ask_ladder)
                ∙ orders-set_at id q l (flat k.asks) (Marks-asks v.lookup id l h e));
          })
  ]

  -- For a book that is in order, `modifyOrder` keeps it in order and changes the quantity of the order
  -- of that id in its place, or cancels it for the quantity 0, as the contract says.
  pub modify_order-Refines :
      (id q : ℕ) → Refines (modify_order id q k) (Contract.modify id q (view k))
  modify_order-Refines id q = elim (Bool-cases (q == 0)) [
    | inl z ↦
        rw (modify_order_zero id q z, Contract-modify_zero id q (view k) z)
          (cancel_order-Refines id)
    | inr z ↦ elim (Option-cases (k.order_lookup.find id)) [
      | inl h ↦ modify_order_absent id q h z
      | inr (l, h) ↦ modify_order_resting id q l h z
    ]
  ]
