-- ===== src/Matching/Front.antt =====
-- The inner loop, over the orders at the fronts of two levels whose prices cross.
use hft_orderbook_benchmark.Common.{
  ℕ, zero, suc, ◌+◌, ◌≤◌, ◌≡◌, refl, ◌⊎◌, inl, inr, false, List, [], ◌∷◌, ◌++◌, ltb, arith, length,
  All, min_of,
}
use hft_orderbook_benchmark.Containers.OrderList.{Node, OrderList}
use hft_orderbook_benchmark.Containers.Index.{Index}
use hft_orderbook_benchmark.Contract.{trade}
use hft_orderbook_benchmark.Resting.{orders}
use hft_orderbook_benchmark.Matching.{Location, Round, less, pop_filled, forget_filled, match_front}
use hft_orderbook_benchmark.Matching.Indexed.{Indexed}
use hft_orderbook_benchmark.Matching.Fills.{
  Leads, Leads-trans, Leads-front, pop_bid_filled-Indexed, pop_ask_filled-Indexed, pop_filled-All,
  length-pop_filled,
}

-- What the inner loop comes to from `xs` and `ys`, in front of the nodes `us` and `vs` of the levels
-- behind: fills of the abstract book, until one of the two levels is empty.
pub record Front (p q next : ℕ) (us vs xs ys : List Node) (r : Round Node) : Type 0 where
  pub kept : Indexed (r.bids ++ us) (r.asks ++ vs) r.order_lookup next
  pub leads :
      Leads
        (orders (xs ++ us))
        (orders (ys ++ vs))
        r.trades
        (orders (r.bids ++ us))
        (orders (r.asks ++ vs))
  pub emptied : (r.bids ≡ []) ⊎ (r.asks ≡ [])
  pub bid_price : All (λ n. n.order.price ≡ p) r.bids
  pub ask_price : All (λ n. n.order.price ≡ q) r.asks

module _ (p q next : ℕ) (us vs : List Node) (cross : ltb p q ≡ false) where
  pub match_front-Front :
      (f : ℕ) (xs ys : OrderList) (ix : Index Location)
      → length xs + length ys ≤ f
      → All (λ n. n.order.price ≡ p) xs
      → All (λ n. n.order.price ≡ q) ys
      → Indexed (xs ++ us) (ys ++ vs) ix next
      → Front p q next us vs xs ys (match_front f xs ys ix)
  unfolding match_front
  match_front-Front zero [] [] ix h a b v = record {
    kept = v;
    leads = λ ws es fs m. m;
    emptied = inl refl;
    bid_price = tt;
    ask_price = tt;
  }
  match_front-Front zero [] (y ∷ ys) ix h a b v = absurd (omega arith)
  match_front-Front zero (x ∷ xs) ys ix h a b v = absurd (omega arith)
  match_front-Front (suc f) [] ys ix h a b v = record {
    kept = v;
    leads = λ ws es fs m. m;
    emptied = inl refl;
    bid_price = tt;
    ask_price = b;
  }
  match_front-Front (suc f) (x ∷ xs) [] ix h a b v = record {
    kept = v;
    leads = λ ws es fs m. m;
    emptied = inr refl;
    bid_price = a;
    ask_price = tt;
  }
  match_front-Front (suc f) (x ∷ xs) (y ∷ ys) ix h a b v =
      let t = min_of x.order.quantity y.order.quantity in
      let rest =
        match_front-Front f (pop_filled (less t x) xs) (pop_filled (less t y) ys)
          (forget_filled (less t y) (forget_filled (less t x) ix)) (length-pop_filled x y xs ys f h)
          (pop_filled-All p t x xs a.0 a.1) (pop_filled-All q t y ys b.0 b.1)
          (pop_ask_filled-Indexed t y (pop_filled (less t x) xs ++ us) ys vs _ next
            (pop_bid_filled-Indexed t x xs us (y ∷ ys ++ vs) ix next v)) in
      record {
        kept = rest.kept;
        leads =
            Leads-trans _ _ _ _ _ _ (trade x.order y.order ∷ []) _
              (Leads-front x y xs ys us vs (rw (a.0, b.0) cross)) rest.leads;
        emptied = rest.emptied;
        bid_price = rest.bid_price;
        ask_price = rest.ask_price;
      }
