-- ===== src/ArrayBook/Matched.antt =====
-- src/orderbooks/array_order_book.cpp: `match` against the contract.
use hft_orderbook_benchmark.Common.{
  ℕ, zero, suc, ◌+◌, ◌*◌, ◌^◌, ◌≤◌, ◌<◌, ◌≡◌, refl, sym, ap, ◌∙◌, Bool, true, false, List, [], ◌∷◌,
  Option, none, some, ltb, arith, All, Bool-cases, Option-cases, inl, inr, length, get_or, is_empty,
  max_u64,
}
use hft_orderbook_benchmark.Core.{Order, Trade}
use hft_orderbook_benchmark.Containers.OrderList.{Node, OrderList}
use hft_orderbook_benchmark.Contract
use hft_orderbook_benchmark.Contract.{fill, trade, Match, done}
use hft_orderbook_benchmark.ArrayBook.{ArrayBook, price_to_index}
use hft_orderbook_benchmark.ArrayBook.Rounds.{
  match_orders, match_loop, trade_fronts, with_trade, total_length,
}
use hft_orderbook_benchmark.ArrayBook.Prices.{index_to_price-inside}
use hft_orderbook_benchmark.ArrayBook.Sides.{get_or-IsPriced}
use hft_orderbook_benchmark.ArrayBook.Scans.{scan, scan-bound, found}
use hft_orderbook_benchmark.ArrayBook.Best.{scan-filled, price_to_index-level, total_length-flat}
use hft_orderbook_benchmark.ArrayBook.Changes.{best_price}
use hft_orderbook_benchmark.ArrayBook.Exchange.{Exchanged, Exchanged-fronts, exchanged}
use hft_orderbook_benchmark.ArrayBook.View.{
  view, bid_nodes, ask_nodes, IsValid, IsSide, IsSameGrid, IsSameGrid-trans, few-IsSameGrid,
}

-- What the loop comes to: it returns, with a whole match of the abstract book.
pub record Settled (k : ArrayBook) (r : Option (List Trade × ArrayBook)) : Type 0 where
  pub trades : List Trade
  pub after : ArrayBook
  pub returns : r ≡ some (trades, after)
  pub valid : IsValid after
  pub grid : IsSameGrid k after
  pub matched : Match (view k).bids (view k).asks trades (view after).bids (view after).asks

fill_uncrossed :
    (xs ys : List Order)
    → ltb (Contract.best 0 xs) (Contract.best max_u64 ys) ≡ true
    → fill xs ys ≡ none
unfolding Contract.best fill
fill_uncrossed [] ys h = refl
fill_uncrossed (x ∷ xs) [] h = refl
fill_uncrossed (x ∷ xs) (y ∷ ys) h = rw (h, fill) refl

front : (ns : OrderList) → is_empty ns ≡ false → (n : Node) × (ms : OrderList) × (ns ≡ n ∷ ms)
front [] h = absurd (cc)
front (n ∷ ns) h = (n, ns, refl)

-- A level that a scan finds: its index, its price, and its first order.
record Top (b : Bool) (d p t n : ℕ) (ls : List OrderList) (active : List Bool) (best : ℕ)
    : Type 0 where
  index : ℕ
  scanned : scan b n active ≡ some index
  level : best ≡ p + index * t
  first : Node
  others : OrderList
  listed : get_or ls index [] ≡ first ∷ others
  price : first.order.price ≡ best

scan-Top :
    {b : Bool} {d p t n best : ℕ} {ls : List OrderList} {active : List Bool} (i : ℕ)
    → IsSide b d p t n ls active best
    → scan b n active ≡ some i
    → Top b d p t n ls active best
scan-Top {b} {d} {p} {t} {n} {best} {ls} {active} i s h =
    let (m, ms, e) = front (get_or ls i []) (scan-filled b n i ls (rw (← s.marked) h)) in
    let v : All (λ x. x.order.price ≡ p + i * t) (m ∷ ms) =
      rw e at (get_or-IsPriced p t i ls s.priced) in
    let l : best ≡ p + i * t = s.cached ∙ ap (found d p t) h in
    record {
      index = i;
      scanned = h;
      level = l;
      first = m;
      others = ms;
      listed = e;
      price = v.0 ∙ sym l;
    }

module _ (k : ArrayBook) (v : IsValid k) (few : k.num_levels ≤ 2 ^ 31)
    (c : ltb k.cached_best_bid k.cached_best_ask ≡ false) where
  bid_top :
      Top true 0 k.min_price k.tick_size k.num_levels k.bid_levels k.active_bid_levels
        k.cached_best_bid
  bid_top = elim (Option-cases (scan true k.num_levels k.active_bid_levels)) [
    | inl e ↦
        let z : k.cached_best_bid ≡ 0 =
          v.bid_side.cached ∙ ap (found 0 k.min_price k.tick_size) e in
        absurd (elim (Option-cases (scan false k.num_levels k.active_ask_levels)) [
          | inl g ↦
              let w : k.cached_best_ask ≡ max_u64 =
                v.ask_side.cached ∙ ap (found max_u64 k.min_price k.tick_size) g in
              ground (arith, z, w, c)
          | inr (j, g) ↦
              let w : k.cached_best_ask ≡ k.min_price + j * k.tick_size =
                v.ask_side.cached ∙ ap (found max_u64 k.min_price k.tick_size) g in
              ground (arith, z, w, c, v.above_zero)
        ])
    | inr (i, e) ↦ scan-Top i v.bid_side e
  ]

  ask_top :
      Top false max_u64 k.min_price k.tick_size k.num_levels k.ask_levels k.active_ask_levels
        k.cached_best_ask
  ask_top = elim (Option-cases (scan false k.num_levels k.active_ask_levels)) [
    | inl g ↦
        let w : k.cached_best_ask ≡ max_u64 =
          v.ask_side.cached ∙ ap (found max_u64 k.min_price k.tick_size) g in
        let m =
          index_to_price-inside k bid_top.index v.configured
            (scan-bound true k.num_levels bid_top.index k.active_bid_levels bid_top.scanned) in
        absurd (ground (arith, w, c, bid_top.level, m.0, v.below_max))
    | inr (j, g) ↦ scan-Top j v.ask_side g
  ]

  after : ArrayBook
  after =
      exchanged k v few bid_top.index ask_top.index bid_top.first ask_top.first bid_top.others
        ask_top.others bid_top.scanned ask_top.scanned bid_top.listed ask_top.listed

  -- A round finds both fronts, and they trade.
  round :
      trade_fronts
        (get_or k.bid_levels (price_to_index k k.cached_best_bid) [])
        (get_or k.ask_levels (price_to_index k k.cached_best_ask) [])
        k
      ≡ some (trade bid_top.first.order ask_top.first.order, after)
  unfolding trade_fronts after
  round =
      let i =
        ap (price_to_index k) bid_top.level
        ∙ price_to_index-level k bid_top.index v.configured
            (scan-bound true k.num_levels bid_top.index k.active_bid_levels bid_top.scanned) in
      let j =
        ap (price_to_index k) ask_top.level
        ∙ price_to_index-level k ask_top.index v.configured
            (scan-bound false k.num_levels ask_top.index k.active_ask_levels ask_top.scanned) in
      rw (i, j, bid_top.listed, ask_top.listed, trade_fronts, i, j) refl

  round-Exchanged : Exchanged k after bid_top.first ask_top.first
  unfolding after
  round-Exchanged =
      Exchanged-fronts k v few bid_top.index ask_top.index bid_top.first ask_top.first
        bid_top.others ask_top.others bid_top.scanned ask_top.scanned bid_top.listed ask_top.listed
        (rw (bid_top.price, ask_top.price) c)

-- A round in front of the rounds after it.
Settled-round :
    (k k' : ArrayBook) (b a : Node) (r : Option (List Trade × ArrayBook))
    → Exchanged k k' b a
    → Settled k' r
    → Settled k (with_trade (trade b.order a.order) r)
Settled-round k k' b a r x s = record {
  trades = trade b.order a.order ∷ s.trades;
  after = s.after;
  returns = rw s.returns refl;
  valid = s.valid;
  grid = IsSameGrid-trans k k' s.after x.grid s.grid;
  matched = x.leads s.trades (view s.after).bids (view s.after).asks s.matched;
}

-- With fuel for every resting order the loop returns a whole match.
match_loop-Settled :
    (f : ℕ) (k : ArrayBook)
    → IsValid k
    → k.num_levels ≤ 2 ^ 31
    → length (bid_nodes k) + length (ask_nodes k) < f
    → Settled k (match_loop f k)
unfolding match_loop
match_loop-Settled zero k v few h = absurd (omega arith)
match_loop-Settled (suc f) k v few h = elim (Bool-cases (ltb k.cached_best_bid k.cached_best_ask)) [
  | inl e ↦
      rw (e, match_loop)
        (record {
          trades = [];
          after = k;
          returns = refl;
          valid = v;
          grid = (refl, refl, refl);
          matched = done (
              fill_uncrossed (view k).bids (view k).asks (
                rw
                  (
                    ← best_price v.configured.tick v.bid_side 0,
                    ← best_price v.configured.tick v.ask_side 0,
                  )
                  e));
        })
  | inr e ↦
      let x = round-Exchanged k v few e in
      rw (e, match_loop, round k v few e)
        (Settled-round k (after k v few e) _ _ _ x (
          match_loop-Settled f (after k v few e) x.valid
            (few-IsSameGrid k (after k v few e) v.configured x.valid.configured x.grid few)
            (x.fewer f (omega arith))))
]

-- For a book that is in order with at most 2^31 levels, whose lowest price is above 0 and whose highest
-- is below the largest 64-bit number, `match` returns, keeps the book in order, and its trades and what
-- rests after it are a complete matching of the contract.
pub array_match-Settled :
    (k : ArrayBook) → IsValid k → k.num_levels ≤ 2 ^ 31 → Settled k (match_orders k)
unfolding match_orders
array_match-Settled k v few =
    match_loop-Settled (suc (total_length k.bid_levels + total_length k.ask_levels)) k v few (
      omega (
        arith,
        total_length-flat true k.min_price k.tick_size k.bid_levels,
        total_length-flat false k.min_price k.tick_size k.ask_levels,
      ))
