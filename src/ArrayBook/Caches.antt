-- ===== src/ArrayBook/Caches.antt =====
-- src/orderbooks/array_order_book.cpp: `updateBestBidCache`, `updateBestAskCache` and the erasing of an
-- order, as one change of the fields of a side.
use hft_orderbook_benchmark.Common.{
  ℕ, ◌+◌, ◌-◌, ◌*◌, ◌%◌, ◌^◌, ◌<◌, ◌≤◌, ◌≡◌, arith, ltb, refl, true, false, if◌then◌else◌, ◌==◌,
  Bool-cases, Option-cases, inl, inr, is_empty, set, max_u64,
}
use hft_orderbook_benchmark.Containers.OrderList.{OrderList}
use hft_orderbook_benchmark.Containers.Index
use hft_orderbook_benchmark.Containers.OrderList.{Node}
use hft_orderbook_benchmark.Matching.{less, pop_filled}
use hft_orderbook_benchmark.ArrayBook.Rounds.{fill_bid, fill_ask}
use hft_orderbook_benchmark.ArrayBook.{
  ArrayBook, last_active, first_active, bid_rounds, update_best_bid_cache, update_best_ask_cache,
  erase_bid, erase_ask,
}
use hft_orderbook_benchmark.ArrayBook.Prices.{IsConfigured, reconfigured, index_to_price-inside}
use hft_orderbook_benchmark.ArrayBook.Scans.{scan, scan-bound, found}

-- Up to 2^31 levels, the `int` counter of `updateBestBidCache` visits all of them.
bid_rounds_lem : (n : ℕ) → 0 < n → n ≤ 2 ^ 31 → bid_rounds n ≡ n
unfolding bid_rounds
bid_rounds_lem n p h =
    let t : ltb ((n + 2 ^ 64 - 1) % 2 ^ 32) (2 ^ 31) ≡ true = ground arith in
    let e : (n + 2 ^ 64 - 1) % 2 ^ 32 + 1 ≡ n = omega arith in rw (t, bid_rounds) e

pub update_best_bid_cache_lem :
    (k : ArrayBook)
    → IsConfigured k
    → k.num_levels ≤ 2 ^ 31
    → update_best_bid_cache k ≡ record k {
      cached_best_bid =
          found 0 k.min_price k.tick_size (scan true k.num_levels k.active_bid_levels);
    }
unfolding update_best_bid_cache
update_best_bid_cache_lem k c h =
    let few : bid_rounds k.num_levels ≡ k.num_levels =
      bid_rounds_lem k.num_levels (omega (arith, c.levels)) h in
    elim (Option-cases (last_active k.num_levels k.active_bid_levels)) [
      | inl e ↦ rw (few, e, update_best_bid_cache) refl
      | inr (i, e) ↦
          let w = scan-bound true k.num_levels i k.active_bid_levels e in
          rw (few, e, update_best_bid_cache, (index_to_price-inside k i c w).1) refl
    ]

pub update_best_ask_cache_lem :
    (k : ArrayBook)
    → IsConfigured k
    → update_best_ask_cache k ≡ record k {
      cached_best_ask =
          found max_u64 k.min_price k.tick_size (scan false k.num_levels k.active_ask_levels);
    }
unfolding update_best_ask_cache
update_best_ask_cache_lem k c =
    elim (Option-cases (first_active k.num_levels 0 k.active_ask_levels)) [
      | inl e ↦ rw (e, update_best_ask_cache) refl
      | inr (i, e) ↦
          let w = scan-bound false k.num_levels i k.active_ask_levels e in
          rw (e, update_best_ask_cache, (index_to_price-inside k i c w).1) refl
    ]

module _ (k : ArrayBook) (c : IsConfigured k) (i : ℕ) (h : i < k.num_levels) (ns : OrderList) where
  pub erase_bid_lem :
      k.num_levels ≤ 2 ^ 31
      → let fs = set k.active_bid_levels i false in
        erase_bid i ns k ≡ record k {
          bid_levels = set k.bid_levels i ns;
          active_bid_levels = if is_empty ns then fs else k.active_bid_levels;
          cached_best_bid =
              if is_empty ns
              then (if k.min_price + i * k.tick_size == k.cached_best_bid
                  then found 0 k.min_price k.tick_size (scan true k.num_levels fs)
                  else k.cached_best_bid)
              else k.cached_best_bid;
        }
  unfolding erase_bid
  erase_bid_lem few =
      let w = (index_to_price-inside k i c h).1 in
      elim (Bool-cases (is_empty ns)) [
        | inl e ↦ elim (Bool-cases (k.min_price + i * k.tick_size == k.cached_best_bid)) [
          | inl g ↦
              rw (e, erase_bid, w, g)
                (update_best_bid_cache_lem _ (reconfigured {best_bid = k.cached_best_bid} c) few)
          | inr g ↦ rw (e, erase_bid, w, g) refl
        ]
        | inr e ↦ rw (e, erase_bid) refl
      ]

  pub erase_ask_lem :
      let fs = set k.active_ask_levels i false in
      erase_ask i ns k ≡ record k {
        ask_levels = set k.ask_levels i ns;
        active_ask_levels = if is_empty ns then fs else k.active_ask_levels;
        cached_best_ask =
            if is_empty ns
            then (if k.min_price + i * k.tick_size == k.cached_best_ask
                then found max_u64 k.min_price k.tick_size (scan false k.num_levels fs)
                else k.cached_best_ask)
            else k.cached_best_ask;
      }
  unfolding erase_ask
  erase_ask_lem =
      let w = (index_to_price-inside k i c h).1 in
      elim (Bool-cases (is_empty ns)) [
        | inl e ↦ elim (Bool-cases (k.min_price + i * k.tick_size == k.cached_best_ask)) [
          | inl g ↦
              rw (e, erase_ask, w, g)
                (update_best_ask_cache_lem _ (reconfigured {best_ask = k.cached_best_ask} c))
          | inr g ↦ rw (e, erase_ask, w, g) refl
        ]
        | inr e ↦ rw (e, erase_ask) refl
      ]

module _ (k : ArrayBook) (c : IsConfigured k) (i q : ℕ) (n : Node) (ns : OrderList) where
  pub fill_bid_lem :
      k.num_levels ≤ 2 ^ 31
      → let xs = pop_filled (less q n) ns in
        let fs = set k.active_bid_levels i false in
        fill_bid i q n ns k ≡ record k {
          bid_levels = set k.bid_levels i xs;
          active_bid_levels = if is_empty xs then fs else k.active_bid_levels;
          cached_best_bid =
              if is_empty xs
              then found 0 k.min_price k.tick_size (scan true k.num_levels fs)
              else k.cached_best_bid;
          order_lookup =
              if n.order.quantity - q == 0
              then Index.erase n.order.id k.order_lookup
              else k.order_lookup;
        }
  unfolding fill_bid
  fill_bid_lem few = elim (Bool-cases (n.order.quantity - q == 0)) [
    | inl e ↦ elim (Bool-cases (is_empty ns)) [
      | inl g ↦
          rw (e, fill_bid, g)
            (update_best_bid_cache_lem _ (reconfigured {best_bid = k.cached_best_bid} c) few)
      | inr g ↦ rw (e, fill_bid, g) refl
    ]
    | inr e ↦ rw (e, fill_bid) refl
  ]

  pub fill_ask_lem :
      let xs = pop_filled (less q n) ns in
      let fs = set k.active_ask_levels i false in
      fill_ask i q n ns k ≡ record k {
        ask_levels = set k.ask_levels i xs;
        active_ask_levels = if is_empty xs then fs else k.active_ask_levels;
        cached_best_ask =
            if is_empty xs
            then found max_u64 k.min_price k.tick_size (scan false k.num_levels fs)
            else k.cached_best_ask;
        order_lookup =
            if n.order.quantity - q == 0
            then Index.erase n.order.id k.order_lookup
            else k.order_lookup;
      }
  unfolding fill_ask
  fill_ask_lem = elim (Bool-cases (n.order.quantity - q == 0)) [
    | inl e ↦ elim (Bool-cases (is_empty ns)) [
      | inl g ↦
          rw (e, fill_ask, g)
            (update_best_ask_cache_lem _ (reconfigured {best_ask = k.cached_best_ask} c))
      | inr g ↦ rw (e, fill_ask, g) refl
    ]
    | inr e ↦ rw (e, fill_ask) refl
  ]
