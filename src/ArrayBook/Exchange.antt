-- ===== src/ArrayBook/Exchange.antt =====
-- src/orderbooks/array_order_book.cpp: one round of `match`, between the fronts of the two best levels.
use hft_orderbook_benchmark.Common.{
  ℕ, suc, ◌^◌, ◌+◌, ◌-◌, ◌<◌, ◌≤◌, ◌≡◌, refl, sym, ap, ◌∙◌, Bool, true, false, List, [], ◌∷◌, ◌++◌,
  some, if◌then◌else◌, ◌==◌, ltb, arith, Bool-cases, inl, inr, length, length-append, get_or, set,
  is_empty, min_of,
}
use hft_orderbook_benchmark.Containers.OrderList.{Node, OrderList}
use hft_orderbook_benchmark.Containers.Index
use hft_orderbook_benchmark.Containers.Index.{Index}
use hft_orderbook_benchmark.Contract.{trade}
use hft_orderbook_benchmark.Resting.{flat}
use hft_orderbook_benchmark.Matching.{less, pop_filled, forget_filled}
use hft_orderbook_benchmark.Matching.Indexed.{Indexed}
use hft_orderbook_benchmark.Matching.Fills.{
  Leads, Leads-front, pop_bid_filled-Indexed, pop_ask_filled-Indexed, length-pop_filled,
}
use hft_orderbook_benchmark.ArrayBook.{ArrayBook, ArrayLocation}
use hft_orderbook_benchmark.ArrayBook.Rounds.{fill_bid, fill_ask}
use hft_orderbook_benchmark.ArrayBook.Prices.{reconfigured}
use hft_orderbook_benchmark.ArrayBook.Sides.{ladder}
use hft_orderbook_benchmark.ArrayBook.Scans.{scan, scan-bound, found}
use hft_orderbook_benchmark.ArrayBook.Best.{scan-first, set-get_or}
use hft_orderbook_benchmark.ArrayBook.Changes.{filled-IsSide}
use hft_orderbook_benchmark.ArrayBook.Caches.{fill_bid_lem, fill_ask_lem}
use hft_orderbook_benchmark.ArrayBook.Located.{located-erase}
use hft_orderbook_benchmark.ArrayBook.Cancel.{erase-inside}
use hft_orderbook_benchmark.ArrayBook.View.{
  view, bid_nodes, ask_nodes, located, IsValid, IsSide, IsSameGrid,
}

abbrev forget : ℕ → Node → Index ArrayLocation → Index ArrayLocation
forget q n ix = if n.order.quantity - q == 0 then Index.erase n.order.id ix else ix

located-forget :
    (p t q : ℕ) (n : Node) (ix : Index ArrayLocation)
    → located p t (forget q n ix) ≡ forget_filled (less q n) (located p t ix)
located-forget p t q n ix = elim (Bool-cases (n.order.quantity - q == 0)) [
  | inl e ↦ rw e (located-erase p t n.order.id ix)
  | inr e ↦ rw e refl
]

forget-inside :
    (q m : ℕ) (n : Node) (ix : Index ArrayLocation)
    → ((jd : ℕ) (k : ArrayLocation) → ix.find jd ≡ some k → k.array_index < m)
    → (jd : ℕ) (k : ArrayLocation) → (forget q n ix).find jd ≡ some k
    → k.array_index < m
forget-inside q m n ix v = elim (Bool-cases (n.order.quantity - q == 0)) [
  | inl e ↦ rw e (erase-inside n.order.id m ix v)
  | inr e ↦ rw e v
]

-- The first level of a side is the one that its scan finds.
module _ {b : Bool} {d p t n best : ℕ} {ls : List OrderList} {active : List Bool}
    (s : IsSide b d p t n ls active best) (i : ℕ) (h : scan b n active ≡ some i) where
  pub first_level :
      (ns : OrderList) → flat (ladder b p t (set ls i ns)) ≡ ns ++ flat (ladder b p t (set ls i []))
  first_level ns = scan-first b p t i ls ns (rw (s.sized, ← s.marked) h)

  pub first_nodes :
      (ns : OrderList)
      → get_or ls i [] ≡ ns
      → flat (ladder b p t ls) ≡ ns ++ flat (ladder b p t (set ls i []))
  first_nodes ns e =
      ap (λ ms. flat (ladder b p t ms)) (sym (rw e at (set-get_or ls i))) ∙ first_level ns

-- What a round comes to.
pub record Exchanged (k k' : ArrayBook) (b a : Node) : Type 0 where
  pub valid : IsValid k'
  pub grid : IsSameGrid k k'
  pub leads :
      Leads (view k).bids (view k).asks (trade b.order a.order ∷ []) (view k').bids (view k').asks
  pub fewer :
      (f : ℕ)
      → length (bid_nodes k) + length (ask_nodes k) ≤ f
      → length (bid_nodes k') + length (ask_nodes k') < f

module _ (k : ArrayBook) (v : IsValid k) (few : k.num_levels ≤ 2 ^ 31) (i j : ℕ) (b a : Node)
    (xs ys : OrderList) (f : scan true k.num_levels k.active_bid_levels ≡ some i)
    (g : scan false k.num_levels k.active_ask_levels ≡ some j)
    (e : get_or k.bid_levels i [] ≡ b ∷ xs) (w : get_or k.ask_levels j [] ≡ a ∷ ys) where
  abbrev q : ℕ
  q = min_of b.order.quantity a.order.quantity

  abbrev us : List Node
  us = flat (ladder true k.min_price k.tick_size (set k.bid_levels i []))

  abbrev vs : List Node
  vs = flat (ladder false k.min_price k.tick_size (set k.ask_levels j []))

  abbrev bid_filled : ArrayBook
  bid_filled =
      let bs = pop_filled (less q b) xs in
      let fs = set k.active_bid_levels i false in
      record k {
        bid_levels = set k.bid_levels i bs;
        active_bid_levels = if is_empty bs then fs else k.active_bid_levels;
        cached_best_bid =
            if is_empty bs
            then found 0 k.min_price k.tick_size (scan true k.num_levels fs)
            else k.cached_best_bid;
        order_lookup = forget q b k.order_lookup;
      }

  abbrev pub exchanged : ArrayBook
  exchanged = fill_ask j q a ys (fill_bid i q b xs k)

  bids_before : bid_nodes k ≡ (b ∷ xs) ++ us
  bids_before = first_nodes v.bid_side i f (b ∷ xs) e

  asks_before : ask_nodes k ≡ (a ∷ ys) ++ vs
  asks_before = first_nodes v.ask_side j g (a ∷ ys) w

  bids_after :
      flat (ladder true k.min_price k.tick_size (set k.bid_levels i (pop_filled (less q b) xs)))
      ≡ pop_filled (less q b) xs ++ us
  bids_after = first_level v.bid_side i f (pop_filled (less q b) xs)

  asks_after :
      flat (ladder false k.min_price k.tick_size (set k.ask_levels j (pop_filled (less q a) ys)))
      ≡ pop_filled (less q a) ys ++ vs
  asks_after = first_level v.ask_side j g (pop_filled (less q a) ys)

  kept :
      Indexed
        (pop_filled (less q b) xs ++ us)
        (pop_filled (less q a) ys ++ vs)
        (located k.min_price k.tick_size (forget q a (forget q b k.order_lookup)))
        k.next_cell
  kept =
      rw
        (
          located-forget k.min_price k.tick_size q a (forget q b k.order_lookup),
          located-forget k.min_price k.tick_size q b k.order_lookup,
        )
        (pop_ask_filled-Indexed q a (pop_filled (less q b) xs ++ us) ys vs _ k.next_cell (
          pop_bid_filled-Indexed q b xs us (a ∷ ys ++ vs) _ k.next_cell
            (rw (bids_before, asks_before) at v.lookup)))

  fewer_nodes :
      (m : ℕ)
      → length (b ∷ xs ++ us) + length (a ∷ ys ++ vs) ≤ m
      → length (pop_filled (less q b) xs ++ us) + length (pop_filled (less q a) ys ++ vs) < m
  fewer_nodes m h = omega (
    arith,
    h,
    length-append xs us,
    length-append ys vs,
    length-append (pop_filled (less q b) xs) us,
    length-append (pop_filled (less q a) ys) vs,
    length-pop_filled b a xs ys (suc (length xs + length ys)) (omega arith),
  )

  pub Exchanged-fronts : ltb b.order.price a.order.price ≡ false → Exchanged k exchanged b a
  Exchanged-fronts c =
      rw
        (
          fill_bid_lem k v.configured i q b xs few,
          fill_ask_lem bid_filled (reconfigured v.configured) j q a ys,
        )
        (record {
          valid = record {
            configured = reconfigured v.configured;
            above_zero = v.above_zero;
            below_max = v.below_max;
            bid_side =
                filled-IsSide v.configured.tick v.bid_side i
                  (scan-bound true k.num_levels i k.active_bid_levels f) q b xs e;
            ask_side =
                filled-IsSide v.configured.tick v.ask_side j
                  (scan-bound false k.num_levels j k.active_ask_levels g) q a ys w;
            lookup = rw (bids_after, asks_after) kept;
            inside =
                forget-inside q k.num_levels a (forget q b k.order_lookup)
                  (forget-inside q k.num_levels b k.order_lookup v.inside);
          };
          grid = (refl, refl, refl);
          leads =
              rw (bids_before, asks_before, bids_after, asks_after) (Leads-front b a xs ys us vs c);
          fewer = λ m h.
              rw (bids_after, asks_after) (fewer_nodes m (rw (bids_before, asks_before) at h));
        })
