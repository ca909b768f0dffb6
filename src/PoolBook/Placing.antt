-- ===== src/PoolBook/Placing.antt =====
-- `PoolOrderBook::addOrder` of a new order, with a slot for it.
use hft_orderbook_benchmark.Common.{
  ℕ, ◌+◌, ◌<◌, ◌≡◌, ◌≢◌, inl, inr, refl, sym, ap, ◌∙◌, Bool, true, false, List, [], ◌∷◌, none, some,
  arith, All, length, get_elem?, set, ==_ne, Bool-cases,
}
use hft_orderbook_benchmark.Core.{Order, is_buy}
use hft_orderbook_benchmark.Containers.OrderList.{Node, OrderList, push_back}
use hft_orderbook_benchmark.Containers.Ladder
use hft_orderbook_benchmark.Containers.Ladder.{Ladder}
use hft_orderbook_benchmark.Containers.Index
use hft_orderbook_benchmark.Containers.Index.{Index, find-insert, size-insert}
use hft_orderbook_benchmark.Contract
use hft_orderbook_benchmark.Contract.{Book, holds}
use hft_orderbook_benchmark.Resting.{orders, flat, IsLadder, insert_node}
use hft_orderbook_benchmark.Resting.Orders.{orders-insert_node, length-insert_node}
use hft_orderbook_benchmark.Resting.Levels.{flat-update-push_back, update-push_back-IsLadder}
use hft_orderbook_benchmark.MapBook.View.{Book_path}
use hft_orderbook_benchmark.Matching.{Location}
use hft_orderbook_benchmark.Matching.Indexed.{Indexed, IsIndexed, place}
use hft_orderbook_benchmark.Matching.Indexed.Sides.{insert-Half, insert-Half_other, holds_of_none}
use hft_orderbook_benchmark.PoolBook.{
  OrderNode, PoolLimitLevel, PoolBook, ok, null_idx, allocate_slot, add_order, change,
}
use hft_orderbook_benchmark.PoolBook.Slots.{IsChain, IsChain-set, get_elem-set_same}
use hft_orderbook_benchmark.PoolBook.Links.{IsLinked-set}
use hft_orderbook_benchmark.PoolBook.Levels.{IsLevels, IsFramed, IsLevels-framed}
use hft_orderbook_benchmark.PoolBook.Append.{Appended, append_to_level-Appended}
use hft_orderbook_benchmark.PoolBook.View.{cell_of, IsPool, Stands, unused-apart}
use hft_orderbook_benchmark.PoolBook.Growing.{all_levels, other-IsLevels, free-IsChain}
use hft_orderbook_benchmark.PoolBook.Entries.{insert-Cells_unused, insert-IsUnused, none_of_cell}

-- A pool with room for an order, and an order of an id that does not rest.
module _ (k : PoolBook) (bids asks : Ladder OrderList) (ix : Index Location) (j : ℕ) (js : List ℕ)
    (v : IsPool k bids asks ix (j ∷ js)) (o : Order) (h : k.order_lookup.find o.id ≡ none) where
  abbrev n : Node
  n = record { cell = j; order = o }

  absent : ix.find o.id ≡ none
  absent = none_of_cell (ix.find o.id) (sym (v.same_cells o.id) ∙ h)

  -- The slots with the order written to the one that was free.
  pub record Placed : Type 0 where
    pub slots : List OrderNode
    pub head : ℕ
    pub node : OrderNode
    pub below : j < null_idx
    pub allocated :
        (s : List OrderNode) × (allocate_slot k ≡ ok (j, record k { orders = s; free_head = head }))
        × (change j (λ m. record m { order = some o }) s ≡ ok slots)
    pub here : get_elem? slots j ≡ some node
    pub stored : node.order ≡ some o
    pub framed : (xs : List Node) → All (λ x. j ≢ x.cell) xs → IsFramed k.orders slots xs
    pub chain : IsChain slots head js

  placed : Placed
  unfolding allocate_slot
  placed =
      let (e, b, m, g, w) = v.free.linked in
      let cleared : OrderNode = record m {
        next = null_idx;
        prev = null_idx;
        next_free = null_idx;
      } in
      let filled : OrderNode = record cleared { order = some o } in
      let s = set k.orders j cleared in
      let at = get_elem-set_same k.orders j m cleared g in
      record {
        slots = set s j filled;
        head = m.next_free;
        node = filled;
        below = b;
        allocated = (s, rw (e, ==_ne j null_idx (omega arith), allocate_slot, g) refl, rw at refl);
        here = get_elem-set_same s j cleared filled at;
        stored = refl;
        framed = λ xs a prev i tail r.
            IsLinked-set s j filled prev i xs tail a
              (IsLinked-set k.orders j cleared prev i xs tail a r);
        chain =
            IsChain-set s j m.next_free filled js v.free.apart.0
              (IsChain-set k.orders j m.next_free cleared js v.free.apart.0 w);
      }

  kept-IsLevels :
      (b : Bool) (m : Ladder PoolLimitLevel) (ms : Ladder OrderList)
      → IsLevels k.orders m ms
      → All (IsIndexed b ix) (flat ms)
      → IsLevels placed.slots m ms
  kept-IsLevels b m ms r a =
      IsLevels-framed k.orders placed.slots m ms
        (all_levels k.orders placed.slots (λ x. j ≢ x.cell) ms placed.framed
          (unused-apart b ix j (flat ms) v.unused.0 a))
        r

  appended :
      (b : Bool) (m : Ladder PoolLimitLevel) (ms : Ladder OrderList)
      → IsLevels k.orders m ms
      → IsLadder b ms
      → All (IsIndexed b ix) (flat ms)
      → Appended placed.slots b m ms (IsIndexed b ix) n
  appended b m ms r l a =
      append_to_level-Appended placed.slots b m ms (IsIndexed b ix) n placed.node
        (kept-IsLevels b m ms r a) l (unused-apart b ix j (flat ms) v.unused.0 a) placed.below
        placed.here placed.stored a

  grown_cells :
      (l : Location)
      → l.iterator ≡ j
      → (id : ℕ)
      → (Index.insert o.id j k.order_lookup).find id ≡ cell_of ((Index.insert o.id l ix).find id)
  grown_cells l e id =
      find-insert o.id id j k.order_lookup
      ∙ ground (arith, v.same_cells id, find-insert o.id id l ix, e)

  grown_size :
      (l : Location) → (Index.insert o.id j k.order_lookup).size ≡ (Index.insert o.id l ix).size
  grown_size l =
      size-insert o.id j k.order_lookup h
      ∙ ap (λ (s : ℕ). s + 1) v.same_size
      ∙ sym (size-insert o.id l ix absent)

  no_bid : holds o.id (orders (flat bids)) ≡ false
  no_bid = holds_of_none true o.id (flat bids) ix absent v.lookup.bids.indexed

  no_ask : holds o.id (orders (flat asks)) ≡ false
  no_ask = holds_of_none false o.id (flat asks) ix absent v.lookup.asks.indexed

  a1 : Appended placed.slots true k.bids bids (IsIndexed true ix) n
  a1 = appended true k.bids bids v.bid_levels v.bid_ladder v.lookup.bids.indexed

  -- The book after a bid.
  abbrev with_bid : PoolBook
  with_bid = record {
    orders = a1.slots;
    free_head = placed.head;
    order_lookup = Index.insert o.id j k.order_lookup;
    bids = a1.ladder;
    asks = k.asks;
  }

  bid_lookup :
      Indexed
        (insert_node true n (flat bids))
        (flat asks)
        (Index.insert o.id (place true n) ix)
        null_idx
  bid_lookup = record {
    bids = insert-Half true n (flat bids) ix absent v.lookup.bids;
    asks =
        insert-Half_other false o.id (place true n) (flat asks) ix absent (λ e. cc) v.lookup.asks;
    cells = insert-Cells_unused o.id (place true n) ix placed.below v.unused.0 v.lookup.cells;
    counted = ground (
      arith,
      v.lookup.counted,
      size-insert o.id (place true n) ix absent,
      length-insert_node true n (flat bids),
    );
  }

  with_bid-IsPool :
      IsPool with_bid
        (Ladder.update true o.price [] (push_back n) bids)
        asks
        (Index.insert o.id (place true n) ix)
        js
  with_bid-IsPool = record {
    bid_levels = a1.levels;
    ask_levels =
        other-IsLevels placed.slots a1.slots o.price true false ix n a1.written (λ e. cc) k.asks
          asks (kept-IsLevels false k.asks asks v.ask_levels v.lookup.asks.indexed)
          v.lookup.asks.indexed
          (unused-apart false ix j (flat asks) v.unused.0 v.lookup.asks.indexed);
    bid_ladder = update-push_back-IsLadder true n bids v.bid_ladder;
    ask_ladder = v.ask_ladder;
    lookup = rw (flat-update-push_back true n bids v.bid_ladder) bid_lookup;
    same_cells = grown_cells (place true n) refl;
    same_size = grown_size (place true n);
    free = record {
      linked =
          free-IsChain placed.slots a1.slots o.price true false ix n a1.written (λ e. cc)
            placed.head js v.free.apart.0 v.unused.1 placed.chain;
      apart = v.free.apart.1;
    };
    unused = insert-IsUnused o.id (place true n) ix js v.free.apart.0 v.unused.1;
  }

  add_bid : is_buy o.side ≡ true → add_order o k ≡ ok with_bid
  unfolding add_order Index.insert
  add_bid e =
      let (s, f, g) = placed.allocated in
      rw (h, add_order, f, g, e, a1.returns)
        (ap
          (λ (x : ℕ). ok (record with_bid {
            order_lookup = record (Index.insert o.id j k.order_lookup) { size = x };
          }))
          (size-insert o.id j k.order_lookup h))

  a2 : Appended placed.slots false k.asks asks (IsIndexed false ix) n
  a2 = appended false k.asks asks v.ask_levels v.ask_ladder v.lookup.asks.indexed

  -- The book after an ask.
  abbrev with_ask : PoolBook
  with_ask = record {
    orders = a2.slots;
    free_head = placed.head;
    order_lookup = Index.insert o.id j k.order_lookup;
    bids = k.bids;
    asks = a2.ladder;
  }

  ask_lookup :
      Indexed
        (flat bids)
        (insert_node false n (flat asks))
        (Index.insert o.id (place false n) ix)
        null_idx
  ask_lookup = record {
    bids =
        insert-Half_other true o.id (place false n) (flat bids) ix absent (λ e. cc) v.lookup.bids;
    asks = insert-Half false n (flat asks) ix absent v.lookup.asks;
    cells = insert-Cells_unused o.id (place false n) ix placed.below v.unused.0 v.lookup.cells;
    counted = ground (
      arith,
      v.lookup.counted,
      size-insert o.id (place false n) ix absent,
      length-insert_node false n (flat asks),
    );
  }

  with_ask-IsPool :
      IsPool with_ask bids
        (Ladder.update false o.price [] (push_back n) asks)
        (Index.insert o.id (place false n) ix)
        js
  with_ask-IsPool = record {
    bid_levels =
        other-IsLevels placed.slots a2.slots o.price false true ix n a2.written (λ e. cc) k.bids
          bids (kept-IsLevels true k.bids bids v.bid_levels v.lookup.bids.indexed)
          v.lookup.bids.indexed
          (unused-apart true ix j (flat bids) v.unused.0 v.lookup.bids.indexed);
    ask_levels = a2.levels;
    bid_ladder = v.bid_ladder;
    ask_ladder = update-push_back-IsLadder false n asks v.ask_ladder;
    lookup = rw (flat-update-push_back false n asks v.ask_ladder) ask_lookup;
    same_cells = grown_cells (place false n) refl;
    same_size = grown_size (place false n);
    free = record {
      linked =
          free-IsChain placed.slots a2.slots o.price false true ix n a2.written (λ e. cc)
            placed.head js v.free.apart.0 v.unused.1 placed.chain;
      apart = v.free.apart.1;
    };
    unused = insert-IsUnused o.id (place false n) ix js v.free.apart.0 v.unused.1;
  }

  add_ask : is_buy o.side ≡ false → add_order o k ≡ ok with_ask
  unfolding add_order Index.insert
  add_ask e =
      let (s, f, g) = placed.allocated in
      rw (h, add_order, f, g, e, a2.returns)
        (ap
          (λ (x : ℕ). ok (record with_ask {
            order_lookup = record (Index.insert o.id j k.order_lookup) { size = x };
          }))
          (size-insert o.id j k.order_lookup h))

  -- The book that `addOrder` returns.
  pub add_new :
      (r : ℕ)
      → length js ≡ r
      → (k' : PoolBook) × (add_order o k ≡ ok k')
        × Stands k'
            (Contract.add o (record { bids = orders (flat bids); asks = orders (flat asks) }))
            r
  unfolding Contract.add
  add_new r e = elim (Bool-cases (is_buy o.side)) [
    | inl f ↦ (
      with_bid,
      add_bid f,
      record {
        bids = Ladder.update true o.price [] (push_back n) bids;
        asks = asks;
        lookup = Index.insert o.id (place true n) ix;
        slots = js;
        is_pool = with_bid-IsPool;
        seen =
            rw (no_bid, no_ask, f)
              (Book_path _ _ _ _
                (ap orders (flat-update-push_back true n bids v.bid_ladder)
                  ∙ orders-insert_node true n (flat bids))
                refl);
        has_room = e;
      },
    )
    | inr f ↦ (
      with_ask,
      add_ask f,
      record {
        bids = bids;
        asks = Ladder.update false o.price [] (push_back n) asks;
        lookup = Index.insert o.id (place false n) ix;
        slots = js;
        is_pool = with_ask-IsPool;
        seen =
            rw (no_bid, no_ask, f)
              (Book_path _ _ _ _ refl (
                ap orders (flat-update-push_back false n asks v.ask_ladder)
                ∙ orders-insert_node false n (flat asks)));
        has_room = e;
      },
    )
  ]
