-- ===== src/PoolBook/Modify.antt =====
-- `PoolOrderBook::modifyOrder` to a quantity that is not zero, against the contract.
use hft_orderbook_benchmark.Common.{
  ℕ, ◌≡◌, ◌≢◌, refl, sym, ap, ◌∙◌, Bool, true, false, List, [], ◌∷◌, none, some, ◌==◌, arith, All,
  All-imp, Bool-cases, Option-cases, eq_of_==, inl, inr, get_elem?, set, length, subst,
}
use hft_orderbook_benchmark.Containers.OrderList.{Node, OrderList}
use hft_orderbook_benchmark.Containers.Ladder.{Ladder}
use hft_orderbook_benchmark.Containers.Index.{Index}
use hft_orderbook_benchmark.Contract
use hft_orderbook_benchmark.Contract.{Book, holds}
use hft_orderbook_benchmark.Resting.{orders, flat}
use hft_orderbook_benchmark.Matching.{Location}
use hft_orderbook_benchmark.Matching.Indexed.{IsIndexed, place}
use hft_orderbook_benchmark.Matching.Indexed.Sides.{holds_of_none, holds_of_other}
use hft_orderbook_benchmark.Matching.Indexed.Removal.{orders-set_at}
use hft_orderbook_benchmark.Matching.Indexed.Absent.{set_quantity_absent}
use hft_orderbook_benchmark.Matching.Indexed.Books.{
  set_bid-Indexed, set_ask-Indexed, Marks-bids, Marks-asks,
}
use hft_orderbook_benchmark.MapBook.{write_quantity}
use hft_orderbook_benchmark.MapBook.Levels.{flat-write_quantity, write_quantity-IsLadder}
use hft_orderbook_benchmark.MapBook.View.{Book_path}
use hft_orderbook_benchmark.PoolBook.{
  OrderNode, PoolLimitLevel, PoolBook, ok, modify_order, requantified,
}
use hft_orderbook_benchmark.PoolBook.Slots.{IsChain, IsChain-set}
use hft_orderbook_benchmark.PoolBook.Links.{IsStored, IsLinked-set}
use hft_orderbook_benchmark.PoolBook.Levels.{IsLevels, IsLevels-framed}
use hft_orderbook_benchmark.PoolBook.View.{cell_of, IsUnused, IsPool, Stands}
use hft_orderbook_benchmark.PoolBook.Growing.{all_levels, other_side, IsLevels-IsStored}
use hft_orderbook_benchmark.PoolBook.Requantified.{IsLevels-write_quantity}

-- The node of an id that a side holds.
pub record NodeOf (ns : List OrderNode) (b : Bool) (ix : Index Location) (id : ℕ) : Type 0 where
  pub node : Node
  pub indexed : IsIndexed b ix node
  pub stored : IsStored ns node
  pub same_id : node.order.id ≡ id

pub holds-NodeOf :
    (ns : List OrderNode) (b : Bool) (ix : Index Location) (id : ℕ) (xs : List Node)
    → holds id (orders xs) ≡ true
    → All (IsIndexed b ix) xs
    → All (IsStored ns) xs
    → NodeOf ns b ix id
unfolding holds
holds-NodeOf ns b ix id [] h a s = absurd (cc)
holds-NodeOf ns b ix id (x ∷ xs) h a s = elim (Bool-cases (x.order.id == id)) [
  | inl e ↦ record { node = x; indexed = a.0; stored = s.0; same_id = eq_of_== x.order.id id e }
  | inr e ↦ holds-NodeOf ns b ix id xs (ground (arith, h, e)) a.1 s.1
]

-- A slot that is written keeps the levels that do not have it.
pub apart-IsLevels :
    (ns : List OrderNode) (c : ℕ) (w : OrderNode) (m : Ladder PoolLimitLevel)
    (ms : Ladder OrderList)
    → IsLevels ns m ms
    → All (λ k. c ≢ k.cell) (flat ms)
    → IsLevels (set ns c w) m ms
apart-IsLevels ns c w m ms v a =
    IsLevels-framed ns (set ns c w) m ms
      (all_levels ns (set ns c w) (λ k. c ≢ k.cell) ms
        (λ xs h prev i tail r. IsLinked-set ns c w prev i xs tail h r) a)
      v

module _ (k : PoolBook) (bids asks : Ladder OrderList) (ix : Index Location) (js : List ℕ)
    (v : IsPool k bids asks ix js) (id q : ℕ) (z : (q == 0) ≡ false) where
  node_found : (b : Bool) (t : NodeOf k.orders b ix id) → ix.find id ≡ some (place b t.node)
  node_found b t = ap ix.find (sym t.same_id) ∙ t.indexed

  returned_with :
      (b : Bool) (t : NodeOf k.orders b ix id) (w : OrderNode)
      → get_elem? k.orders t.node.cell ≡ some w
      → modify_order id q k ≡ ok (record k { orders = set k.orders t.node.cell (requantified q w) })
  unfolding modify_order
  returned_with b t w g =
      let f : k.order_lookup.find id ≡ some t.node.cell =
        v.same_cells id ∙ ap cell_of (node_found b t) in
      rw (f, modify_order, z, g) refl

  written-IsChain :
      (b : Bool) (t : NodeOf k.orders b ix id) (w : OrderNode)
      → IsChain (set k.orders t.node.cell w) k.free_head js
  written-IsChain b t w =
      IsChain-set k.orders t.node.cell k.free_head w js
        (All-imp (IsUnused ix) (λ j. t.node.cell ≢ j) js
          (λ j u e. u id (place b t.node) (node_found b t) (sym e)) v.unused)
        v.free.linked

  modified_bid :
      (t : NodeOf k.orders true ix id)
      → (r : ℕ) → length js ≡ r
      → (k' : PoolBook) × (modify_order id q k ≡ ok k')
        × Stands k'
            (Contract.modify id q (record { bids = orders (flat bids); asks = orders (flat asks) }))
            r
  unfolding Contract.modify
  modified_bid t r e =
      let n = t.node in
      let (w, g, s) = t.stored in
      let h = node_found true t in
      let w' = requantified q w in
      let others =
        other_side k.orders true false ix n (flat asks) (λ y. cc) t.stored t.indexed
          (IsLevels-IsStored k.orders k.asks asks v.ask_levels) v.lookup.asks.indexed in
      let absent =
        holds_of_other false id (flat asks) ix (place true n) h (λ y. cc) v.lookup.asks.indexed in
      (
        record k { orders = set k.orders n.cell w' },
        returned_with true t w g,
        record {
          bids = write_quantity n.order.price n.cell q bids;
          asks = asks;
          lookup = ix;
          slots = js;
          is_pool = record {
            bid_levels =
                IsLevels-write_quantity k.orders true q w n k.bids bids g t.stored v.bid_levels
                  v.bid_ladder;
            ask_levels = apart-IsLevels k.orders n.cell w' k.asks asks v.ask_levels others;
            bid_ladder = write_quantity-IsLadder true n.order.price n.cell q bids v.bid_ladder;
            ask_ladder = v.ask_ladder;
            lookup =
                rw (flat-write_quantity true n.order.price n.cell q bids v.bid_ladder)
                  (set_bid-Indexed v.lookup n.order.price n.cell q);
            same_cells = v.same_cells;
            same_size = v.same_size;
            free = record { linked = written-IsChain true t w'; apart = v.free.apart };
            unused = v.unused;
          };
          seen = rw z (
              Book_path _ _ _ _
                (ap orders (flat-write_quantity true n.order.price n.cell q bids v.bid_ladder)
                  ∙ orders-set_at id q (place true n) (flat bids)
                      (Marks-bids v.lookup id (place true n) h refl))
                (sym (set_quantity_absent id q _ absent)));
          has_room = e;
        },
      )

  modified_ask :
      (t : NodeOf k.orders false ix id)
      → (r : ℕ) → length js ≡ r
      → (k' : PoolBook) × (modify_order id q k ≡ ok k')
        × Stands k'
            (Contract.modify id q (record { bids = orders (flat bids); asks = orders (flat asks) }))
            r
  unfolding Contract.modify
  modified_ask t r e =
      let n = t.node in
      let (w, g, s) = t.stored in
      let h = node_found false t in
      let w' = requantified q w in
      let others =
        other_side k.orders false true ix n (flat bids) (λ y. cc) t.stored t.indexed
          (IsLevels-IsStored k.orders k.bids bids v.bid_levels) v.lookup.bids.indexed in
      let absent =
        holds_of_other true id (flat bids) ix (place false n) h (λ y. cc) v.lookup.bids.indexed in
      (
        record k { orders = set k.orders n.cell w' },
        returned_with false t w g,
        record {
          bids = bids;
          asks = write_quantity n.order.price n.cell q asks;
          lookup = ix;
          slots = js;
          is_pool = record {
            bid_levels = apart-IsLevels k.orders n.cell w' k.bids bids v.bid_levels others;
            ask_levels =
                IsLevels-write_quantity k.orders false q w n k.asks asks g t.stored v.ask_levels
                  v.ask_ladder;
            bid_ladder = v.bid_ladder;
            ask_ladder = write_quantity-IsLadder false n.order.price n.cell q asks v.ask_ladder;
            lookup =
                rw (flat-write_quantity false n.order.price n.cell q asks v.ask_ladder)
                  (set_ask-Indexed v.lookup n.order.price n.cell q);
            same_cells = v.same_cells;
            same_size = v.same_size;
            free = record { linked = written-IsChain false t w'; apart = v.free.apart };
            unused = v.unused;
          };
          seen = rw z (
              Book_path _ _ _ _ (sym (set_quantity_absent id q _ absent)) (
                ap orders (flat-write_quantity false n.order.price n.cell q asks v.ask_ladder)
                ∙ orders-set_at id q (place false n) (flat asks)
                    (Marks-asks v.lookup id (place false n) h refl)));
          has_room = e;
        },
      )

  returned_same : k.order_lookup.find id ≡ none → modify_order id q k ≡ ok k
  unfolding modify_order
  returned_same h = rw (h, modify_order) refl

  pool_modified :
      (r : ℕ)
      → length js ≡ r
      → (k' : PoolBook) × (modify_order id q k ≡ ok k')
        × Stands k'
            (Contract.modify id q (record { bids = orders (flat bids); asks = orders (flat asks) }))
            r
  unfolding Contract.modify
  pool_modified r e = elim (Option-cases (ix.find id)) [
    | inl h ↦
        let f : k.order_lookup.find id ≡ none = v.same_cells id ∙ ap cell_of h in
        (
          k,
          returned_same f,
          record {
            bids = bids;
            asks = asks;
            lookup = ix;
            slots = js;
            is_pool = v;
            seen = rw z (
                Book_path _ _ _ _
                  (sym (
                    set_quantity_absent id q _
                      (holds_of_none true id (flat bids) ix h v.lookup.bids.indexed)))
                  (sym (
                    set_quantity_absent id q _
                      (holds_of_none false id (flat asks) ix h v.lookup.asks.indexed))));
            has_room = e;
          },
        )
    | inr (l, h) ↦ elim (Bool-cases l.is_buy) [
      | inl b ↦
          modified_bid
            (holds-NodeOf k.orders true ix id (flat bids) (v.lookup.bids.covered id l h b)
              v.lookup.bids.indexed (IsLevels-IsStored k.orders k.bids bids v.bid_levels))
            r e
      | inr b ↦
          modified_ask
            (holds-NodeOf k.orders false ix id (flat asks) (v.lookup.asks.covered id l h b)
              v.lookup.asks.indexed (IsLevels-IsStored k.orders k.asks asks v.ask_levels))
            r e
    ]
  ]

-- For a pool book that stands for an abstract book: `modifyOrder` to a quantity other than zero returns, and
-- the book then stands for what the contract says, with as much room as before.
pub modify_order-Stands :
    (k : PoolBook) (c : Book) (room : ℕ)
    → Stands k c room
    → (id q : ℕ) → (q == 0) ≡ false
    → (k' : PoolBook) × (modify_order id q k ≡ ok k') × Stands k' (Contract.modify id q c) room
modify_order-Stands k c room v id q z =
    subst
      (λ (x : Book).
        (k' : PoolBook) × (modify_order id q k ≡ ok k') × Stands k' (Contract.modify id q x) room)
      v.seen (pool_modified k v.bids v.asks v.lookup v.slots v.is_pool id q z room v.has_room)
