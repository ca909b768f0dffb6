-- ===== src/VectorBook/Equivalence.antt =====
-- The vector book behaves as the map book does, and never uses an end iterator as a level.
use mathlib.Core.Option
use mathlib.Core.Option.{map-eq-some_iff}
use hft_orderbook_benchmark.Common.{
  ℕ, ◌≡◌, refl, sym, subst, true, false, List, [], ◌∷◌, ◌++◌, Option, some, ◌==◌, Bool-cases,
  Option-cases, inl, inr,
}
use hft_orderbook_benchmark.Core.{Order, Trade, is_buy}
use hft_orderbook_benchmark.Contract.Runs.{Op, add, cancel, modify, match}
use hft_orderbook_benchmark.MapBook
use hft_orderbook_benchmark.MapBook.{MapBook}
use hft_orderbook_benchmark.MapBook.View.{IsValid}
use hft_orderbook_benchmark.MapBook.Add.{add_order-Refines}
use hft_orderbook_benchmark.MapBook.Cancel.{cancel_order-Refines, modify_order-Refines}
use hft_orderbook_benchmark.MapBook.Iterators.{lookup_points}
use hft_orderbook_benchmark.MapBook.Refine.{match_orders-Refines, empty-IsValid}
use hft_orderbook_benchmark.VectorBook.{
  VectorBook, add_order, cancel_order, modify_order, match_orders,
}
use hft_orderbook_benchmark.VectorBook.Levels.{push-eq-update, erase_order-eq, write_quantity_lem}

-- The map book with the same levels, lookup and cells.
abbrev pub to_map : VectorBook → MapBook
to_map k = record {
  bids = k.bids;
  asks = k.asks;
  order_lookup = k.order_lookup;
  next_cell = k.next_cell;
}

module _ (k : VectorBook) where
  pub add_order-eq : (o : Order) → to_map (add_order o k) ≡ MapBook.add_order o (to_map k)
  unfolding add_order MapBook.add_order
  add_order-eq o = elim (Option-cases (k.order_lookup.find o.id)) [
    | inr (l, h) ↦ rw (h, add_order, MapBook.add_order)
    | inl h ↦ elim (Bool-cases (is_buy o.side)) [
      | inl e ↦ rw (h, add_order, MapBook.add_order, e, push-eq-update)
      | inr e ↦ rw (h, add_order, MapBook.add_order, e, push-eq-update)
    ]
  ]

  module _ (v : IsValid (to_map k)) where
    pub cancel_order-eq :
        (id : ℕ) → Option.map to_map (cancel_order id k) ≡ some (MapBook.cancel_order id (to_map k))
    unfolding cancel_order MapBook.cancel_order
    cancel_order-eq id = elim (Option-cases (k.order_lookup.find id)) [
      | inl h ↦ rw (h, cancel_order, MapBook.cancel_order)
      | inr (l, h) ↦ elim (Bool-cases l.is_buy) [
        | inl e ↦
            let (ns, f, o) = lookup_points (to_map k) id l v h in
            rw (
              h,
              cancel_order,
              MapBook.cancel_order,
              e,
              erase_order-eq true l.price l.iterator k.bids ns v.bid_ladder (rw e at f),
            )
        | inr e ↦
            let (ns, f, o) = lookup_points (to_map k) id l v h in
            rw (
              h,
              cancel_order,
              MapBook.cancel_order,
              e,
              erase_order-eq false l.price l.iterator k.asks ns v.ask_ladder (rw e at f),
            )
      ]
    ]

    pub modify_order-eq :
        (id q : ℕ)
        → Option.map to_map (modify_order id q k) ≡ some (MapBook.modify_order id q (to_map k))
    unfolding modify_order MapBook.modify_order
    modify_order-eq id q = elim (Option-cases (k.order_lookup.find id)) [
      | inl h ↦ rw (h, modify_order, MapBook.modify_order)
      | inr (l, h) ↦ elim (Bool-cases (q == 0)) [
        | inl z ↦ rw (h, modify_order, MapBook.modify_order, z) (cancel_order-eq id)
        | inr z ↦ elim (Bool-cases l.is_buy) [
          | inl e ↦ rw (h, modify_order, MapBook.modify_order, z, e, write_quantity_lem)
          | inr e ↦ rw (h, modify_order, MapBook.modify_order, z, e, write_quantity_lem)
        ]
      ]
    ]

  pub match_orders-eq :
      ((match_orders k).0 ≡ (MapBook.match_orders (to_map k)).0)
      × (to_map (match_orders k).1 ≡ (MapBook.match_orders (to_map k)).1)
  unfolding match_orders MapBook.match_orders
  match_orders-eq = (refl, refl)

-- Trades in front of those of later calls, and an outcome read as one of the map book.
abbrev pub preceded : List Trade → List Trade × VectorBook → List Trade × VectorBook
preceded ts r = (ts ++ r.0, r.1)

abbrev pub as_map : List Trade × VectorBook → List Trade × MapBook
as_map r = (r.0, to_map r.1)

-- A client's calls in order: the trades of all matches, and the book after them.
unfoldable pub run : List Op → VectorBook → Option (List Trade × VectorBook)
unfolding add_order cancel_order modify_order match_orders
run [] k = some ([], k)
run (add o ∷ ops) k = run ops (add_order o k)
run (cancel id ∷ ops) k = Option.bind (cancel_order id k) (λ k'. run ops k')
run (modify id q ∷ ops) k = Option.bind (modify_order id q k) (λ k'. run ops k')
run (match ∷ ops) k = let (ts, k') = match_orders k in Option.map (preceded ts) (run ops k')

-- The trades of a match in front of those of the calls after it.
match_rest :
    (ts : List Trade) (ops : List Op) (k : VectorBook)
    → Option.map as_map (run ops k) ≡ some (MapBook.Refine.run ops (to_map k))
    → Option.map as_map (Option.map (preceded ts) (run ops k))
      ≡ some (ts ++ (MapBook.Refine.run ops (to_map k)).0, (MapBook.Refine.run ops (to_map k)).1)
match_rest ts ops k h = let (r, e, f) = (map-eq-some_iff as_map (run ops k)).0 h in rw (e, ← f)

-- From a book whose levels and lookup are in order, any sequence of calls uses no end iterator as a
-- level, and gives the trades, levels, lookup and cells that the map book gives.
pub run-eq :
    (ops : List Op) (k : VectorBook)
    → IsValid (to_map k)
    → Option.map as_map (run ops k) ≡ some (MapBook.Refine.run ops (to_map k))
unfolding run MapBook.Refine.run Option.bind
run-eq [] k v = refl
run-eq (add o ∷ ops) k v = rw (← add_order-eq k o) (
    run-eq ops (add_order o k)
      (subst IsValid (sym (add_order-eq k o)) (add_order-Refines (to_map k) v o).valid))
run-eq (cancel id ∷ ops) k v =
    let (k', e, f) = (map-eq-some_iff to_map (cancel_order id k)).0 (cancel_order-eq k v id) in
    rw (e, ← f) (run-eq ops k' (subst IsValid (sym f) (cancel_order-Refines (to_map k) v id).valid))
run-eq (modify id q ∷ ops) k v =
    let (k', e, f) = (map-eq-some_iff to_map (modify_order id q k)).0 (modify_order-eq k v id q) in
    rw (e, ← f)
      (run-eq ops k' (subst IsValid (sym f) (modify_order-Refines (to_map k) v id q).valid))
run-eq (match ∷ ops) k v =
    let k' = (match_orders k).1 in
    let w = subst IsValid (sym (match_orders-eq k).1) (match_orders-Refines (to_map k) v).0 in
    rw (
      match_rest (match_orders k).0 ops k' (run-eq ops k' w),
      (match_orders-eq k).0,
      (match_orders-eq k).1,
    )
