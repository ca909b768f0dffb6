-- ===== src/HybridBook/Rounds.antt =====
-- src/orderbooks/hybrid_order_book.cpp: `match`, which makes the best level of a side hot when it
-- needs it.
use mathlib.Core.Option
use hft_orderbook_benchmark.Common.{
  ℕ, zero, suc, ◌+◌, Bool, true, false, not, List, [], ◌∷◌, ◌++◌, Option, none, some, if◌then◌else◌,
  ltb, ◌==◌, length, is_empty, min_of,
}
use hft_orderbook_benchmark.Core.{Trade}
use hft_orderbook_benchmark.Containers.OrderList.{Node, OrderList}
use hft_orderbook_benchmark.Containers.Ladder
use hft_orderbook_benchmark.Containers.Ladder.{Ladder}
use hft_orderbook_benchmark.Containers.Index
use hft_orderbook_benchmark.Matching.{less, pop_filled, keep_level}
use hft_orderbook_benchmark.MapBook.{best_price}
use hft_orderbook_benchmark.VectorBook.{Levels}
use hft_orderbook_benchmark.HybridBook.{
  Lookup, Half, HybridBook, relocate, make_room, demote_from_hot,
}

-- `promoteToHot`. Room is made first, in the map from which the level then goes.
unfoldable pub promote_to_hot : Bool → ℕ → ℕ → Half → Lookup → Option (Half × Lookup)
unfolding demote_from_hot relocate Ladder.find Ladder.erase
promote_to_hot b max_hot_levels p s ix = elim (Ladder.find p s.cold) [
  | none ↦ none
  | some ns ↦ Option.bind (make_room b max_hot_levels s ix) (λ r.
      Option.map (λ ix'. (record { hot = (p, ns) ∷ r.0.hot; cold = Ladder.erase p r.0.cold }, ix'))
        (relocate true p ns r.1))
]

-- The best level of a side made hot, with `false` when the side has none.
unfoldable pub best_made_hot : Bool → ℕ → Half → Lookup → Option (Bool × Half × Lookup)
unfolding promote_to_hot best_price
best_made_hot b max_hot_levels s ix =
    if not (is_empty s.hot)
    then some (true, s, ix)
    else if is_empty s.cold
    then some (false, s, ix)
    else Option.map (λ r. (true, r.0, r.1))
        (promote_to_hot b max_hot_levels (best_price 0 s.cold) s ix)

-- Where matching stands: the two lists (of orders or of levels), the lookup, the trades.
pub record HybridRound (A : Type 0) : Type 0 where
  pub bids : List A
  pub asks : List A
  pub order_lookup : Lookup
  pub trades : List Trade

abbrev forget : Node → Lookup → Lookup
forget n ix = if n.order.quantity == 0 then Index.erase n.order.id ix else ix

-- The inner loop of `match`. Each round takes an order off a list.
unfoldable pub match_fronts : ℕ → OrderList → OrderList → Lookup → HybridRound Node
unfolding Index.erase
match_fronts zero xs ys ix = record { bids = xs; asks = ys; order_lookup = ix; trades = [] }
match_fronts (suc f) [] ys ix = record { bids = []; asks = ys; order_lookup = ix; trades = [] }
match_fronts (suc f) (b ∷ xs) [] ix = record {
  bids = b ∷ xs;
  asks = [];
  order_lookup = ix;
  trades = [];
}
match_fronts (suc f) (b ∷ xs) (a ∷ ys) ix =
    let q = min_of b.order.quantity a.order.quantity in
    let r =
      match_fronts f (pop_filled (less q b) xs) (pop_filled (less q a) ys)
        (forget (less q a) (forget (less q b) ix)) in
    record r {
      trades =
          record {
            buy_order_id = b.order.id;
            sell_order_id = a.order.id;
            price = a.order.price;
            quantity = q;
          }
          ∷ r.trades;
    }

-- One round between the best hot levels: `none` when there are none or their prices do not cross.
unfoldable pub match_best : Levels → Levels → Lookup → Option (HybridRound (ℕ × OrderList))
unfolding match_fronts
match_best [] ys ix = none
match_best (x ∷ xs) [] ix = none
match_best ((p, bs) ∷ xs) ((q, ks) ∷ ys) ix =
    let r = match_fronts (length bs + length ks) bs ks ix in
    if ltb p q
    then none
    else some (record {
      bids = keep_level p r.bids xs;
      asks = keep_level q r.asks ys;
      order_lookup = r.order_lookup;
      trades = r.trades;
    })

-- The loop of `match` on the two sides and the lookup. Each round takes a level off the book.
unfoldable pub match_loop :
    ℕ → ℕ → Half → Half → Lookup → Option (List Trade × Half × Half × Lookup)
unfolding best_made_hot match_best
match_loop zero n s t ix = some ([], s, t, ix)
match_loop (suc f) n s t ix = elim (best_made_hot true n s ix) [
  | none ↦ none
  | some (false, s', ix') ↦ some ([], s', t, ix')
  | some (true, s', ix') ↦ elim (best_made_hot false n t ix') [
    | none ↦ none
    | some (false, t', ix'') ↦ some ([], s', t', ix'')
    | some (true, t', ix'') ↦ elim (match_best s'.hot t'.hot ix'') [
      | none ↦ some ([], s', t', ix'')
      | some r ↦
          Option.map (λ o. (r.trades ++ o.0, o.1, o.2, o.3))
            (match_loop f n (record s' { hot = r.bids }) (record t' { hot = r.asks })
              r.order_lookup)
    ]
  ]
]

-- The levels of a side, hot and cold.
abbrev pub level_count : Half → ℕ
level_count s = length s.hot + length s.cold

-- `match`, with a round for each level and one more to see that none is left.
unfoldable pub match_orders : HybridBook → Option (List Trade × HybridBook)
unfolding match_loop
match_orders k =
    Option.map (λ o. (o.0, record k { bids = o.1; asks = o.2; order_lookup = o.3 }))
      (match_loop (suc (level_count k.bids + level_count k.asks)) k.max_hot_levels k.bids k.asks
        k.order_lookup)
