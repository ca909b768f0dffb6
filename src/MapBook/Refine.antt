-- ===== src/MapBook/Refine.antt =====
-- The map book against the contract of an order book, all operations.
use hft_orderbook_benchmark.Common.{
  ℕ, ◌+◌, ◌<◌, ◌⊎◌, ◌≡◌, refl, sym, Bool, true, false, List, [], ◌∷◌, ◌++◌, arith, length, subst,
  max_u64,
}
use hft_orderbook_benchmark.Core.{Order, Trade}
use hft_orderbook_benchmark.Containers.OrderList.{OrderList}
use hft_orderbook_benchmark.Containers.Ladder.{Ladder}
use hft_orderbook_benchmark.Containers.Index
use hft_orderbook_benchmark.Containers.Index.{Index}
use hft_orderbook_benchmark.Contract
use hft_orderbook_benchmark.Contract.{Book, Match, holds}
use hft_orderbook_benchmark.Resting.{orders, flat, IsLadder}
use hft_orderbook_benchmark.Resting.Orders.{length-orders}
use hft_orderbook_benchmark.Matching.Levels.{match_levels-Settled}
use hft_orderbook_benchmark.MapBook.{
  MapBook, empty, add_order, cancel_order, modify_order, match_orders, get_order_count,
  get_best_bid, get_best_ask, best_price,
}
use hft_orderbook_benchmark.MapBook.View.{view, IsValid}
use hft_orderbook_benchmark.MapBook.Add.{add_order-Refines}
use hft_orderbook_benchmark.MapBook.Cancel.{cancel_order-Refines, modify_order-Refines}
use hft_orderbook_benchmark.Contract.Matches.{
  Match-deterministic, total, traded, Match-total, Match-IsUncrossed,
}
use hft_orderbook_benchmark.Contract.Runs.{
  Op, add, cancel, modify, match, Run, stop, adds, cancels, modifies, matches,
}

pub empty-IsValid : IsValid empty
unfolding empty Index.empty
empty-IsValid = record {
  bid_ladder = tt;
  ask_ladder = tt;
  lookup = record {
    bids = record { indexed = tt; distinct = tt; covered = λ id l h s. cc };
    asks = record { indexed = tt; distinct = tt; covered = λ id l h s. cc };
    cells = record { fresh = λ id l h. cc; injective = λ id jd l k h g e. cc };
    counted = refl;
  };
}

-- For a book that is in order, `match` keeps it in order, and its trades and what rests after it are a
-- complete matching of the contract: fills between the first orders until the prices do not cross.
pub match_orders-Refines :
    (k : MapBook)
    → IsValid k
    → IsValid (match_orders k).1
      × Match
          (view k).bids
          (view k).asks
          (match_orders k).0
          (view (match_orders k).1).bids
          (view (match_orders k).1).asks
unfolding match_orders
match_orders-Refines k v =
    let s =
      match_levels-Settled k.next_cell (length k.bids + length k.asks) k.bids k.asks k.order_lookup
        (omega arith) v.bid_ladder v.ask_ladder v.lookup in
    (record { bid_ladder = s.bid_ladder; ask_ladder = s.ask_ladder; lookup = s.kept }, s.matched)

best_price_lem :
    (b : Bool) (d : ℕ) (m : Ladder OrderList)
    → IsLadder b m
    → best_price d m ≡ Contract.best d (orders (flat m))
unfolding best_price Contract.best
best_price_lem b d [] v = refl
best_price_lem b d ((p, []) ∷ m) v = absurd (v.0 refl)
best_price_lem b d ((p, n ∷ ns) ∷ m) v = sym v.1.0

-- For a book that is in order, every complete matching of its resting orders by the contract has the
-- trades of `match` and leaves what rests after it.
pub match_orders-determined :
    (k : MapBook) {ts : List Trade} {us vs : List Order}
    → IsValid k
    → Match (view k).bids (view k).asks ts us vs
    → (ts ≡ (match_orders k).0)
      × (us ≡ (view (match_orders k).1).bids)
      × (vs ≡ (view (match_orders k).1).asks)
match_orders-determined k v h = Match-deterministic h (match_orders-Refines k v).1

-- For a book that is in order, the count and the best prices are those of the resting orders.
pub getters-Refine :
    (k : MapBook)
    → IsValid k
    → (get_order_count k ≡ Contract.count (view k))
      × (get_best_bid k ≡ Contract.best_bid (view k))
      × (get_best_ask k ≡ Contract.best_ask (view k))
unfolding get_order_count get_best_bid get_best_ask Contract.count Contract.best_bid
    Contract.best_ask
getters-Refine k v = (
  omega (arith, v.lookup.counted, length-orders (flat k.bids), length-orders (flat k.asks)),
  best_price_lem true 0 k.bids v.bid_ladder,
  best_price_lem false max_u64 k.asks v.ask_ladder,
)

-- A client's calls in order: the trades of all matches, and the book after them.
unfoldable pub run : List Op → MapBook → List Trade × MapBook
unfolding add_order cancel_order modify_order match_orders
run [] k = ([], k)
run (add o ∷ ops) k = run ops (add_order o k)
run (cancel id ∷ ops) k = run ops (cancel_order id k)
run (modify id q ∷ ops) k = run ops (modify_order id q k)
run (match ∷ ops) k = let (ts, k') = match_orders k in let (us, k'') = run ops k' in (ts ++ us, k'')

-- Any sequence of calls on a book that is in order refines the same calls on the abstract book.
pub run-Refines :
    (ops : List Op) (k : MapBook)
    → IsValid k
    → IsValid (run ops k).1 × Run (view k) ops (run ops k).0 (view (run ops k).1)
unfolding run
run-Refines [] k v = (v, stop)
run-Refines (add o ∷ ops) k v =
    let s = add_order-Refines k v o in
    let r = run-Refines ops (add_order o k) s.valid in
    (
      r.0,
      adds (
          subst (λ b. Run b ops (run ops (add_order o k)).0 (view (run ops (add_order o k)).1))
            s.seen r.1),
    )
run-Refines (cancel id ∷ ops) k v =
    let s = cancel_order-Refines k v id in
    let r = run-Refines ops (cancel_order id k) s.valid in
    (
      r.0,
      cancels (
          subst
            (λ b. Run b ops (run ops (cancel_order id k)).0 (view (run ops (cancel_order id k)).1))
            s.seen r.1),
    )
run-Refines (modify id q ∷ ops) k v =
    let s = modify_order-Refines k v id q in
    let r = run-Refines ops (modify_order id q k) s.valid in
    (
      r.0,
      modifies (
          subst
            (λ b.
              Run b ops (run ops (modify_order id q k)).0 (view (run ops (modify_order id q k)).1))
            s.seen r.1),
    )
run-Refines (match ∷ ops) k v =
    let s = match_orders-Refines k v in
    let r = run-Refines ops (match_orders k).1 s.0 in (r.0, matches s.1 r.1)

-- Any sequence of calls on a fresh book leaves a book that is in order, and its trades and resting
-- orders are those of the same calls on the empty abstract book.
pub run-empty-Refines :
    (ops : List Op)
    → IsValid (run ops empty).1
      × Run (record { bids = []; asks = [] }) ops (run ops empty).0 (view (run ops empty).1)
unfolding empty
run-empty-Refines ops = run-Refines ops empty empty-IsValid

-- For a book that is in order, a match takes off each side the quantity that it trades, and leaves a
-- side empty or the best bid below the best ask.
pub match_orders-settles :
    (k : MapBook)
    → IsValid k
    → let (ts, k') = match_orders k in
      (total (view k).bids ≡ traded ts + total (view k').bids)
      × (total (view k).asks ≡ traded ts + total (view k').asks)
      × (((view k').bids ≡ []) ⊎ ((view k').asks ≡ []) ⊎ (get_best_bid k' < get_best_ask k'))
unfolding Contract.best_bid Contract.best_ask
match_orders-settles k v =
    let r = match_orders-Refines k v in
    let t = Match-total r.1 in
    let g = getters-Refine (match_orders k).1 r.0 in
    (t.0, t.1, rw (g.1, g.2) (Match-IsUncrossed r.1))
