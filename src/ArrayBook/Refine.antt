-- ===== src/ArrayBook/Refine.antt =====
-- src/orderbooks/array_order_book.cpp: the getters and sequences of calls against the contract.
use hft_orderbook_benchmark.Common.{
  ℕ, ◌^◌, ◌≤◌, ◌<◌, ◌≡◌, refl, ap, List, [], ◌∷◌, ◌++◌, Option, none, some, if◌then◌else◌, arith,
  Bool-cases, inl, inr, max_u64,
}
use hft_orderbook_benchmark.Core.{Order, Trade}
use hft_orderbook_benchmark.Contract
use hft_orderbook_benchmark.Contract.{Book}
use hft_orderbook_benchmark.Contract.Runs.{
  Op, add, cancel, modify, match, Run, stop, adds, cancels, modifies, matches,
}
use hft_orderbook_benchmark.Resting.Orders.{length-orders}
use hft_orderbook_benchmark.ArrayBook.{
  ArrayBook, ok, create, add_order, cancel_order, modify_order, is_valid_price, get_order_count,
  get_best_bid, get_best_ask,
}
use hft_orderbook_benchmark.ArrayBook.Rounds.{match_orders}
use hft_orderbook_benchmark.ArrayBook.Changes.{best_price}
use hft_orderbook_benchmark.ArrayBook.Add.{array_add-Refines}
use hft_orderbook_benchmark.ArrayBook.Cancel.{array_cancel-Refines}
use hft_orderbook_benchmark.ArrayBook.Modify.{array_modify-Refines}
use hft_orderbook_benchmark.ArrayBook.Matched.{array_match-Settled}
use hft_orderbook_benchmark.ArrayBook.View.{
  view, bid_nodes, ask_nodes, IsValid, IsSameGrid, few-IsSameGrid,
}
use hft_orderbook_benchmark.ArrayBook.New.{create-IsValid}

-- For a book that is in order, the count and the cached best prices are those of the resting orders.
pub array_getters-Refine :
    (k : ArrayBook)
    → IsValid k
    → (get_order_count k ≡ Contract.count (view k))
      × (get_best_bid k ≡ Contract.best_bid (view k))
      × (get_best_ask k ≡ Contract.best_ask (view k))
unfolding get_order_count get_best_bid get_best_ask Contract.count Contract.best_bid
    Contract.best_ask
array_getters-Refine k v = (
  omega (arith, v.lookup.counted, length-orders (bid_nodes k), length-orders (ask_nodes k)),
  best_price v.configured.tick v.bid_side 0,
  best_price v.configured.tick v.ask_side 0,
)

abbrev behind : List Trade → Option (List Trade × ArrayBook) → Option (List Trade × ArrayBook)
behind ts none = none
behind ts (some (us, k)) = some (ts ++ us, k)

-- A client's calls in order: the trades of all matches, and the book after them. `none` is the read of
-- the front of an empty list.
unfoldable pub run : List Op → ArrayBook → Option (List Trade × ArrayBook)
unfolding add_order cancel_order modify_order match_orders
run [] k = some ([], k)
run (add o ∷ ops) k = run ops (add_order o k)
run (cancel id ∷ ops) k = run ops (cancel_order id k)
run (modify id q ∷ ops) k = run ops (modify_order id q k)
run (match ∷ ops) k = elim (match_orders k) [ none ↦ none | some (ts, k') ↦ behind ts (run ops k') ]

-- The calls without the orders whose price the book does not list.
abbrev pub listed : ArrayBook → List Op → List Op
listed k [] = []
listed k (add o ∷ ops) = if is_valid_price k o.price then add o ∷ listed k ops else listed k ops
listed k (cancel id ∷ ops) = cancel id ∷ listed k ops
listed k (modify id q ∷ ops) = modify id q ∷ listed k ops
listed k (match ∷ ops) = match ∷ listed k ops

is_valid_price-IsSameGrid :
    (k k' : ArrayBook) (p : ℕ) → IsSameGrid k k' → is_valid_price k' p ≡ is_valid_price k p
unfolding is_valid_price
is_valid_price-IsSameGrid k k' p g = rw (g.0, g.1, g.2) refl

listed-IsSameGrid :
    (k k' : ArrayBook) (ops : List Op) → IsSameGrid k k' → listed k' ops ≡ listed k ops
listed-IsSameGrid k k' [] g = refl
listed-IsSameGrid k k' (add o ∷ ops) g =
    rw (is_valid_price-IsSameGrid k k' o.price g, listed-IsSameGrid k k' ops g) refl
listed-IsSameGrid k k' (cancel id ∷ ops) g = ap (◌∷◌ (cancel id)) (listed-IsSameGrid k k' ops g)
listed-IsSameGrid k k' (modify id q ∷ ops) g = ap (◌∷◌ (modify id q)) (listed-IsSameGrid k k' ops g)
listed-IsSameGrid k k' (match ∷ ops) g = ap (◌∷◌ match) (listed-IsSameGrid k k' ops g)

-- What a sequence of calls comes to: it returns, and its trades are those of the calls `ops` on `b`.
pub record Ran (b : Book) (ops : List Op) (r : Option (List Trade × ArrayBook)) : Type 0 where
  pub trades : List Trade
  pub after : ArrayBook
  pub returns : r ≡ some (trades, after)
  pub valid : IsValid after
  pub followed : Run b ops trades (view after)

-- The calls after the first, on the book that the first one leaves.
Ran-grid :
    (k k' : ArrayBook) (ops : List Op) {r : Option (List Trade × ArrayBook)}
    → IsSameGrid k k'
    → Ran (view k') (listed k' ops) r
    → Ran (view k') (listed k ops) r
Ran-grid k k' ops g r = rw (← listed-IsSameGrid k k' ops g) r

Ran-add :
    (o : Order) (ops : List Op) (b c : Book) {r : Option (List Trade × ArrayBook)}
    → b ≡ Contract.add o c
    → Ran b ops r
    → Ran c (add o ∷ ops) r
Ran-add o ops b c e r = record {
  trades = r.trades;
  after = r.after;
  returns = r.returns;
  valid = r.valid;
  followed = adds (rw (← e) r.followed);
}

Ran-cancel :
    (id : ℕ) (ops : List Op) (b c : Book) {r : Option (List Trade × ArrayBook)}
    → b ≡ Contract.cancel id c
    → Ran b ops r
    → Ran c (cancel id ∷ ops) r
Ran-cancel id ops b c e r = record {
  trades = r.trades;
  after = r.after;
  returns = r.returns;
  valid = r.valid;
  followed = cancels (rw (← e) r.followed);
}

Ran-modify :
    (id q : ℕ) (ops : List Op) (b c : Book) {r : Option (List Trade × ArrayBook)}
    → b ≡ Contract.modify id q c
    → Ran b ops r
    → Ran c (modify id q ∷ ops) r
Ran-modify id q ops b c e r = record {
  trades = r.trades;
  after = r.after;
  returns = r.returns;
  valid = r.valid;
  followed = modifies (rw (← e) r.followed);
}

kept :
    (k k' : ArrayBook)
    → IsValid k
    → IsValid k'
    → IsSameGrid k k'
    → k.num_levels ≤ 2 ^ 31
    → k'.num_levels ≤ 2 ^ 31
kept k k' v w = few-IsSameGrid k k' v.configured w.configured

-- Any sequence of calls on a book that is in order and has at most 2^31 levels.
pub array_run-Refines :
    (ops : List Op) (k : ArrayBook)
    → IsValid k
    → k.num_levels ≤ 2 ^ 31
    → Ran (view k) (listed k ops) (run ops k)
unfolding run
array_run-Refines [] k v few = record {
  trades = [];
  after = k;
  returns = refl;
  valid = v;
  followed = stop;
}
array_run-Refines (add o ∷ ops) k v few =
    let s = array_add-Refines k v o in
    let r =
      Ran-grid k (add_order o k) ops s.grid
        (array_run-Refines ops (add_order o k) s.valid (kept k _ v s.valid s.grid few)) in
    elim (Bool-cases (is_valid_price k o.price)) [
      | inl e ↦ rw e (Ran-add o (listed k ops) _ _ (rw e at s.seen) r)
      | inr e ↦ rw (e, ← (rw e at s.seen)) r
    ]
array_run-Refines (cancel id ∷ ops) k v few =
    let s = array_cancel-Refines k v few id in
    Ran-cancel id (listed k ops) _ _ s.seen (
      Ran-grid k (cancel_order id k) ops s.grid
        (array_run-Refines ops (cancel_order id k) s.valid (kept k _ v s.valid s.grid few)))
array_run-Refines (modify id q ∷ ops) k v few =
    let s = array_modify-Refines k v few id q in
    Ran-modify id q (listed k ops) _ _ s.seen (
      Ran-grid k (modify_order id q k) ops s.grid
        (array_run-Refines ops (modify_order id q k) s.valid (kept k _ v s.valid s.grid few)))
array_run-Refines (match ∷ ops) k v few =
    let m = array_match-Settled k v few in
    let r =
      Ran-grid k m.after ops m.grid
        (array_run-Refines ops m.after m.valid (kept k _ v m.valid m.grid few)) in
    record {
      trades = m.trades ++ r.trades;
      after = r.after;
      returns = rw (m.returns, run, r.returns) refl;
      valid = r.valid;
      followed = matches m.matched r.followed;
    }

-- Any sequence of calls on a book that the constructor returns with at most 2^31 levels, whose lowest
-- price is above 0 and whose highest is below the largest 64-bit number, returns and keeps the book in order; its trades and
-- resting orders are those of the same calls on the empty abstract book, without the orders whose price
-- the book does not list.
pub array_run-create :
    (lo hi tick : ℕ) (k : ArrayBook) (ops : List Op)
    → 0 < lo
    → hi < max_u64
    → create lo hi tick ≡ ok k
    → k.num_levels ≤ 2 ^ 31
    → Ran (record { bids = []; asks = [] }) (listed k ops) (run ops k)
array_run-create lo hi tick k ops h g e few =
    let c = create-IsValid lo hi tick h g e in rw c.1 at (array_run-Refines ops k c.0 few)
