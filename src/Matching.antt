-- ===== src/Matching.antt =====
-- The matching loops of `MapOrderBook::match` and `VectorOrderBook::match`: over the two best levels,
-- and inside them over the orders at their fronts.
pub mod Indexed
pub mod Fills
pub mod Front
pub mod Levels
use hft_orderbook_benchmark.Common.{
  ℕ, zero, suc, ◌+◌, ◌-◌, Bool, List, [], ◌∷◌, ◌++◌, if◌then◌else◌, ltb, ◌==◌, length, min_of,
}
use hft_orderbook_benchmark.Core.{Trade}
use hft_orderbook_benchmark.Containers.OrderList.{Node, OrderList}
use hft_orderbook_benchmark.Containers.Ladder.{Ladder}
use hft_orderbook_benchmark.Containers.Index
use hft_orderbook_benchmark.Containers.Index.{Index}

-- `OrderLocation`.
pub record Location : Type 0 where
  pub is_buy : Bool
  pub price : ℕ
  pub iterator : ℕ

-- Where a round of matching stands: the two lists (of orders or of levels), the lookup, the trades.
pub record Round (A : Type 0) : Type 0 where
  pub bids : List A
  pub asks : List A
  pub order_lookup : Index Location
  pub trades : List Trade

abbrev pub traded_before : {A : Type 0} → List Trade → Round A → Round A
traded_before ts r = record r { trades = ts ++ r.trades }

abbrev pub less : ℕ → Node → Node
less q n = record n { order = record (n.order) { quantity = n.order.quantity - q } }

-- `if (order.quantity == 0) { orderLookup_.erase(order.id); list.pop_front(); }`
abbrev pub pop_filled : Node → OrderList → OrderList
pop_filled n ns = if n.order.quantity == 0 then ns else n ∷ ns

abbrev pub forget_filled : Node → Index Location → Index Location
forget_filled n ix = if n.order.quantity == 0 then Index.erase n.order.id ix else ix

-- The inner loop. Each round takes an order off a list, so the fuel `length bids + length asks` is
-- never used up.
unfoldable pub match_front : ℕ → OrderList → OrderList → Index Location → Round Node
unfolding Index.erase
match_front zero xs ys ix = record { bids = xs; asks = ys; order_lookup = ix; trades = [] }
match_front (suc f) [] ys ix = record { bids = []; asks = ys; order_lookup = ix; trades = [] }
match_front (suc f) (b ∷ xs) [] ix = record {
  bids = b ∷ xs;
  asks = [];
  order_lookup = ix;
  trades = [];
}
match_front (suc f) (b ∷ xs) (a ∷ ys) ix =
    let q = min_of b.order.quantity a.order.quantity in
    traded_before
      (record {
        buy_order_id = b.order.id;
        sell_order_id = a.order.id;
        price = a.order.price;
        quantity = q;
      }
        ∷ [])
      (match_front f (pop_filled (less q b) xs) (pop_filled (less q a) ys)
        (forget_filled (less q a) (forget_filled (less q b) ix)))

-- `if (list.empty()) ladder.erase(ladder.begin());`
abbrev pub keep_level : ℕ → OrderList → Ladder OrderList → Ladder OrderList
keep_level p [] m = m
keep_level p (n ∷ ns) m = (p, n ∷ ns) ∷ m

-- The outer loop. Each round takes a level off a side, so the fuel is never used up.
unfoldable pub match_levels :
    ℕ → Ladder OrderList → Ladder OrderList → Index Location → Round (ℕ × OrderList)
unfolding match_front
match_levels zero xs ys ix = record { bids = xs; asks = ys; order_lookup = ix; trades = [] }
match_levels (suc f) [] ys ix = record { bids = []; asks = ys; order_lookup = ix; trades = [] }
match_levels (suc f) (x ∷ xs) [] ix = record {
  bids = x ∷ xs;
  asks = [];
  order_lookup = ix;
  trades = [];
}
match_levels (suc f) ((p, bs) ∷ xs) ((q, ks) ∷ ys) ix =
    let r = match_front (length bs + length ks) bs ks ix in
    let rest =
      traded_before r.trades
        (match_levels f (keep_level p r.bids xs) (keep_level q r.asks ys) r.order_lookup) in
    if ltb p q
    then record { bids = (p, bs) ∷ xs; asks = (q, ks) ∷ ys; order_lookup = ix; trades = [] }
    else rest
