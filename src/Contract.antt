-- ===== src/Contract.antt =====
-- src/core/i_order_book.hpp: what an order book promises, as a book of resting orders in which each
-- side is listed in price-time priority, the order that trades next first.
pub mod Matches
pub mod Runs
pub mod Determined
use hft_orderbook_benchmark.Common.{
  ℕ, ◌+◌, ◌-◌, Bool, true, false, ◌||◌, List, [], ◌∷◌, Option, none, some, if◌then◌else◌, ltb, ◌==◌,
  min_of, max_u64, length, ◌≡◌,
}
use hft_orderbook_benchmark.Core.{Order, Trade, is_buy}
use hft_orderbook_benchmark.Containers.Ladder.{before}

pub record Book : Type 0 where
  pub bids : List Order
  pub asks : List Order

unfoldable pub holds : ℕ → List Order → Bool
holds id [] = false
holds id (o ∷ os) = o.id == id || holds id os

-- Behind every order whose price is as good or better.
unfoldable pub insert : Bool → Order → List Order → List Order
insert b o [] = o ∷ []
insert b o (m ∷ ms) = if before b o.price m.price then o ∷ m ∷ ms else m ∷ insert b o ms

unfoldable pub remove : ℕ → List Order → List Order
remove id [] = []
remove id (o ∷ os) = if o.id == id then os else o ∷ remove id os

unfoldable pub set_quantity : ℕ → ℕ → List Order → List Order
set_quantity id q [] = []
set_quantity id q (o ∷ os) =
    if o.id == id then record o { quantity = q } ∷ os else o ∷ set_quantity id q os

-- `addOrder`: an id that rests already is refused.
unfoldable pub add : Order → Book → Book
unfolding holds insert
add o k =
    if holds o.id k.bids || holds o.id k.asks
    then k
    else if is_buy o.side
    then record k { bids = insert true o k.bids }
    else record k { asks = insert false o k.asks }

-- `cancelOrder`.
unfoldable pub cancel : ℕ → Book → Book
unfolding remove
cancel id k = record { bids = remove id k.bids; asks = remove id k.asks }

-- `modifyOrder`: the quantity zero cancels; any other keeps the order's place.
unfoldable pub modify : ℕ → ℕ → Book → Book
unfolding cancel set_quantity
modify id q k =
    if q == 0
    then cancel id k
    else record { bids = set_quantity id q k.bids; asks = set_quantity id q k.asks }

-- An order after a fill of `q`, in front of those behind it; it leaves when nothing is left of it.
unfoldable pub settle : Order → ℕ → List Order → List Order
settle o q os = if o.quantity - q == 0 then os else record o { quantity = o.quantity - q } ∷ os

abbrev pub trade : Order → Order → Trade
trade b a = record {
  buy_order_id = b.id;
  sell_order_id = a.id;
  price = a.price;
  quantity = min_of b.quantity a.quantity;
}

-- One trade between the two first orders, if their prices cross.
unfoldable pub fill : List Order → List Order → Option (Trade × List Order × List Order)
unfolding settle
fill [] ys = none
fill (b ∷ xs) [] = none
fill (b ∷ xs) (a ∷ ys) =
    if ltb b.price a.price
    then none
    else some (
      trade b a,
      settle b (min_of b.quantity a.quantity) xs,
      settle a (min_of b.quantity a.quantity) ys,
    )

-- `match`: fills in turn, until the best prices no longer cross.
pub data Match : List Order → List Order → List Trade → List Order → List Order → Type 0 where
  done : {xs ys : List Order} → fill xs ys ≡ none → Match xs ys [] xs ys
  next :
      {xs ys cs ds es fs : List Order} {t : Trade} {ts : List Trade}
      → fill xs ys ≡ some (t, cs, ds)
      → Match cs ds ts es fs
      → Match xs ys (t ∷ ts) es fs

unfoldable pub best : ℕ → List Order → ℕ
best d [] = d
best d (o ∷ os) = o.price

-- `getBestBid`, `getBestAsk` and `getOrderCount`.
unfoldable pub best_bid : Book → ℕ
unfolding best
best_bid k = best 0 k.bids

unfoldable pub best_ask : Book → ℕ
unfolding best
best_ask k = best max_u64 k.asks

unfoldable pub count : Book → ℕ
count k = length k.bids + length k.asks
