-- ===== src/HybridBook.antt =====
-- src/orderbooks/hybrid_order_book.hpp and src/orderbooks/hybrid_order_book.cpp, `HybridOrderBook`:
-- the levels of a side stand in a sorted vector while they are hot, and in a map while they are cold.
-- `none` is a use of an end iterator, which C++ leaves undefined.
pub mod Rounds
pub mod Priority
mod Tests
use mathlib.Core.Option
use hft_orderbook_benchmark.Common.{
  ℕ, zero, suc, ◌+◌, ◌-◌, Bool, true, false, not, List, [], ◌∷◌, ◌++◌, Option, none, some,
  if◌then◌else◌, ltb, leb, ◌==◌, length, is_empty, get_elem?, set, max_u64, min_of,
}
use hft_orderbook_benchmark.Core.{Order, Trade, is_buy}
use hft_orderbook_benchmark.Containers.OrderList
use hft_orderbook_benchmark.Containers.OrderList.{Node, OrderList, push_back}
use hft_orderbook_benchmark.Containers.Ladder
use hft_orderbook_benchmark.Containers.Ladder.{Ladder, before}
use hft_orderbook_benchmark.Containers.Index
use hft_orderbook_benchmark.Containers.Index.{Index}
use hft_orderbook_benchmark.Matching.{less, pop_filled, keep_level}
use hft_orderbook_benchmark.MapBook.{best_price}
use hft_orderbook_benchmark.VectorBook.{Levels, lower_bound, insert_at}
use hft_orderbook_benchmark.VectorBook

-- `OrderLocation`.
pub record HybridLocation : Type 0 where
  pub is_buy : Bool
  pub is_hot : Bool
  pub price : ℕ
  pub iterator : ℕ

abbrev pub Lookup : Type 0
Lookup = Index HybridLocation

-- One side: `hotBids_` and `coldBids_`, or `hotAsks_` and `coldAsks_`.
pub record Half : Type 0 where
  pub hot : Levels
  pub cold : Ladder OrderList

pub record HybridBook : Type 0 where
  pub bids : Half
  pub asks : Half
  pub max_hot_levels : ℕ
  pub order_lookup : Lookup
  -- The next cell that the allocator of list nodes hands out.
  pub next_cell : ℕ

-- The constructor.
unfoldable pub create : ℕ → HybridBook
unfolding Index.empty
create max_hot_levels = record {
  bids = record { hot = []; cold = [] };
  asks = record { hot = []; cold = [] };
  max_hot_levels = max_hot_levels;
  order_lookup = Index.empty;
  next_cell = 0;
}

-- `back().first` of levels that are not empty.
abbrev pub last_price : ℕ → Levels → ℕ
last_price d [] = d
last_price d ((p, ns) ∷ m) = last_price p m

-- `isCloseToSpread`, on the hot levels of a side (`true` for bids).
unfoldable pub is_close_to_spread : Bool → ℕ → ℕ → Levels → Bool
is_close_to_spread b max_hot_levels price hot =
    if is_empty hot
    then true
    else if ltb (length hot) max_hot_levels
    then true
    else before b price (last_price 0 hot)

-- The loop over the orders of a level that moves: each one's entry gets the new storage and the price.
unfoldable pub relocate : Bool → ℕ → OrderList → Lookup → Option Lookup
unfolding Index.insert
relocate h p [] ix = some ix
relocate h p (n ∷ ns) ix = elim (ix.find n.order.id) [
  | none ↦ none
  | some l ↦ relocate h p ns (Index.insert n.order.id (record l { is_hot = h; price = p }) ix)
]

-- `back()` and what `pop_back()` leaves.
abbrev pub split_last : Levels → Option (Levels × (ℕ × OrderList))
split_last [] = none
split_last (l ∷ m) = elim (split_last m) [ none ↦ some ([], l) | some (m', l') ↦ some (l ∷ m', l') ]

-- `demoteFromHot`.
unfoldable pub demote_from_hot : Bool → Half → Lookup → Option (Half × Lookup)
unfolding relocate Ladder.update
demote_from_hot b s ix = elim (split_last s.hot) [
  | none ↦ some (s, ix)
  | some (m, (p, ns)) ↦
      Option.map (λ ix'. (record { hot = m; cold = Ladder.update b p [] (λ old. ns) s.cold }, ix'))
        (relocate false p ns ix)
]

-- `if (hot.size() >= maxHotLevels_) demoteFromHot(isBuy);`
abbrev pub make_room : Bool → ℕ → Half → Lookup → Option (Half × Lookup)
make_room b max_hot_levels s ix =
    if leb max_hot_levels (length s.hot) then demote_from_hot b s ix else some (s, ix)

-- `addToHot` and `addToCold`, without the entry in the lookup.
unfoldable pub add_to_hot : Bool → Node → Half → Half
unfolding lower_bound insert_at
add_to_hot b n s = record s {
  hot = insert_at (lower_bound b n.order.price s.hot) (n.order.price, push_back n []) s.hot;
}

unfoldable pub add_to_cold : Bool → Node → Half → Half
unfolding Ladder.update
add_to_cold b n s = record s { cold = Ladder.update b n.order.price [] (push_back n) s.cold }

-- `orderLookup_[order.id] = {isBuy, isHot, order.price, iterator}`.
abbrev pub located : Bool → Bool → Node → Lookup → Lookup
located b h n ix =
    Index.insert n.order.id
      (record { is_buy = b; is_hot = h; price = n.order.price; iterator = n.cell }) ix

-- A new level: hot when it is close to the spread, for which the worst hot level may have to go.
unfoldable pub add_level : Bool → ℕ → Node → Half → Lookup → Option (Half × Lookup)
unfolding is_close_to_spread demote_from_hot add_to_hot add_to_cold Index.insert
add_level b max_hot_levels n s ix =
    if is_close_to_spread b max_hot_levels n.order.price s.hot
    then Option.map (λ r. (add_to_hot b n r.0, located b true n r.1))
        (make_room b max_hot_levels s ix)
    else some (add_to_cold b n s, located b false n ix)

-- A price that is not hot joins its cold level, or makes a new one.
abbrev pub add_not_hot : Bool → ℕ → Node → Half → Lookup → Option OrderList → Option (Half × Lookup)
add_not_hot b max_hot_levels n s ix none = add_level b max_hot_levels n s ix
add_not_hot b max_hot_levels n s ix (some ns) = some (add_to_cold b n s, located b false n ix)

-- The level where the search of the hot levels stopped takes the order if it has its price.
unfoldable pub add_at :
    Bool → ℕ → Node → Half → Lookup → ℕ → Option (ℕ × OrderList) → Option (Half × Lookup)
unfolding add_level Ladder.find
add_at b max_hot_levels n s ix i none =
    add_not_hot b max_hot_levels n s ix (Ladder.find n.order.price s.cold)
add_at b max_hot_levels n s ix i (some (q, ns)) =
    if q == n.order.price
    then some (record s { hot = set s.hot i (q, push_back n ns) }, located b true n ix)
    else add_not_hot b max_hot_levels n s ix (Ladder.find n.order.price s.cold)

unfoldable pub add_to_side : Bool → ℕ → Node → Half → Lookup → Option (Half × Lookup)
unfolding add_at lower_bound
add_to_side b max_hot_levels n s ix =
    let i = lower_bound b n.order.price s.hot in
    add_at b max_hot_levels n s ix i (get_elem? s.hot i)

-- `addOrder`.
unfoldable pub add_order : Order → HybridBook → Option HybridBook
unfolding add_to_side
add_order o k =
    let n : Node = record { cell = k.next_cell; order = o } in
    elim (k.order_lookup.find o.id) [
      | some l ↦ some k
      | none ↦
          if is_buy o.side
          then Option.map
              (λ r. record k { bids = r.0; order_lookup = r.1; next_cell = k.next_cell + 1 })
              (add_to_side true k.max_hot_levels n k.bids k.order_lookup)
          else Option.map
              (λ r. record k { asks = r.0; order_lookup = r.1; next_cell = k.next_cell + 1 })
              (add_to_side false k.max_hot_levels n k.asks k.order_lookup)
    ]

-- The iterator's node leaves a cold level, and the level goes with its last order.
unfoldable pub erase_cold : Bool → ℕ → ℕ → Ladder OrderList → Option (Ladder OrderList)
unfolding Ladder.find Ladder.erase Ladder.update OrderList.erase
erase_cold b p c m = elim (Ladder.find p m) [
  | none ↦ none
  | some ns ↦ some (
      if is_empty (OrderList.erase c ns)
      then Ladder.erase p m
      else Ladder.update b p [] (OrderList.erase c) m)
]

unfoldable pub erase_from_side : HybridLocation → Half → Option Half
unfolding erase_cold VectorBook.erase_order
erase_from_side l s =
    if l.is_hot
    then Option.map (λ m. record s { hot = m })
        (VectorBook.erase_order l.is_buy l.price l.iterator s.hot)
    else Option.map (λ m. record s { cold = m }) (erase_cold l.is_buy l.price l.iterator s.cold)

-- `cancelOrder`.
unfoldable pub cancel_order : ℕ → HybridBook → Option HybridBook
unfolding erase_from_side Index.erase
cancel_order id k = elim (k.order_lookup.find id) [
  | none ↦ some k
  | some l ↦
      if l.is_buy
      then Option.map (λ s. record k { bids = s; order_lookup = Index.erase id k.order_lookup })
          (erase_from_side l k.bids)
      else Option.map (λ s. record k { asks = s; order_lookup = Index.erase id k.order_lookup })
          (erase_from_side l k.asks)
]

-- `iterator->quantity = q`.
unfoldable pub write_to_side : HybridLocation → ℕ → Half → Half
unfolding VectorBook.write_quantity
write_to_side l q s =
    if l.is_hot
    then record s { hot = VectorBook.write_quantity l.price l.iterator q s.hot }
    else record s { cold = VectorBook.write_quantity l.price l.iterator q s.cold }

-- `modifyOrder`.
unfoldable pub modify_order : ℕ → ℕ → HybridBook → Option HybridBook
unfolding cancel_order write_to_side
modify_order id q k = elim (k.order_lookup.find id) [
  | none ↦ some k
  | some l ↦
      if q == 0
      then cancel_order id k
      else if l.is_buy
      then some (record k { bids = write_to_side l q k.bids })
      else some (record k { asks = write_to_side l q k.asks })
]

unfoldable pub get_order_count : HybridBook → ℕ
get_order_count k = k.order_lookup.size

-- The front of the hot levels, else of the cold ones.
unfoldable pub best_of_side : ℕ → Half → ℕ
unfolding best_price
best_of_side d s = if is_empty s.hot then best_price d s.cold else best_price d s.hot

unfoldable pub get_best_bid : HybridBook → ℕ
unfolding best_of_side
get_best_bid k = best_of_side 0 k.bids

unfoldable pub get_best_ask : HybridBook → ℕ
unfolding best_of_side
get_best_ask k = best_of_side max_u64 k.asks
