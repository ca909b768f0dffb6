-- ===== src/PoolBook.antt =====
-- src/orderbooks/pool_order_book.hpp and src/orderbooks/pool_order_book.cpp, `PoolOrderBook`: the orders
-- stand in a vector of slots, each level is a doubly linked list of slots, and the slots that are not
-- used are a singly linked list.
pub mod Outcomes
pub mod Rounds
pub mod Erased
pub mod Slots
pub mod Exhaustion
pub mod Links
pub mod Levels
pub mod Append
pub mod View
pub mod Growing
pub mod Entries
pub mod Placing
pub mod Add
pub mod Filling
pub mod Requantified
pub mod Modify
mod Tests
use mathlib.Core.Option
use hft_orderbook_benchmark.Common.{
  ℕ, zero, suc, ◌+◌, ◌-◌, Bool, true, false, List, [], ◌∷◌, Option, none, some, if◌then◌else◌, ◌==◌,
  length, get_elem?, set, max_u64,
}
use hft_orderbook_benchmark.Core.{Order, is_buy}
use hft_orderbook_benchmark.Containers.Ladder
use hft_orderbook_benchmark.Containers.Ladder.{Ladder}
use hft_orderbook_benchmark.Containers.Index
use hft_orderbook_benchmark.Containers.Index.{Index}
use hft_orderbook_benchmark.MapBook.{best_price}

-- `NULL_IDX`.
abbrev pub null_idx : ℕ
null_idx = max_u64

-- A slot of the pool. `none` is an order that has only been default-initialised.
pub record OrderNode : Type 0 where
  pub order : Option Order
  pub next : ℕ
  pub prev : ℕ
  pub next_free : ℕ

pub record PoolLimitLevel : Type 0 where
  pub price : ℕ
  pub head : ℕ
  pub tail : ℕ

pub record PoolBook : Type 0 where
  pub orders : List OrderNode
  pub free_head : ℕ
  pub order_lookup : Index ℕ
  pub bids : Ladder PoolLimitLevel
  pub asks : Ladder PoolLimitLevel

-- What a call comes to: it returns, throws the `std::runtime_error` of an exhausted pool, does
-- something that C++ leaves undefined (a slot out of range, an end iterator, an order that is not
-- initialised), or has not returned after the rounds that a loop was given.
pub data Outcome {ℓ} (A : Type ℓ) : Type ℓ where
  ok : A → Outcome A
  out_of_memory : Outcome A
  undefined : Outcome A
  out_of_fuel : Outcome A

infixl 5 ◌>>=◌
abbrev pub ◌>>=◌ {ℓ κ} : {A : Type ℓ} {B : Type κ} → Outcome A → (A → Outcome B) → Outcome B
ok a >>= f = f a
out_of_memory >>= f = out_of_memory
undefined >>= f = undefined
out_of_fuel >>= f = out_of_fuel

abbrev pub defined {ℓ} : {A : Type ℓ} → Option A → Outcome A
defined none = undefined
defined (some a) = ok a

-- `orders_[i]`, and a change of it.
abbrev pub node_at : ℕ → List OrderNode → Outcome OrderNode
node_at i ns = defined (get_elem? ns i)

abbrev pub order_at : ℕ → List OrderNode → Outcome Order
order_at i ns = do n ← node_at i ns; defined n.order

abbrev pub change : ℕ → (OrderNode → OrderNode) → List OrderNode → Outcome (List OrderNode)
change i f ns = do n ← node_at i ns; ok (set ns i (f n))

abbrev pub unused : ℕ → OrderNode
unused next = record { order = none; next = null_idx; prev = null_idx; next_free = next }

-- The slots from `i` on, `n` and one more, each linked to the one behind it.
abbrev pub free_slots : ℕ → ℕ → List OrderNode
free_slots zero i = unused null_idx ∷ []
free_slots (suc n) i = unused (i + 1) ∷ free_slots n (i + 1)

-- The constructor. For `maxOrders` 0 the bound of its loop wraps around, and it writes out of range.
unfoldable pub create : ℕ → Outcome PoolBook
unfolding Index.empty
create zero = undefined
create (suc n) = ok (record {
  orders = free_slots n 0;
  free_head = 0;
  order_lookup = Index.empty;
  bids = [];
  asks = [];
})

unfoldable pub allocate_slot : PoolBook → Outcome (ℕ × PoolBook)
allocate_slot k = if k.free_head == null_idx then out_of_memory else (do
  n ← node_at k.free_head k.orders
  ns ←
      change k.free_head (λ m. record m { next = null_idx; prev = null_idx; next_free = null_idx })
        k.orders
  ok (k.free_head, record k { orders = ns; free_head = n.next_free }))

unfoldable pub free_slot : ℕ → PoolBook → Outcome PoolBook
free_slot i k = do
  ns ← change i (λ m. record m { next_free = k.free_head }) k.orders
  ok (record k { orders = ns; free_head = i })

-- The level of a price, made empty where there is none.
abbrev level_of : ℕ → Option PoolLimitLevel → PoolLimitLevel
level_of p none = record { price = p; head = null_idx; tail = null_idx }
level_of p (some l) = record l { price = p }

unfoldable pub append_to_level :
    Bool
    → Ladder PoolLimitLevel
    → ℕ
    → ℕ
    → List OrderNode
    → Outcome (Ladder PoolLimitLevel × List OrderNode)
unfolding Ladder.update Ladder.find
append_to_level b ladder i p ns =
    let l = level_of p (Ladder.find p ladder) in
    if l.head == null_idx
    then (do
      ns' ← change i (λ m. record m { prev = null_idx; next = null_idx }) ns
      ok (Ladder.update b p l (λ z. record l { head = i; tail = i }) ladder, ns'))
    else (do
      ns' ← change l.tail (λ m. record m { next = i }) ns
      ns'' ← change i (λ m. record m { prev = l.tail; next = null_idx }) ns'
      ok (Ladder.update b p l (λ z. record l { tail = i }) ladder, ns''))

-- The two links around a slot that is taken out, and the ends of its level.
abbrev link_prev : ℕ → ℕ → List OrderNode → Outcome (List OrderNode)
link_prev prev next ns =
    if prev == null_idx then ok ns else change prev (λ m. record m { next = next }) ns

abbrev link_next : ℕ → ℕ → List OrderNode → Outcome (List OrderNode)
link_next prev next ns =
    if next == null_idx then ok ns else change next (λ m. record m { prev = prev }) ns

abbrev shortened : ℕ → ℕ → PoolLimitLevel → PoolLimitLevel
shortened prev next l = record l {
  head = if prev == null_idx then next else l.head;
  tail = if next == null_idx then prev else l.tail;
}

unfoldable pub remove_from_level :
    Bool
    → Ladder PoolLimitLevel
    → ℕ
    → List OrderNode
    → Outcome (Ladder PoolLimitLevel × List OrderNode)
unfolding Ladder.update Ladder.find Ladder.erase
remove_from_level b ladder i ns = do
  n ← node_at i ns
  o ← defined n.order
  l ← defined (Ladder.find o.price ladder)
  ns' ← link_prev n.prev n.next ns
  ns'' ← link_next n.prev n.next ns'
  let l' = shortened n.prev n.next l
  ok (
    if l'.head == null_idx
        then Ladder.erase o.price ladder
        else Ladder.update b o.price l' (λ z. l') ladder,
    ns'',
  )

-- The order is written to its slot and looked up by its id, then linked to its level.
unfoldable pub add_order : Order → PoolBook → Outcome PoolBook
unfolding allocate_slot append_to_level Index.insert
add_order o k = elim (k.order_lookup.find o.id) [
  | some l ↦ ok k
  | none ↦ do
    (i, k') ← allocate_slot k
    ns ← change i (λ m. record m { order = some o }) k'.orders
    let ix = Index.insert o.id i k'.order_lookup
    (ladder, ns') ←
        append_to_level (is_buy o.side) (if is_buy o.side then k'.bids else k'.asks) i o.price ns
    ok (
        if is_buy o.side
        then record k' { orders = ns'; order_lookup = ix; bids = ladder }
        else record k' { orders = ns'; order_lookup = ix; asks = ladder })
]

-- `removeFromLevel` on the side of the order of a slot.
unfoldable pub unlink : Bool → ℕ → PoolBook → Outcome PoolBook
unfolding remove_from_level
unlink true i k = do
  (ladder, ns) ← remove_from_level true k.bids i k.orders
  ok (record k { bids = ladder; orders = ns })
unlink false i k = do
  (ladder, ns) ← remove_from_level false k.asks i k.orders
  ok (record k { asks = ladder; orders = ns })

unfoldable pub cancel_order : ℕ → PoolBook → Outcome PoolBook
unfolding unlink free_slot Index.erase
cancel_order id k = elim (k.order_lookup.find id) [
  | none ↦ ok k
  | some i ↦ do
    o ← order_at i k.orders
    k' ← unlink (is_buy o.side) i k
    free_slot i (record k' { order_lookup = Index.erase id k'.order_lookup })
]

abbrev pub requantified : ℕ → OrderNode → OrderNode
requantified q m = record m {
  order = Option.map {A = Order} (λ o. record o { quantity = q }) m.order;
}

unfoldable pub modify_order : ℕ → ℕ → PoolBook → Outcome PoolBook
unfolding cancel_order
modify_order id q k = elim (k.order_lookup.find id) [
  | none ↦ ok k
  | some i ↦
      if q == 0
      then cancel_order id k
      else (do ns ← change i (requantified q) k.orders; ok (record k { orders = ns }))
]

unfoldable pub get_order_count : PoolBook → ℕ
get_order_count k = k.order_lookup.size

unfoldable pub get_best_bid : PoolBook → ℕ
unfolding best_price
get_best_bid k = best_price 0 k.bids

unfoldable pub get_best_ask : PoolBook → ℕ
unfolding best_price
get_best_ask k = best_price max_u64 k.asks
