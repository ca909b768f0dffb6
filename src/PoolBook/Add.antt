-- ===== src/PoolBook/Add.antt =====
-- `PoolOrderBook::addOrder` against the contract.
use hft_orderbook_benchmark.Common.{
  ℕ, ◌+◌, ◌≡◌, inl, inr, refl, sym, ◌∙◌, true, false, ◌||◌, subst, List, [], ◌∷◌, Option, none,
  some, arith, length, Option-cases,
}
use hft_orderbook_benchmark.Core.{Order}
use hft_orderbook_benchmark.Containers.OrderList.{OrderList}
use hft_orderbook_benchmark.Containers.Ladder.{Ladder}
use hft_orderbook_benchmark.Containers.Index.{Index}
use hft_orderbook_benchmark.Contract
use hft_orderbook_benchmark.Contract.{Book, holds}
use hft_orderbook_benchmark.Resting.{orders, flat}
use hft_orderbook_benchmark.MapBook.View.{known}
use hft_orderbook_benchmark.Matching.{Location}
use hft_orderbook_benchmark.Matching.Indexed.{Indexed}
use hft_orderbook_benchmark.Matching.Indexed.Sides.{holds_of_none}
use hft_orderbook_benchmark.PoolBook.{PoolBook, ok, out_of_memory, null_idx, add_order}
use hft_orderbook_benchmark.PoolBook.Slots.{IsFree, allocate_slot-empty}
use hft_orderbook_benchmark.PoolBook.View.{cell_of, IsPool, Stands}
use hft_orderbook_benchmark.PoolBook.Entries.{none_of_cell}
use hft_orderbook_benchmark.PoolBook.Placing.{add_new}

-- What `addOrder` comes to on a book that stands for `c`.
pub data Adds (o : Order) (k : PoolBook) (c : Book) (room : ℕ) : Type 0 where
  refuses : (holds o.id c.bids || holds o.id c.asks) ≡ true → add_order o k ≡ ok k → Adds o k c room
  takes :
      (k' : PoolBook) (r : ℕ)
      → (holds o.id c.bids || holds o.id c.asks) ≡ false
      → room ≡ r + 1
      → add_order o k ≡ ok k'
      → Stands k' (Contract.add o c) r
      → Adds o k c room
  throws :
      (holds o.id c.bids || holds o.id c.asks) ≡ false
      → room ≡ 0
      → add_order o k ≡ out_of_memory
      → Adds o k c room

add_refused :
    (o : Order) (k : PoolBook) (i : ℕ) → k.order_lookup.find o.id ≡ some i → add_order o k ≡ ok k
unfolding add_order
add_refused o k i h = rw (h, add_order) refl

add_full :
    (o : Order) (k : PoolBook)
    → k.order_lookup.find o.id ≡ none
    → IsFree k []
    → add_order o k ≡ out_of_memory
unfolding add_order
add_full o k h f = rw (h, add_order, allocate_slot-empty k f) refl

unknown :
    (id : ℕ) (bids asks : Ladder OrderList) (ix : Index Location)
    → Indexed (flat bids) (flat asks) ix null_idx
    → ix.find id ≡ none
    → (holds id (orders (flat bids)) || holds id (orders (flat asks))) ≡ false
unknown id bids asks ix v h =
    rw
      (
        holds_of_none true id (flat bids) ix h v.bids.indexed,
        holds_of_none false id (flat asks) ix h v.asks.indexed,
      )
      refl

pub some_of_cell :
    (o : Option Location) (i : ℕ) → cell_of o ≡ some i → (l : Location) × (o ≡ some l)
some_of_cell none i h = absurd (cc)
some_of_cell (some l) i h = (l, refl)

pool-Adds_new :
    (k : PoolBook) (bids asks : Ladder OrderList) (ix : Index Location) (js : List ℕ) (room : ℕ)
    → IsPool k bids asks ix js
    → length js ≡ room
    → (o : Order) → k.order_lookup.find o.id ≡ none
    → Adds o k (record { bids = orders (flat bids); asks = orders (flat asks) }) room
pool-Adds_new k bids asks ix [] room v e o h =
    let g = none_of_cell (ix.find o.id) (sym (v.same_cells o.id) ∙ h) in
    throws (unknown o.id bids asks ix v.lookup g) (sym e) (add_full o k h v.free)
pool-Adds_new k bids asks ix (j ∷ js) room v e o h =
    let g = none_of_cell (ix.find o.id) (sym (v.same_cells o.id) ∙ h) in
    let (k', f, s) = add_new k bids asks ix j js v o h (length js) refl in
    takes k' (length js) (unknown o.id bids asks ix v.lookup g) (omega (arith, e)) f s

pool-Adds :
    (k : PoolBook) (bids asks : Ladder OrderList) (ix : Index Location) (js : List ℕ) (room : ℕ)
    → IsPool k bids asks ix js
    → length js ≡ room
    → (o : Order) → Adds o k (record { bids = orders (flat bids); asks = orders (flat asks) }) room
pool-Adds k bids asks ix js room v e o = elim (Option-cases (k.order_lookup.find o.id)) [
  | inr (i, h) ↦
      let (l, g) = some_of_cell (ix.find o.id) i (sym (v.same_cells o.id) ∙ h) in
      refuses (known o.id l v.lookup g) (add_refused o k i h)
  | inl h ↦ pool-Adds_new k bids asks ix js room v e o h
]

-- For a pool book that stands for an abstract book and has room for a number of orders: `addOrder` changes
-- nothing for an id that rests. Any other order takes one slot, and the book then stands for what the
-- contract says; with no room left it throws.
pub add_order-Adds :
    (k : PoolBook) (c : Book) (room : ℕ) → Stands k c room → (o : Order) → Adds o k c room
add_order-Adds k c room v o =
    subst (λ (x : Book). Adds o k x room) v.seen
      (pool-Adds k v.bids v.asks v.lookup v.slots room v.is_pool v.has_room o)
