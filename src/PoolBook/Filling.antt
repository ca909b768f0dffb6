-- ===== src/PoolBook/Filling.antt =====
-- src/orderbooks/pool_order_book.cpp: orders added to a new pool.
use hft_orderbook_benchmark.Common.{
  ℕ, suc, ◌<◌, ◌≤◌, ◌≡◌, refl, sym, ◌∙◌, List, [], ◌∷◌, arith, All, length, subst, true, ◌||◌,
}
use hft_orderbook_benchmark.Core.{Order}
use hft_orderbook_benchmark.Containers.Index
use hft_orderbook_benchmark.Containers.Index.{Index}
use hft_orderbook_benchmark.Contract
use hft_orderbook_benchmark.Contract.{Book, holds}
use hft_orderbook_benchmark.Matching.Indexed.{Indexed}
use hft_orderbook_benchmark.PoolBook.{
  PoolBook, Outcome, ok, ◌>>=◌, create, add_order, free_slots, null_idx,
}
use hft_orderbook_benchmark.PoolBook.Exhaustion.{create-IsFree, count_from, length-count_from}
use hft_orderbook_benchmark.PoolBook.View.{IsUnused, Stands}
use hft_orderbook_benchmark.PoolBook.Add.{refuses, takes, throws, add_order-Adds}

abbrev pub nothing : Book
nothing = record { bids = []; asks = [] }

abbrev fresh_pool : ℕ → PoolBook
fresh_pool n = record {
  orders = free_slots n 0;
  free_head = 0;
  order_lookup = Index.empty;
  bids = [];
  asks = [];
}

create_fresh : (n : ℕ) → create (suc n) ≡ ok (fresh_pool n)
unfolding create
create_fresh n = refl

nothing-Indexed : Indexed [] [] Index.empty null_idx
unfolding Index.empty
nothing-Indexed = record {
  bids = record { indexed = tt; distinct = tt; covered = λ id l h s. absurd (cc) };
  asks = record { indexed = tt; distinct = tt; covered = λ id l h s. absurd (cc) };
  cells = record { fresh = λ id l h. absurd (cc); injective = λ id jd l k h g e. absurd (cc) };
  counted = refl;
}

all_unused : (js : List ℕ) → All (IsUnused Index.empty) js
unfolding Index.empty
all_unused [] = tt
all_unused (j ∷ js) = ((λ id l h. absurd (cc)), all_unused js)

pub fresh_pool-Stands : (n : ℕ) → n < null_idx → Stands (fresh_pool n) nothing (suc n)
unfolding Index.empty
fresh_pool-Stands n h = record {
  bids = [];
  asks = [];
  lookup = Index.empty;
  slots = count_from 0 (suc n);
  is_pool = record {
    bid_levels = tt;
    ask_levels = tt;
    bid_ladder = tt;
    ask_ladder = tt;
    lookup = nothing-Indexed;
    same_cells = λ id. refl;
    same_size = refl;
    free = create-IsFree n h (create_fresh n);
    unused = all_unused (count_from 0 (suc n));
  };
  seen = refl;
  has_room = length-count_from 0 (suc n);
}

-- Calls of `addOrder` in turn, and what the contract makes of them.
unfoldable pub add_orders : List Order → PoolBook → Outcome PoolBook
unfolding add_order
add_orders [] k = ok k
add_orders (o ∷ os) k = add_order o k >>= λ k'. add_orders os k'

unfoldable pub added : List Order → Book → Book
unfolding Contract.add
added [] c = c
added (o ∷ os) c = added os (Contract.add o c)

refused_same :
    (o : Order) (c : Book) → (holds o.id c.bids || holds o.id c.asks) ≡ true → Contract.add o c ≡ c
unfolding Contract.add
refused_same o c h = rw h refl

add_orders-Stands :
    (os : List Order) (k : PoolBook) (c : Book) (room : ℕ)
    → Stands k c room
    → length os ≤ room
    → (k' : PoolBook) × (r : ℕ) × (add_orders os k ≡ ok k') × Stands k' (added os c) r
unfolding add_orders added
add_orders-Stands [] k c room v h = (k, room, refl, v)
add_orders-Stands (o ∷ os) k c room v h = elim (add_order-Adds k c room v o) [
  | refuses g e ↦
      let (k', r, f, w) = add_orders-Stands os k c room v (omega arith) in
      (k', r, rw (e, add_orders) f, rw (refused_same o c g) w)
  | takes k1 r1 g s e w1 ↦
      let (k', r, f, w) = add_orders-Stands os k1 (Contract.add o c) r1 w1 (omega (arith, h, s)) in
      (k', r, rw (e, add_orders) f, w)
  | throws g s e ↦ absurd (omega (arith, h, s))
]

-- A new pool of `n` slots, one at least and fewer than the largest index, takes any `n` orders: the calls of
-- `addOrder` return, and the book then stands for what the contract makes of them from nothing.
pub add_orders-create :
    (n : ℕ) (k : PoolBook) (os : List Order)
    → n < null_idx
    → create (suc n) ≡ ok k
    → length os ≤ suc n
    → (k' : PoolBook) × (r : ℕ) × (add_orders os k ≡ ok k') × Stands k' (added os nothing) r
add_orders-create n k os h e l =
    let same : fresh_pool n ≡ k = ground (arith, sym (create_fresh n) ∙ e) in
    subst
      (λ (x : PoolBook).
        (k' : PoolBook) × (r : ℕ) × (add_orders os x ≡ ok k') × Stands k' (added os nothing) r)
      same (add_orders-Stands os (fresh_pool n) nothing (suc n) (fresh_pool-Stands n h) l)
