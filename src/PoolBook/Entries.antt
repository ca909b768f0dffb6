-- ===== src/PoolBook/Entries.antt =====
-- src/orderbooks/pool_order_book.cpp: an entry that comes to the lookup, and the slots that are not used.
use hft_orderbook_benchmark.Common.{
  ℕ, ◌<◌, ◌≡◌, ◌≢◌, refl, List, [], ◌∷◌, Option, none, some, arith, All,
}
use hft_orderbook_benchmark.Containers.Index
use hft_orderbook_benchmark.Containers.Index.{Index, find-insert, size-insert}
use hft_orderbook_benchmark.Matching.{Location}
use hft_orderbook_benchmark.Matching.Indexed.{Cells}
use hft_orderbook_benchmark.PoolBook.{null_idx}
use hft_orderbook_benchmark.PoolBook.View.{cell_of, IsUnused}

pub insert-Cells_unused :
    (id : ℕ) (l : Location) (ix : Index Location)
    → l.iterator < null_idx
    → IsUnused ix l.iterator
    → Cells ix null_idx
    → Cells (Index.insert id l ix) null_idx
unfolding Index.insert
insert-Cells_unused id l ix h u c = record {
  fresh = λ jd k g. ground (arith, h, c.fresh jd k);
  injective = λ jd kd j k g y q. ground (arith, c.injective jd kd j k, u jd j, u kd k);
}

pub insert-IsUnused :
    (id : ℕ) (l : Location) (ix : Index Location) (js : List ℕ)
    → All (λ j. l.iterator ≢ j) js
    → All (IsUnused ix) js
    → All (IsUnused (Index.insert id l ix)) js
unfolding Index.insert
insert-IsUnused id l ix [] a u = tt
insert-IsUnused id l ix (j ∷ js) a u =
    ((λ jd k g e. ground (arith, a.0, u.0 jd k, g, e)), insert-IsUnused id l ix js a.1 u.1)

pub none_of_cell : (o : Option Location) → cell_of o ≡ none → o ≡ none
none_of_cell none h = refl
none_of_cell (some l) h = absurd (cc)
