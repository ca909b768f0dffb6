-- ===== src/Matching/Indexed/Iterators.antt =====
-- The iterators of the lookup, when an entry is added to it or leaves it.
use hft_orderbook_benchmark.Common.{ℕ, ◌+◌, ◌≡◌, arith}
use hft_orderbook_benchmark.Containers.Index
use hft_orderbook_benchmark.Containers.Index.{Index}
use hft_orderbook_benchmark.Matching.{Location}
use hft_orderbook_benchmark.Matching.Indexed.{Cells}

pub insert-Cells :
    (id : ℕ) (l : Location) (ix : Index Location) (next : ℕ)
    → l.iterator ≡ next
    → Cells ix next
    → Cells (Index.insert id l ix) (next + 1)
unfolding Index.insert
insert-Cells id l ix next e c = record {
  fresh = λ jd k h. ground (arith, c.fresh jd k);
  injective = λ jd kd j k h g q. ground (arith, c.injective jd kd j k, c.fresh jd j, c.fresh kd k);
}

pub erase-Cells :
    (id : ℕ) (ix : Index Location) (next : ℕ) → Cells ix next → Cells (Index.erase id ix) next
unfolding Index.erase
erase-Cells id ix next c = record {
  fresh = λ jd k h. ground (arith, c.fresh jd k);
  injective = λ jd kd j k h g q. ground (arith, c.injective jd kd j k);
}
