-- ===== src/VectorBook/Tests.antt =====
-- A fresh vector book, and the theorems at it.
use mathlib.Core.Option
use hft_orderbook_benchmark.Common.{◌≡◌, some}
use hft_orderbook_benchmark.Samples.{session}
use hft_orderbook_benchmark.MapBook
use hft_orderbook_benchmark.MapBook.Refine
use hft_orderbook_benchmark.MapBook.View.{IsValid}
use hft_orderbook_benchmark.MapBook.Refine.{empty-IsValid}
use hft_orderbook_benchmark.VectorBook.{empty}
use hft_orderbook_benchmark.VectorBook.Equivalence.{to_map, as_map, run, run-eq}

empty_map-IsValid : IsValid (to_map empty)
unfolding empty MapBook.empty
empty_map-IsValid = empty-IsValid

run-eq_example :
    Option.map as_map (run session empty) ≡ some (MapBook.Refine.run session (to_map empty))
run-eq_example = run-eq session empty empty_map-IsValid
