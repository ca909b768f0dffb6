-- ===== src/ArrayBook/Agreement.antt =====
-- src/orderbooks/array_order_book.cpp and src/orderbooks/map_order_book.cpp: the two books on the same
-- calls.
use hft_orderbook_benchmark.Common.{ℕ, ◌^◌, ◌≤◌, ◌<◌, ◌≡◌, List, Option, some, max_u64}
use hft_orderbook_benchmark.Core.{Trade}
use hft_orderbook_benchmark.Contract.Runs.{Op}
use hft_orderbook_benchmark.Contract.Determined.{Run-deterministic}
use hft_orderbook_benchmark.MapBook
use hft_orderbook_benchmark.MapBook.View
use hft_orderbook_benchmark.MapBook.Refine
use hft_orderbook_benchmark.ArrayBook.{ArrayBook, ok, create}
use hft_orderbook_benchmark.ArrayBook.View.{view}
use hft_orderbook_benchmark.ArrayBook.Refine.{run, listed, array_run-create}

-- What the map book makes of the calls, said of the outcome of another book.
pub record Agrees (k : ArrayBook) (ops : List Op) (r : Option (List Trade × ArrayBook))
    : Type 0 where
  pub after : ArrayBook
  pub returns : r ≡ some ((MapBook.Refine.run (listed k ops) MapBook.empty).0, after)
  pub seen : view after ≡ MapBook.View.view (MapBook.Refine.run (listed k ops) MapBook.empty).1

-- An array book that the constructor returns with at most 2^31 levels, whose lowest price is above 0 and
-- whose highest is below the largest 64-bit number, makes the trades of a new map book on the same calls, and leaves the same
-- orders, when the map book does not get the orders whose price the array book does not list.
pub array_run-Agrees :
    (lo hi tick : ℕ) (k : ArrayBook) (ops : List Op)
    → 0 < lo
    → hi < max_u64
    → create lo hi tick ≡ ok k
    → k.num_levels ≤ 2 ^ 31
    → Agrees k ops (run ops k)
array_run-Agrees lo hi tick k ops h g e few =
    let r = array_run-create lo hi tick k ops h g e few in
    let s = MapBook.Refine.run-empty-Refines (listed k ops) in
    let d = Run-deterministic r.followed s.1 in
    record { after = r.after; returns = rw (← d.0) r.returns; seen = d.1 }
