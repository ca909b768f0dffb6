-- ===== src/Engine/System.antt =====
-- src/core/matching_engine.cpp: `run` on a map book, from the producer's pushes to the resting orders.
use hft_orderbook_benchmark.Common.{
  ℕ, ◌+◌, ◌%◌, ◌^◌, ◌<◌, ◌≡◌, ap, ◌∙◌, List, [], ◌++◌, some, length,
}
use hft_orderbook_benchmark.Core.{Order, Trade}
use hft_orderbook_benchmark.LockFreeQueue.{Queue}
use hft_orderbook_benchmark.LockFreeQueue.Window.{IsCapacity}
use hft_orderbook_benchmark.LockFreeQueue.Fifo.{Holds}
use hft_orderbook_benchmark.Contract.Runs.{Run}
use hft_orderbook_benchmark.MapBook.{MapBook}
use hft_orderbook_benchmark.MapBook.View.{view, IsValid}
use hft_orderbook_benchmark.MapBook.Refine as MapRun
use hft_orderbook_benchmark.MapBook.Refine.{run-Refines}
use hft_orderbook_benchmark.Engine.{Engine}
use hft_orderbook_benchmark.Engine.Drain.{Turn, accepted, pushes_of, pops_of, Ended}
use hft_orderbook_benchmark.Engine.Loop.{run, run-process_all}
use hft_orderbook_benchmark.Engine.Books.{map_book, calls, process_all-run}

module _ (clock : ℕ → ℕ) (capacity : ℕ) where
  -- However the producer's pushes and the engine's pops take turns, also in the last loop of `run`, from a
  -- queue of `n` slots, a power of two, on a map book that is in order: if the turns of the last loop have more pops than
  -- pushes and slots, and the counters are 64-bit numbers, `run` returns, leaves the queue empty at its
  -- last pop and the book in order. The
  -- resting orders are those that the contract gives for an add and a match for each order that was
  -- queued before or accepted up to then, in order, and the counters have gone up, modulo 2^64, by the
  -- number of these orders and of their trades. Of the accepted orders, only those of the turns after
  -- that pop are left over.
  pub engine_run-Refines :
      (n : ℕ) (c : IsCapacity n) (m : ℕ) (turns us : List Turn) (items : List Order)
      (q : Queue Order) (e : Engine MapBook)
      → Holds n m items q
      → n + pushes_of us < pops_of us
      → IsValid e.book
      → e.metrics.order_count < 2 ^ 64
      → e.metrics.trade_count < 2 ^ 64
      → (used : List Turn) × ((r : Ended MapBook) × (run map_book clock capacity n turns us q e
            ≡ some r)
          × (us ≡ used ++ r.later)
          × (accepted n (length items) (turns ++ us)
              ≡ accepted n (length items) (turns ++ used) ++ accepted n 0 r.later)
          × ((l : ℕ) × Holds n l [] r.queue)
          × IsValid r.engine.book
          × (let os = items ++ accepted n (length items) (turns ++ used) in
              (ts : List Trade) × Run (view e.book) (calls os) ts (view r.engine.book)
              × (r.engine.metrics.order_count ≡ (e.metrics.order_count + length os) % 2 ^ 64)
              × (r.engine.metrics.trade_count ≡ (e.metrics.trade_count + length ts) % 2 ^ 64)))
  engine_run-Refines n c m turns us items q e v h b ho ht =
      let d = run-process_all map_book clock capacity n c m turns us items q e v h in
      let os = items ++ accepted n (length items) (turns ++ d.used) in
      let p = process_all-run clock capacity os e ho ht in
      let r = run-Refines (calls os) e.book b in
      let seen = ap (λ (x : Engine MapBook). x.book) d.processed ∙ p.0 in
      (
        d.used,
        (
          d.last,
          d.returns,
          d.split,
          d.left,
          (d.cursor, d.holds),
          rw seen r.0,
          (
            (MapRun.run (calls os) e.book).0,
            rw seen r.1,
            ap (λ (x : Engine MapBook). x.metrics.order_count) d.processed ∙ p.1,
            ap (λ (x : Engine MapBook). x.metrics.trade_count) d.processed ∙ p.2,
          ),
        ),
      )
