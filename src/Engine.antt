-- ===== src/Engine.antt =====
-- src/core/matching_engine.cpp, `MatchingEngine`: the worker that takes orders from the queue, adds
-- each to the book, matches, and records the latencies.
pub mod Latency
pub mod Drain
pub mod Loop
pub mod System
pub mod Books
mod Tests
use hft_orderbook_benchmark.Common.{
  ℕ, zero, suc, ◌+◌, ◌%◌, Bool, true, false, List, [], ◌∷◌, Option, none, some, if◌then◌else◌, ltb,
  length,
}
use hft_orderbook_benchmark.Core.{Order, Trade}
use hft_orderbook_benchmark.LockFreeQueue.{distance}
use hft_orderbook_benchmark.Metrics.{
  Metrics, record_latency, record_network_latency, record_engine_latency, record_queue_latency,
  increment_orders, increment_trades,
}

-- What the engine calls of an `IOrderBook`.
pub record OrderBook (B : Type 0) : Type 0 where
  pub add_order : Order → B → B
  pub match_orders : B → List Trade × B

pub record Engine (B : Type 0) : Type 0 where
  pub book : B
  pub metrics : Metrics
  -- How often the clock has been read.
  pub readings : ℕ

-- The differences of times that `processOrder` works out.
pub record Latencies : Type 0 where
  pub total : ℕ
  pub network : ℕ
  pub queue : ℕ
  pub engine : ℕ

-- Lines of `processOrder` below "Calculate Decomposed Latencies"; `distance a b` is `a - b` on 64 bits.
unfoldable pub latencies : ℕ → ℕ → Order → Latencies
latencies start end o =
    let base : Latencies = record {
      total = distance end start;
      network = 0;
      queue = 0;
      engine = distance end start;
    } in
    if ltb 0 o.send_timestamp
    then (if ltb 0 o.receive_timestamp
        then record base {
          total = distance end o.send_timestamp;
          network = distance o.receive_timestamp o.send_timestamp;
          queue = distance start o.receive_timestamp;
        }
        else record base { total = distance end o.send_timestamp })
    else if ltb 0 o.receive_timestamp
    then record base {
      total = distance end o.receive_timestamp;
      queue = distance start o.receive_timestamp;
    }
    else base

-- `capacity` is that of the sample vectors.
unfoldable pub record_latencies : ℕ → Latencies → ℕ → Metrics → Metrics
unfolding record_latency record_network_latency record_engine_latency record_queue_latency
    increment_orders increment_trades
record_latencies capacity l trades m =
    let m1 = record_latency capacity l.total m in
    let m2 = if ltb 0 l.network then record_network_latency capacity l.network m1 else m1 in
    let m3 = if ltb 0 l.queue then record_queue_latency capacity l.queue m2 else m2 in
    increment_trades trades (increment_orders (record_engine_latency capacity l.engine m3))

-- `clock n` is what the `n`-th call of `getCurrentTimeNs` returns.
module _ {B : Type 0} (ops : OrderBook B) (clock : ℕ → ℕ) (capacity : ℕ) where
  unfoldable pub process_order : Order → Engine B → Engine B
  unfolding latencies record_latencies
  process_order o e =
      let (trades, book') = ops.match_orders (ops.add_order o e.book) in
      record {
        book = book';
        metrics =
            record_latencies capacity (latencies (clock e.readings) (clock (e.readings + 1)) o)
              (length trades) e.metrics;
        readings = e.readings + 2;
      }
