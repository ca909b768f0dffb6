-- ===== src/Engine/Books.antt =====
-- src/core/matching_engine.cpp on a map book: what the orders that the engine processes do to the abstract
-- book.
use hft_orderbook_benchmark.Common.{
  ℕ, ◌+◌, ◌%◌, ◌^◌, ◌<◌, ◌≡◌, refl, ap, ◌∙◌, List, [], ◌∷◌, length, length-append, arith,
}
use hft_orderbook_benchmark.Core.{Order}
use hft_orderbook_benchmark.Metrics.{
  Metrics, increment_orders, increment_trades, record_latency, record_network_latency,
  record_engine_latency, record_queue_latency,
}
use hft_orderbook_benchmark.Contract.Runs.{Op, add, match}
use hft_orderbook_benchmark.MapBook.{MapBook, add_order, match_orders}
use hft_orderbook_benchmark.MapBook.Refine.{run}
use hft_orderbook_benchmark.Engine.{
  OrderBook, Engine, Latencies, latencies, process_order, record_latencies,
}
use hft_orderbook_benchmark.Engine.Drain.{process_all}

-- The map book behind the interface.
abbrev pub map_book : OrderBook MapBook
map_book = record { add_order = add_order; match_orders = match_orders }

-- The calls that the engine makes for orders: each is added, and then the book is matched.
abbrev pub calls : List Order → List Op
calls [] = []
calls (o ∷ os) = add o ∷ match ∷ calls os

-- Recording the latencies counts one order and its trades.
record_latencies-counts :
    (capacity : ℕ) (l : Latencies) (n : ℕ) (m : Metrics)
    → ((record_latencies capacity l n m).order_count ≡ (m.order_count + 1) % 2 ^ 64)
      × ((record_latencies capacity l n m).trade_count ≡ (m.trade_count + n) % 2 ^ 64)
unfolding record_latencies increment_orders increment_trades record_latency record_network_latency
    record_engine_latency record_queue_latency
record_latencies-counts capacity l n m = (ground arith, ground arith)

module _ (clock : ℕ → ℕ) (capacity : ℕ) where
  -- One order: the book is that of the two calls, and the order and its trades are counted.
  process_order-counts :
      (o : Order) (e : Engine MapBook)
      → let out = process_order map_book clock capacity o e in
        (out.book ≡ (match_orders (add_order o e.book)).1)
        × (out.metrics.order_count ≡ (e.metrics.order_count + 1) % 2 ^ 64)
        × (out.metrics.trade_count
            ≡ (e.metrics.trade_count + length (match_orders (add_order o e.book)).0) % 2 ^ 64)
  unfolding process_order
  process_order-counts o e =
      let c =
        record_latencies-counts capacity (latencies (clock e.readings) (clock (e.readings + 1)) o)
          (length (match_orders (add_order o e.book)).0) e.metrics in
      (refl, c.0, c.1)

  pub process_all-run :
      (items : List Order) (e : Engine MapBook)
      → e.metrics.order_count < 2 ^ 64
      → e.metrics.trade_count < 2 ^ 64
      → let out = process_all map_book clock capacity items e in
        (out.book ≡ (run (calls items) e.book).1)
        × (out.metrics.order_count ≡ (e.metrics.order_count + length items) % 2 ^ 64)
        × (out.metrics.trade_count
            ≡ (e.metrics.trade_count + length (run (calls items) e.book).0) % 2 ^ 64)
  unfolding process_all run
  process_all-run [] e h k = (refl, omega arith, omega arith)
  process_all-run (o ∷ items) e h k =
      let e1 = process_order map_book clock capacity o e in
      let c = process_order-counts o e in
      let r = process_all-run items e1 (omega (arith, c.1)) (omega (arith, c.2)) in
      let b = ap (λ m. run (calls items) m) c.0 in
      (
        r.0 ∙ ap (λ x. x.1) b,
        omega (arith, r.1, c.1),
        omega (
          arith,
          r.2,
          c.2,
          ap (λ x. length x.0) b,
          length-append (match_orders (add_order o e.book)).0
              (run (calls items) (match_orders (add_order o e.book)).1).0,
        ),
      )
