-- ===== src/Engine/Latency.antt =====
-- src/core/matching_engine.cpp: the latencies of an order whose times follow each other.
use hft_orderbook_benchmark.Common.{ℕ, ◌+◌, ◌≤◌, ◌<◌, ◌≡◌, max_u64, arith}
use hft_orderbook_benchmark.Core.{Order}
use hft_orderbook_benchmark.Engine.{latencies}

-- When an order was sent, then received, then taken up and then settled, by 64-bit times of which the
-- first is not 0, its total latency is the sum of the three parts, and is the time from the first to
-- the last.
pub latencies-total :
    (start end : ℕ) (o : Order)
    → 0 < o.send_timestamp
    → o.send_timestamp ≤ o.receive_timestamp
    → o.receive_timestamp ≤ start
    → start ≤ end
    → end ≤ max_u64
    → ((latencies start end o).total
        ≡ (latencies start end o).network
          + (latencies start end o).queue
          + (latencies start end o).engine)
      × (o.send_timestamp + (latencies start end o).total ≡ end)
unfolding latencies
latencies-total start end o h a b c d = (ground arith, ground arith)
