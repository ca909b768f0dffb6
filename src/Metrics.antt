-- ===== src/Metrics.antt =====
-- src/core/metrics_collector.hpp, `MetricsCollector`: the calls one after the other, as the mutex and
-- the atomic counters let them be seen. The mean is a `double` and is left out.
pub mod Percentile
mod Tests
use hft_orderbook_benchmark.Common.{
  ℕ, zero, suc, ◌+◌, ◌-◌, ◌*◌, ◌/◌, ◌%◌, ◌^◌, List, [], ◌∷◌, ◌++◌, Bool, true, false, if◌then◌else◌,
  ltb, leb, length, get_or, is_empty, min_of,
}

pub record Metrics : Type 0 where
  pub order_count : ℕ
  pub trade_count : ℕ
  pub latencies : List ℕ
  pub network_latencies : List ℕ
  pub engine_latencies : List ℕ
  pub queue_latencies : List ℕ

-- The constructor.
unfoldable pub create : Metrics
create = record {
  order_count = 0;
  trade_count = 0;
  latencies = [];
  network_latencies = [];
  engine_latencies = [];
  queue_latencies = [];
}

-- `if (samples.size() < samples.capacity()) samples.push_back(cycles)`.
abbrev pub sampled : ℕ → ℕ → List ℕ → List ℕ
sampled capacity cycles samples =
    if ltb (length samples) capacity then samples ++ cycles ∷ [] else samples

-- The capacity is that of the vectors after `reserve(1000000)`, at least that number.
module _ (capacity : ℕ) where
  unfoldable pub record_latency : ℕ → Metrics → Metrics
  record_latency cycles m = record m { latencies = sampled capacity cycles m.latencies }

  unfoldable pub record_network_latency : ℕ → Metrics → Metrics
  record_network_latency cycles m = record m {
    network_latencies = sampled capacity cycles m.network_latencies;
  }

  unfoldable pub record_engine_latency : ℕ → Metrics → Metrics
  record_engine_latency cycles m = record m {
    engine_latencies = sampled capacity cycles m.engine_latencies;
  }

  unfoldable pub record_queue_latency : ℕ → Metrics → Metrics
  record_queue_latency cycles m = record m {
    queue_latencies = sampled capacity cycles m.queue_latencies;
  }

-- `fetch_add` on counters of 64 bits.
unfoldable pub increment_orders : Metrics → Metrics
increment_orders m = record m { order_count = (m.order_count + 1) % 2 ^ 64 }

unfoldable pub increment_trades : ℕ → Metrics → Metrics
increment_trades count m = record m { trade_count = (m.trade_count + count) % 2 ^ 64 }

-- `std::sort`.
abbrev pub sort_into : ℕ → List ℕ → List ℕ
sort_into x [] = x ∷ []
sort_into x (y ∷ ys) = if leb x y then x ∷ y ∷ ys else y ∷ sort_into x ys

unfoldable pub sort : List ℕ → List ℕ
sort [] = []
sort (x ∷ xs) = sort_into x (sort xs)

-- `LatencyStats`, less the mean.
pub record LatencyStats : Type 0 where
  pub p99 : ℕ
  pub max : ℕ

-- `p99Index`, for `n` samples.
unfoldable pub p99_index : ℕ → ℕ
p99_index n = min_of (n - 1) ((99 * n + 99) / 100 - 1)

-- `calculateStats`; the fallback 0 of an access stands for none that happens.
unfoldable pub calculate_stats : List ℕ → LatencyStats
unfolding sort p99_index
calculate_stats samples =
    let sorted = sort samples in
    if is_empty samples then record { p99 = 0; max = 0 } else record {
      p99 = get_or sorted (p99_index (length sorted)) 0;
      max = get_or sorted (length sorted - 1) 0;
    }

unfoldable pub get_order_count : Metrics → ℕ
get_order_count m = m.order_count

unfoldable pub get_trade_count : Metrics → ℕ
get_trade_count m = m.trade_count

unfoldable pub get_stats : Metrics → LatencyStats
unfolding calculate_stats
get_stats m = calculate_stats m.latencies

unfoldable pub get_network_stats : Metrics → LatencyStats
unfolding calculate_stats
get_network_stats m = calculate_stats m.network_latencies

unfoldable pub get_engine_stats : Metrics → LatencyStats
unfolding calculate_stats
get_engine_stats m = calculate_stats m.engine_latencies

unfoldable pub get_queue_stats : Metrics → LatencyStats
unfolding calculate_stats
get_queue_stats m = calculate_stats m.queue_latencies
