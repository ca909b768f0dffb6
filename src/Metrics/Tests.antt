-- ===== src/Metrics/Tests.antt =====
-- Three samples, and the theorems at them.
use hft_orderbook_benchmark.Common.{ℕ, ◌*◌, ◌≡◌, ◌≤◌, ◌<◌, refl, List, [], ◌∷◌, arith}
use hft_orderbook_benchmark.Metrics.{calculate_stats}
use hft_orderbook_benchmark.Metrics.Percentile.{count_le, count_lt, calculate_stats-ranks}

abbrev samples : List ℕ
samples = 30 ∷ 10 ∷ 20 ∷ []

stats_of_samples : calculate_stats samples ≡ record { p99 = 30; max = 30 }
unfolding calculate_stats
stats_of_samples = refl

calculate_stats-ranks_example :
    (99 * 3 ≤ 100 * count_le (calculate_stats samples).p99 samples)
    × (100 * count_lt (calculate_stats samples).p99 samples < 99 * 3)
    × (count_le (calculate_stats samples).max samples ≡ 3)
calculate_stats-ranks_example = calculate_stats-ranks samples (omega arith)
