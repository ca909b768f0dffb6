-- ===== src/ArrayBook/New.antt =====
-- src/orderbooks/array_order_book.cpp: the book that the constructor makes.
use hft_orderbook_benchmark.Common.{
  ℕ, ◌+◌, ◌-◌, ◌/◌, ◌%◌, ◌^◌, ◌<◌, ◌≡◌, refl, sym, ap, Bool, true, false, [], arith, max_u64,
}
use hft_orderbook_benchmark.Containers.Index
use hft_orderbook_benchmark.Contract
use hft_orderbook_benchmark.Contract.{Book}
use hft_orderbook_benchmark.Resting.{orders}
use hft_orderbook_benchmark.MapBook.View.{Book_path}
use hft_orderbook_benchmark.ArrayBook.{ArrayBook, ok, create, replicate}
use hft_orderbook_benchmark.ArrayBook.Prices.{IsConfigured, create-IsConfigured}
use hft_orderbook_benchmark.ArrayBook.Sides.{new-IsPriced, new-flat}
use hft_orderbook_benchmark.ArrayBook.Scans.{flags-replicate, best-scan, length-replicate}
use hft_orderbook_benchmark.ArrayBook.View.{view, IsValid, IsSide}

-- The book that the constructor makes.
abbrev pub fresh : ℕ → ℕ → ℕ → ArrayBook
fresh lo hi tick =
    let n = ((hi - lo) / tick + 1) % 2 ^ 64 in
    record {
      min_price = lo;
      max_price = hi;
      tick_size = tick;
      num_levels = n;
      bid_levels = replicate n [];
      ask_levels = replicate n [];
      active_bid_levels = replicate n false;
      active_ask_levels = replicate n false;
      order_lookup = Index.empty;
      cached_best_bid = 0;
      cached_best_ask = max_u64;
      next_cell = 0;
    }

create-fresh : (lo hi tick : ℕ) {k : ArrayBook} → create lo hi tick ≡ ok k → k ≡ fresh lo hi tick
unfolding create
create-fresh lo hi tick e = ground arith

new-IsSide : (b : Bool) (d p t n : ℕ) → IsSide b d p t n (replicate n []) (replicate n false) d
unfolding Contract.best
new-IsSide b d p t n = record {
  sized = length-replicate n;
  priced = new-IsPriced p t n;
  marked = sym (flags-replicate n);
  cached =
      rw (new-flat b p t n, flags-replicate n, length-replicate n) at
        (best-scan b d p t (replicate n []) (new-IsPriced p t n));
}

fresh-IsValid :
    (lo hi tick : ℕ)
    → 0 < lo
    → hi < max_u64
    → IsConfigured (fresh lo hi tick)
    → IsValid (fresh lo hi tick)
unfolding Index.empty
fresh-IsValid lo hi tick h g c =
    let n = ((hi - lo) / tick + 1) % 2 ^ 64 in
    record {
      configured = c;
      above_zero = h;
      below_max = g;
      bid_side = new-IsSide true 0 lo tick n;
      ask_side = new-IsSide false max_u64 lo tick n;
      lookup =
          rw (new-flat true lo tick n, new-flat false lo tick n)
            (record {
              bids = record { indexed = tt; distinct = tt; covered = λ id l h s. cc };
              asks = record { indexed = tt; distinct = tt; covered = λ id l h s. cc };
              cells = record { fresh = λ id l h. cc; injective = λ id jd l k h g e. cc };
              counted = refl;
            });
      inside = λ id l e. cc;
    }

-- A book that the constructor returns is in order and empty, when its lowest price is above 0 and its
-- highest below the largest 64-bit number.
pub create-IsValid :
    (lo hi tick : ℕ) {k : ArrayBook}
    → 0 < lo
    → hi < max_u64
    → create lo hi tick ≡ ok k
    → IsValid k × (view k ≡ record { bids = []; asks = [] })
create-IsValid lo hi tick h g e =
    let c = create-IsConfigured lo hi tick g e in
    let w = create-fresh lo hi tick e in
    let n = ((hi - lo) / tick + 1) % 2 ^ 64 in
    rw w (
      fresh-IsValid lo hi tick h g (rw w at c),
      Book_path _ _ _ _ (ap orders (new-flat true lo tick n))
          (ap orders (new-flat false lo tick n)),
    )
