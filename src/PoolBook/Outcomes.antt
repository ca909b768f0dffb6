-- ===== src/PoolBook/Outcomes.antt =====
-- src/orderbooks/pool_order_book.cpp: calls in turn that all return.
use hft_orderbook_benchmark.Common.{◌≡◌, refl}
use hft_orderbook_benchmark.PoolBook.{Outcome, ok, out_of_memory, undefined, out_of_fuel, ◌>>=◌}

-- Where two calls in turn return, both do.
pub returned {ℓ κ} :
    {A : Type ℓ} {B : Type κ} (o : Outcome A) (f : A → Outcome B) (b : B)
    → (o >>= f) ≡ ok b
    → (a : A) × (o ≡ ok a) × (f a ≡ ok b)
returned (ok a) f b h = (a, refl, h)
returned out_of_memory f b h = absurd (cc)
returned undefined f b h = absurd (cc)
returned out_of_fuel f b h = absurd (cc)
