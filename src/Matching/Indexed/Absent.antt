-- ===== src/Matching/Indexed/Absent.antt =====
-- The contract's operations on a side that does not hold the id.
use hft_orderbook_benchmark.Common.{ℕ, ◌≡◌, refl, false, List, [], ◌∷◌, arith}
use hft_orderbook_benchmark.Core.{Order}
use hft_orderbook_benchmark.Contract.{holds, remove, set_quantity}

pub remove_absent : (id : ℕ) (os : List Order) → holds id os ≡ false → remove id os ≡ os
unfolding holds remove
remove_absent id [] h = refl
remove_absent id (o ∷ os) h = ground (arith, remove_absent id os)

pub set_quantity_absent :
    (id q : ℕ) (os : List Order) → holds id os ≡ false → set_quantity id q os ≡ os
unfolding holds set_quantity
set_quantity_absent id q [] h = refl
set_quantity_absent id q (o ∷ os) h = ground (arith, set_quantity_absent id q os)
