-- ===== src/PoolBook/Exhaustion.antt =====
-- src/orderbooks/pool_order_book.cpp: the free list of a new pool.
use hft_orderbook_benchmark.Common.{
  ℕ, zero, suc, ◌+◌, ◌<◌, ◌≤◌, ◌≡◌, ◌≢◌, refl, List, [], ◌∷◌, some, if◌then◌else◌, subst, ◌==◌,
  arith, All, length, get_elem?,
}
use hft_orderbook_benchmark.PoolBook.{PoolBook, ok, create, free_slots, unused, null_idx}
use hft_orderbook_benchmark.PoolBook.Slots.{IsChain, IsApart, IsFree}

-- The numbers from `i` on, `m` of them.
abbrev pub count_from : ℕ → ℕ → List ℕ
count_from i zero = []
count_from i (suc m) = i ∷ count_from (i + 1) m

pub length-count_from : (i m : ℕ) → length (count_from i m) ≡ m
length-count_from i zero = refl
length-count_from i (suc m) = omega (arith, length-count_from (i + 1) m)

count_from-above : (j i m : ℕ) → j < i → All (λ l. j ≢ l) (count_from i m)
count_from-above j i zero h = tt
count_from-above j i (suc m) h = ((λ e. omega arith), count_from-above j (i + 1) m (omega arith))

count_from-IsApart : (i m : ℕ) → IsApart (count_from i m)
count_from-IsApart i zero = tt
count_from-IsApart i (suc m) =
    (count_from-above i (i + 1) m (omega arith), count_from-IsApart (i + 1) m)

get_elem-free_slots :
    (n i j : ℕ)
    → j ≤ n
    → get_elem? (free_slots n i) j ≡ some (unused (if j == n then null_idx else i + j + 1))
get_elem-free_slots zero i zero h = refl
get_elem-free_slots zero i (suc j) h = absurd (omega arith)
get_elem-free_slots (suc n) i zero h = ground arith
get_elem-free_slots (suc n) i (suc j) h =
    ground (arith, get_elem-free_slots n (i + 1) j (omega arith))

free_slots-IsChain :
    (n i m : ℕ) → i + m ≡ n → n < null_idx → IsChain (free_slots n 0) i (count_from i (suc m))
free_slots-IsChain n i zero h b = (
  refl,
  omega arith,
  unused null_idx,
  ground (arith, get_elem-free_slots n 0 i (omega arith), h),
  refl,
)
free_slots-IsChain n i (suc m) h b = (
  refl,
  omega arith,
  unused (i + 1),
  ground (arith, get_elem-free_slots n 0 i (omega arith), h),
  free_slots-IsChain n (i + 1) m (omega arith) b,
)

-- A new pool has all its slots in the free list, in order.
pub create-IsFree :
    (n : ℕ) {k : PoolBook} → n < null_idx → create (suc n) ≡ ok k → IsFree k (count_from 0 (suc n))
unfolding create
create-IsFree n {k} h e =
    let o : free_slots n 0 ≡ k.orders = ground (arith, e) in
    let f : 0 ≡ k.free_head = ground (arith, e) in
    record {
      linked =
          subst (λ ns. IsChain ns k.free_head (count_from 0 (suc n))) o
            (subst (λ i. IsChain (free_slots n 0) i (count_from 0 (suc n))) f
              (free_slots-IsChain n 0 n (omega arith) h));
      apart = count_from-IsApart 0 (suc n);
    }
