-- ===== src/Resting/Places.antt =====
-- Taking a node away from a list of nodes, or changing one, level by level.
use hft_orderbook_benchmark.Common.{ℕ, ◌≡◌, refl, ap, false, List, [], ◌∷◌, ◌++◌, ◌==◌, arith, All}
use hft_orderbook_benchmark.Containers.OrderList
use hft_orderbook_benchmark.Containers.OrderList.{Node}
use hft_orderbook_benchmark.Resting.{erase_at, set_at}

-- Inside the level of the price `p` the cell alone decides.
pub erase_at-append :
    (p c : ℕ) (ns ms : List Node)
    → All (λ n. n.order.price ≡ p) ns
    → All (λ n. (n.order.price == p) ≡ false) ms
    → erase_at p c (ns ++ ms) ≡ OrderList.erase c ns ++ ms
unfolding erase_at OrderList.erase
erase_at-append p c [] [] h k = refl
erase_at-append p c [] (m ∷ ms) h k =
    rw (k.0, erase_at) (ap (◌∷◌ m) (erase_at-append p c [] ms tt k.1))
erase_at-append p c (n ∷ ns) ms h k = ground (arith, erase_at-append p c ns ms h.1 k)

pub erase_at-skip :
    (p c : ℕ) (ns ms : List Node)
    → All (λ n. (n.order.price == p) ≡ false) ns
    → erase_at p c (ns ++ ms) ≡ ns ++ erase_at p c ms
unfolding erase_at
erase_at-skip p c [] ms h = refl
erase_at-skip p c (n ∷ ns) ms h = rw (h.0, erase_at) (ap (◌∷◌ n) (erase_at-skip p c ns ms h.1))

pub set_at-append :
    (p c q : ℕ) (ns ms : List Node)
    → All (λ n. n.order.price ≡ p) ns
    → All (λ n. (n.order.price == p) ≡ false) ms
    → set_at p c q (ns ++ ms) ≡ OrderList.set_quantity c q ns ++ ms
unfolding set_at OrderList.set_quantity
set_at-append p c q [] [] h k = refl
set_at-append p c q [] (m ∷ ms) h k =
    rw (k.0, set_at) (ap (◌∷◌ m) (set_at-append p c q [] ms tt k.1))
set_at-append p c q (n ∷ ns) ms h k = ground (arith, set_at-append p c q ns ms h.1 k)

pub set_at-skip :
    (p c q : ℕ) (ns ms : List Node)
    → All (λ n. (n.order.price == p) ≡ false) ns
    → set_at p c q (ns ++ ms) ≡ ns ++ set_at p c q ms
unfolding set_at
set_at-skip p c q [] ms h = refl
set_at-skip p c q (n ∷ ns) ms h = rw (h.0, set_at) (ap (◌∷◌ n) (set_at-skip p c q ns ms h.1))
