-- ===== src/Resting/Orders.antt =====
-- The node operations seen on the orders alone.
use hft_orderbook_benchmark.Common.{
  ℕ, suc, ◌+◌, ◌≡◌, refl, Bool, List, [], ◌∷◌, ◌++◌, arith, length, All, ap,
}
use hft_orderbook_benchmark.Contract
use hft_orderbook_benchmark.Containers.OrderList.{Node}
use hft_orderbook_benchmark.Resting.{orders, insert_node, erase_at}

pub orders-insert_node :
    (b : Bool) (n : Node) (ns : List Node)
    → orders (insert_node b n ns) ≡ Contract.insert b n.order (orders ns)
unfolding insert_node Contract.insert
orders-insert_node b n [] = refl
orders-insert_node b n (m ∷ ms) = ground (arith, orders-insert_node b n ms)

pub length-insert_node :
    (b : Bool) (n : Node) (ns : List Node) → length (insert_node b n ns) ≡ length ns + 1
unfolding insert_node
length-insert_node b n [] = refl
length-insert_node b n (m ∷ ms) = ground (arith, length-insert_node b n ms)

pub orders-append : (xs ys : List Node) → orders (xs ++ ys) ≡ orders xs ++ orders ys
orders-append [] ys = refl
orders-append (x ∷ xs) ys = ap (◌∷◌ x.order) (orders-append xs ys)

module _ {ℓ} (P : Node → Type ℓ) where
  pub All-insert_node :
      (b : Bool) (n : Node) (ns : List Node) → P n → All P ns → All P (insert_node b n ns)
  unfolding insert_node
  All-insert_node b n [] h a = (h, tt)
  All-insert_node b n (m ∷ ms) h a = ground (arith, All-insert_node b n ms h a.1)

  pub All-erase_at : (p c : ℕ) (ns : List Node) → All P ns → All P (erase_at p c ns)
  unfolding erase_at
  All-erase_at p c [] a = tt
  All-erase_at p c (n ∷ ns) a = ground (arith, All-erase_at p c ns a.1)

pub length-orders : (ns : List Node) → length (orders ns) ≡ length ns
length-orders [] = refl
length-orders (n ∷ ns) = ap suc (length-orders ns)
