-- ===== src/MapBook/Levels.antt =====
-- Cancelling and modifying at a price level, read on the one list of nodes of a side.
use hft_orderbook_benchmark.Common.{
  ℕ, ◌≡◌, ◌≢◌, refl, sym, ap, ◌∙◌, Bool, true, false, [], ◌∷◌, ◌++◌, if◌then◌else◌, ◌==◌, is_empty,
  arith, All, All-imp, Bool-cases, inl, inr, eq_of_==,
}
use hft_orderbook_benchmark.Containers.OrderList
use hft_orderbook_benchmark.Containers.OrderList.{Node, OrderList}
use hft_orderbook_benchmark.Containers.Ladder
use hft_orderbook_benchmark.Containers.Ladder.{Ladder, before}
use hft_orderbook_benchmark.Resting.{flat, IsLadder, erase_at, set_at}
use hft_orderbook_benchmark.Resting.Levels.{All-flat, All-behind, ne_of_before}
use hft_orderbook_benchmark.Resting.Places.{
  erase_at-append, erase_at-skip, set_at-append, set_at-skip,
}
use hft_orderbook_benchmark.MapBook.{erase_order, write_quantity}

-- Behind the level of `p` there is no other order of that price.
All-flat-ne :
    (b : Bool) (p : ℕ) (m : Ladder OrderList)
    → All (λ l. before b p l.0 ≡ true) m
    → IsLadder b m
    → All (λ n. (n.order.price == p) ≡ false) (flat m)
All-flat-ne b p m h v =
    All-imp (λ n. before b p n.order.price ≡ true) (λ n. (n.order.price == p) ≡ false) (flat m)
      (λ n k. ne_of_before' n.order.price k) (All-flat b p m h v)
  where
    ne_of_before' : (r : ℕ) → before b p r ≡ true → (r == p) ≡ false
    ne_of_before' r k = ground (arith, ne_of_before b p r k)

pub flat-write_quantity :
    (b : Bool) (p c q : ℕ) (m : Ladder OrderList)
    → IsLadder b m
    → flat (write_quantity p c q m) ≡ set_at p c q (flat m)
unfolding write_quantity set_at
flat-write_quantity b p c q [] v = refl
flat-write_quantity b p c q ((r, ns) ∷ m) v = elim (Bool-cases (p == r)) [
  | inl e ↦
      rw (e, write_quantity)
        (sym (
          set_at-append p c q ns (flat m) (rw (eq_of_== p r e) v.1)
            (rw (eq_of_== p r e) (All-flat-ne b r m v.2 v.3))))
  | inr e ↦
      rw (e, write_quantity)
        (ap (◌++◌ ns) (flat-write_quantity b p c q m v.3)
          ∙ sym (
              set_at-skip p c q ns (flat m)
                (All-imp (λ n. n.order.price ≡ r) _ ns (λ n k. rw k (ground arith)) v.1)))
]

erase_order_nil : (b : Bool) (p c : ℕ) → erase_order b p c [] ≡ []
unfolding erase_order
erase_order_nil b p c = ground arith

-- The recursion that the composed calls of `cancelOrder` come to.
pub erase_order_cons :
    (b : Bool) (p c q : ℕ) (ns : OrderList) (m : Ladder OrderList)
    → erase_order b p c ((q, ns) ∷ m) ≡ (
        if p == q
        then (if is_empty (OrderList.erase c ns) then m else (q, OrderList.erase c ns) ∷ m)
        else if before b p q
        then (q, ns) ∷ m
        else (q, ns) ∷ erase_order b p c m)
unfolding erase_order
erase_order_cons b p c q ns m = elim (Bool-cases (p == q)) [
  | inl e ↦ rw (e, Ladder.update, Ladder.find, Ladder.erase) (rw (e) refl)
  | inr e ↦ elim (Bool-cases (before b p q)) [ inl h ↦ ground arith | inr h ↦ ground arith ]
]

erase-All :
    (p c : ℕ) (ns : OrderList)
    → All (λ n. n.order.price ≡ p) ns
    → All (λ n. n.order.price ≡ p) (OrderList.erase c ns)
unfolding OrderList.erase
erase-All p c [] h = tt
erase-All p c (n ∷ ns) h = ground (arith, erase-All p c ns h.1)

-- A level that is dropped when it is empty, read on the nodes.
flat_level :
    (q : ℕ) (ns : OrderList) (m : Ladder OrderList)
    → flat (if is_empty ns then m else (q, ns) ∷ m) ≡ ns ++ flat m
flat_level q [] m = refl
flat_level q (n ∷ ns) m = refl

-- Cancelling takes the one node away from the list of nodes.
pub flat-erase_order :
    (b : Bool) (p c : ℕ) (m : Ladder OrderList)
    → IsLadder b m
    → flat (erase_order b p c m) ≡ erase_at p c (flat m)
unfolding OrderList.erase
flat-erase_order b p c [] v = rw erase_order_nil (unfold erase_at in refl)
flat-erase_order b p c ((q, ns) ∷ m) v = elim (Bool-cases (p == q)) [
  | inl e ↦
      rw (erase_order_cons, e)
        (flat_level q (OrderList.erase c ns) m
          ∙ sym (
              erase_at-append p c ns (flat m) (rw (eq_of_== p q e) v.1)
                (rw (eq_of_== p q e) (All-flat-ne b q m v.2 v.3))))
  | inr e ↦ elim (Bool-cases (before b p q)) [
    | inl h ↦
        rw (erase_order_cons, e, h)
          (sym (
            erase_at-append p c [] (ns ++ flat m) tt
              (All-flat-ne b p ((q, ns) ∷ m) (h, All-behind b p q m h v.2) v)))
    | inr h ↦
        rw (erase_order_cons, e, h)
          (ap (◌++◌ ns) (flat-erase_order b p c m v.3)
            ∙ sym (
                erase_at-skip p c ns (flat m)
                  (All-imp (λ n. n.order.price ≡ q) _ ns (λ n k. rw k (ground arith)) v.1)))
  ]
]

All-erase_order :
    (Q : ℕ → Type 0) (b : Bool) (p c : ℕ) (m : Ladder OrderList)
    → All (λ l. Q l.0) m
    → All (λ l. Q l.0) (erase_order b p c m)
All-erase_order Q b p c [] h = rw erase_order_nil tt
All-erase_order Q b p c ((q, ns) ∷ m) h =
    rw erase_order_cons (ground (arith, All-erase_order Q b p c m h.1))

level-IsLadder :
    (b : Bool) (q : ℕ) (ns : OrderList) (m : Ladder OrderList)
    → All (λ n. n.order.price ≡ q) ns
    → All (λ l. before b q l.0 ≡ true) m
    → IsLadder b m
    → IsLadder b (if is_empty ns then m else (q, ns) ∷ m)
level-IsLadder b q [] m h k v = v
level-IsLadder b q (n ∷ ns) m h k v = ((λ e. cc), h, k, v)

pub erase_order-IsLadder :
    (b : Bool) (p c : ℕ) (m : Ladder OrderList) → IsLadder b m → IsLadder b (erase_order b p c m)
erase_order-IsLadder b p c [] v = rw erase_order_nil tt
erase_order-IsLadder b p c ((q, ns) ∷ m) v = elim (Bool-cases (p == q)) [
  | inl e ↦
      rw (erase_order_cons, e)
        (level-IsLadder b q (OrderList.erase c ns) m (erase-All q c ns v.1) v.2 v.3)
  | inr e ↦ elim (Bool-cases (before b p q)) [
    | inl h ↦ rw (erase_order_cons, e, h) v
    | inr h ↦
        rw (erase_order_cons, e, h)
          (
            v.0,
            v.1,
            All-erase_order (λ r. before b q r ≡ true) b p c m v.2,
            erase_order-IsLadder b p c m v.3,
          )
  ]
]

set_quantity-All :
    (p c q : ℕ) (ns : OrderList)
    → All (λ n. n.order.price ≡ p) ns
    → All (λ n. n.order.price ≡ p) (OrderList.set_quantity c q ns)
unfolding OrderList.set_quantity
set_quantity-All p c q [] h = tt
set_quantity-All p c q (n ∷ ns) h = ground (arith, set_quantity-All p c q ns h.1)

set_quantity-ne-nil : (c q : ℕ) (ns : OrderList) → ns ≢ [] → OrderList.set_quantity c q ns ≢ []
unfolding OrderList.set_quantity
set_quantity-ne-nil c q [] h e = h refl
set_quantity-ne-nil c q (n ∷ ns) h e = ground arith

All-write_quantity :
    (Q : ℕ → Type 0) (p c q : ℕ) (m : Ladder OrderList)
    → All (λ l. Q l.0) m
    → All (λ l. Q l.0) (write_quantity p c q m)
unfolding write_quantity
All-write_quantity Q p c q [] h = tt
All-write_quantity Q p c q ((r, ns) ∷ m) h = ground (arith, All-write_quantity Q p c q m h.1)

pub write_quantity-IsLadder :
    (b : Bool) (p c q : ℕ) (m : Ladder OrderList)
    → IsLadder b m
    → IsLadder b (write_quantity p c q m)
unfolding write_quantity
write_quantity-IsLadder b p c q [] v = tt
write_quantity-IsLadder b p c q ((r, ns) ∷ m) v = elim (Bool-cases (p == r)) [
  | inl e ↦
      rw (e, write_quantity)
        (set_quantity-ne-nil c q ns v.0, set_quantity-All r c q ns v.1, v.2, v.3)
  | inr e ↦
      rw (e, write_quantity)
        (
          v.0,
          v.1,
          All-write_quantity (λ s. before b r s ≡ true) p c q m v.2,
          write_quantity-IsLadder b p c q m v.3,
        )
]
