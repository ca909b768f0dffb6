-- ===== src/VectorBook/Levels.antt =====
-- The sorted vector of levels against the map of levels.
use hft_orderbook_benchmark.Common.{
  ℕ, suc, ◌≡◌, refl, ap, sym, ◌∙◌, Bool, true, false, [], ◌∷◌, Option, none, some, ◌==◌, arith,
  Bool-cases, inl, inr,
}
use hft_orderbook_benchmark.Containers.OrderList.{Node, OrderList, push_back}
use hft_orderbook_benchmark.Containers.Ladder
use hft_orderbook_benchmark.Containers.Ladder.{Ladder, before}
use hft_orderbook_benchmark.Resting.{IsLadder}
use hft_orderbook_benchmark.Resting.Levels.{All-behind, ne_of_before, before_total, not_before}
use hft_orderbook_benchmark.MapBook
use hft_orderbook_benchmark.MapBook.Levels.{erase_order_cons}
use hft_orderbook_benchmark.MapBook.Iterators.{find_behind}
use hft_orderbook_benchmark.VectorBook.{
  Levels, lower_bound, push_at, push, erase_in, erase_order, write_quantity,
}

push_at_behind :
    (n : Node) (i : ℕ) (k : ℕ × OrderList) (m : Levels) (o : Option (ℕ × OrderList))
    → push_at n (suc i) (k ∷ m) o ≡ k ∷ push_at n i m o
unfolding push_at
push_at_behind n i k m none = refl
push_at_behind n i k m (some (q, ns)) = ground arith

-- Adding an order by search and insertion into the vector of levels gives the levels that `operator[]`
-- and `push_back` give on the map, whatever the levels are.
pub push-eq-update :
    (b : Bool) (n : Node) (m : Levels)
    → push b n m ≡ Ladder.update b n.order.price [] (push_back n) m
unfolding push Ladder.update
push-eq-update b n [] = refl
push-eq-update b n ((q, ns) ∷ m) = elim (Bool-cases (before b q n.order.price)) [
  | inl e ↦
      rw (e, lower_bound)
        (push_at_behind n (lower_bound b n.order.price m) (q, ns) m _
          ∙ ap (◌∷◌ (q, ns)) (push-eq-update b n m)
          ∙ sym (update_behind (not_before b q n.order.price e) (ne_of_before b q n.order.price e)))
  | inr e ↦ elim (Bool-cases (n.order.price == q)) [
    | inl h ↦ ground arith
    | inr h ↦ ground (arith, before_total b q n.order.price)
  ]
]
  where
    update_behind :
        before b n.order.price q ≡ false
        → (q == n.order.price) ≡ false
        → Ladder.update b n.order.price [] (push_back n) ((q, ns) ∷ m)
          ≡ (q, ns) ∷ Ladder.update b n.order.price [] (push_back n) m
    update_behind h g = ground arith

pub write_quantity_lem :
    (p c q : ℕ) (m : Levels) → write_quantity p c q m ≡ MapBook.write_quantity p c q m
unfolding write_quantity MapBook.write_quantity
write_quantity_lem p c q [] = refl
write_quantity_lem p c q ((r, ns) ∷ m) = ground (arith, write_quantity_lem p c q m)

erase_in_behind :
    (c i : ℕ) (k : ℕ × OrderList) (m m' : Levels) (o : Option (ℕ × OrderList))
    → erase_in c i m o ≡ some m'
    → erase_in c (suc i) (k ∷ m) o ≡ some (k ∷ m')
unfolding erase_in
erase_in_behind c i k m m' none h = absurd (cc)
erase_in_behind c i k m m' (some (q, ns)) h = ground arith

-- The search stops where the price is, or where it would be.
stops_at :
    (b : Bool) (p q : ℕ) (ms ns : OrderList) (m : Levels)
    → IsLadder b ((q, ms) ∷ m)
    → before b q p ≡ false
    → Ladder.find p ((q, ms) ∷ m) ≡ some ns
    → (p == q) ≡ true
unfolding Ladder.find
stops_at b p q ms ns m v e h = elim (Bool-cases (p == q)) [
  | inl g ↦ g
  | inr g ↦
      let r = before_total b q p (ground arith) e in
      let f : Ladder.find p m ≡ some ns = ground arith in
      let absurdity = find_behind b p p m ns (All-behind b p q m r v.2) f in ground arith
]

find_further :
    (b : Bool) (p q : ℕ) (ms ns : OrderList) (m : Levels)
    → (p == q) ≡ false
    → Ladder.find p ((q, ms) ∷ m) ≡ some ns
    → Ladder.find p m ≡ some ns
unfolding Ladder.find
find_further b p q ms ns m e h = ground arith

ne_sym : (b : Bool) (p q : ℕ) → before b q p ≡ true → (p == q) ≡ false
ne_sym b p q e = ground (arith, ne_of_before b q p e)

-- Where the level is there, binary search finds it, and no end iterator is used.
pub erase_order-eq :
    (b : Bool) (p c : ℕ) (m : Levels) (ns : OrderList)
    → IsLadder b m
    → Ladder.find p m ≡ some ns
    → erase_order b p c m ≡ some (MapBook.erase_order b p c m)
unfolding erase_order
erase_order-eq b p c [] ns v h = absurd (unfold Ladder.find in (cc))
erase_order-eq b p c ((q, ms) ∷ m) ns v h = elim (Bool-cases (before b q p)) [
  | inl e ↦
      rw (e, lower_bound, erase_order_cons, ne_sym b p q e, not_before b q p e)
        (erase_in_behind c (lower_bound b p m) (q, ms) m _ _
          (erase_order-eq b p c m ns v.3 (find_further b p q ms ns m (ne_sym b p q e) h)))
  | inr e ↦ rw (e, lower_bound, erase_order_cons, stops_at b p q ms ns m v e h) refl
]
