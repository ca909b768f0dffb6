-- ===== src/Resting/Levels.antt =====
-- The operations on a ladder of order lists, read on the one list of its nodes.
use hft_orderbook_benchmark.Common.{
  ℕ, ◌≡◌, ◌≢◌, refl, sym, ap, ◌∙◌, Bool, true, false, List, [], ◌∷◌, ◌++◌, ◌==◌, arith, All,
  All-append, All-imp, Bool-cases, inl, inr, eq_of_==,
}
use mathlib.Core.List.{append_assoc}
use hft_orderbook_benchmark.Containers.OrderList.{Node, OrderList, push_back}
use hft_orderbook_benchmark.Containers.Ladder
use hft_orderbook_benchmark.Containers.Ladder.{Ladder, before}
use hft_orderbook_benchmark.Resting.{flat, IsLadder, insert_node}

-- Every price of a ladder behind `p` is worse than `p`.
pub All-flat :
    (b : Bool) (p : ℕ) (m : Ladder OrderList)
    → All (λ l. before b p l.0 ≡ true) m
    → IsLadder b m
    → All (λ n. before b p n.order.price ≡ true) (flat m)
All-flat b p [] h v = tt
All-flat b p ((q, ns) ∷ m) h v =
    All-append _ ns (flat m) (All-imp (λ n. n.order.price ≡ q) _ ns (λ n e. rw e (h.0)) v.1)
      (All-flat b p m h.1 v.3)

pub insert_node-skip :
    (b : Bool) (n : Node) (xs ys : List Node)
    → All (λ m. before b n.order.price m.order.price ≡ false) xs
    → insert_node b n (xs ++ ys) ≡ xs ++ insert_node b n ys
unfolding insert_node
insert_node-skip b n [] ys h = refl
insert_node-skip b n (x ∷ xs) ys h = ground (arith, insert_node-skip b n xs ys h.1)

pub insert_node_first :
    (b : Bool) (n : Node) (ys : List Node)
    → All (λ m. before b n.order.price m.order.price ≡ true) ys
    → insert_node b n ys ≡ n ∷ ys
unfolding insert_node
insert_node_first b n [] h = refl
insert_node_first b n (y ∷ ys) h = ground arith

pub not_before_self : (b : Bool) (p : ℕ) → before b p p ≡ false
not_before_self true p = ground arith
not_before_self false p = ground arith

pub not_before : (b : Bool) (p q : ℕ) → before b p q ≡ true → before b q p ≡ false
not_before true p q h = ground arith
not_before false p q h = ground arith

pub ne_of_before : (b : Bool) (p q : ℕ) → before b p q ≡ true → (p == q) ≡ false
ne_of_before true p q h = ground arith
ne_of_before false p q h = ground arith

pub before_trans :
    (b : Bool) (p q r : ℕ) → before b p q ≡ true → before b q r ≡ true → before b p r ≡ true
before_trans true p q r h k = ground arith
before_trans false p q r h k = ground arith

pub before_total :
    (b : Bool) (p q : ℕ) → (p == q) ≡ false → before b p q ≡ false → before b q p ≡ true
before_total true p q h k = ground arith
before_total false p q h k = ground arith

-- Every price of a ladder whose first key is not `p` and not behind `p` is worse than `p`.
pub All-behind :
    (b : Bool) (p q : ℕ) (m : Ladder OrderList)
    → before b p q ≡ true
    → All (λ l. before b q l.0 ≡ true) m
    → All (λ l. before b p l.0 ≡ true) m
All-behind b p q m h =
    All-imp (λ l. before b q l.0 ≡ true) (λ l. before b p l.0 ≡ true) m
      (λ l k. before_trans b p q l.0 h k)

-- `m[price].push_back(order)` puts the order behind all that are as good or better.
pub flat-update-push_back :
    (b : Bool) (n : Node) (m : Ladder OrderList)
    → IsLadder b m
    → flat (Ladder.update b n.order.price [] (push_back n) m) ≡ insert_node b n (flat m)
unfolding Ladder.update insert_node
flat-update-push_back b n [] v = refl
flat-update-push_back b n ((q, ns) ∷ m) v = elim (Bool-cases (n.order.price == q)) [
  | inl e ↦ rw (e, Ladder.update) (at_level (eq_of_== _ q e))
  | inr e ↦ elim (Bool-cases (before b n.order.price q)) [
    | inl h ↦
        rw (e, h, Ladder.update)
          (sym (
            insert_node_first b n (ns ++ flat m)
              (All-flat b n.order.price ((q, ns) ∷ m) (worse h) v)))
    | inr h ↦
        rw (e, h, Ladder.update) (passed (before_total b _ q e h) (flat-update-push_back b n m v.3))
  ]
]
  where
    worse :
        before b n.order.price q ≡ true → All (λ l. before b n.order.price l.0 ≡ true) ((q, ns) ∷ m)
    worse h = (h, All-behind b n.order.price q m h v.2)

    skip :
        before b n.order.price q ≡ false
        → insert_node b n (ns ++ flat m) ≡ ns ++ insert_node b n (flat m)
    skip h = insert_node-skip b n ns (flat m) (
        All-imp (λ k. k.order.price ≡ q) (λ k. before b n.order.price k.order.price ≡ false) ns
          (λ k e. rw e h) v.1)

    at_level : n.order.price ≡ q → (ns ++ n ∷ []) ++ flat m ≡ insert_node b n (ns ++ flat m)
    at_level e =
        append_assoc ns (n ∷ []) (flat m)
        ∙ sym (
            skip (rw e (not_before_self b q))
            ∙ ap (◌++◌ ns)
                (insert_node_first b n (flat m) (All-flat b n.order.price m (rw e v.2) v.3)))

    passed :
        before b q n.order.price ≡ true
        → flat (Ladder.update b n.order.price [] (push_back n) m) ≡ insert_node b n (flat m)
        → ns ++ flat (Ladder.update b n.order.price [] (push_back n) m)
          ≡ insert_node b n (ns ++ flat m)
    passed h ih = ap (◌++◌ ns) ih ∙ sym (skip (not_before b q n.order.price h))

All-update :
    (Q : ℕ → Type 0) (b : Bool) (p : ℕ) (f : OrderList → OrderList) (m : Ladder OrderList)
    → Q p
    → All (λ l. Q l.0) m
    → All (λ l. Q l.0) (Ladder.update b p [] f m)
unfolding Ladder.update
All-update Q b p f [] h a = (h, tt)
All-update Q b p f ((q, ns) ∷ m) h a = ground (arith, All-update Q b p f m h a.1)

append-ne-nil : (n : Node) (ns : OrderList) → push_back n ns ≢ []
append-ne-nil n [] = λ e. cc
append-ne-nil n (x ∷ ns) = λ e. cc

pub update-push_back-IsLadder :
    (b : Bool) (n : Node) (m : Ladder OrderList)
    → IsLadder b m
    → IsLadder b (Ladder.update b n.order.price [] (push_back n) m)
unfolding Ladder.update
update-push_back-IsLadder b n [] v = ((λ e. cc), (refl, tt), tt, tt)
update-push_back-IsLadder b n ((q, ns) ∷ m) v = elim (Bool-cases (n.order.price == q)) [
  | inl e ↦
      rw (e, Ladder.update)
        (append-ne-nil n ns, All-append _ ns (n ∷ []) v.1 (eq_of_== _ q e, tt), v.2, v.3)
  | inr e ↦ elim (Bool-cases (before b n.order.price q)) [
    | inl h ↦
        rw (e, h, Ladder.update)
          ((λ k. cc), (refl, tt), (h, All-behind b n.order.price q m h v.2), v)
    | inr h ↦
        rw (e, h, Ladder.update)
          (
            v.0,
            v.1,
            All-update (λ r. before b q r ≡ true) b n.order.price (push_back n) m
                (before_total b _ q e h) v.2,
            update-push_back-IsLadder b n m v.3,
          )
  ]
]
