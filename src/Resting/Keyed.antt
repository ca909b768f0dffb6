-- ===== src/Resting/Keyed.antt =====
-- Levels in the order of their keys, empty ones among them, and a change of the level at one key.
use mathlib.Core.List.{append_assoc}
use hft_orderbook_benchmark.Common.{
  ℕ, ◌≡◌, refl, sym, ap, Bool, true, false, [], ◌∷◌, ◌++◌, if◌then◌else◌, ◌==◌, arith, All,
  All-append, All-imp, Bool-cases, inl, inr, eq_of_==,
}
use hft_orderbook_benchmark.Containers.OrderList
use hft_orderbook_benchmark.Containers.OrderList.{Node, OrderList, push_back}
use hft_orderbook_benchmark.Containers.Ladder.{Ladder, before}
use hft_orderbook_benchmark.Resting.{flat, insert_node, erase_at, set_at}
use hft_orderbook_benchmark.Resting.Places.{
  erase_at-append, erase_at-skip, set_at-append, set_at-skip,
}
use hft_orderbook_benchmark.Resting.Levels.{
  insert_node-skip, insert_node_first, not_before_self, not_before, ne_of_before,
}

-- The keys come in the comparator's order, and a level holds its own price.
abbrev pub IsKeyed : Bool → Ladder OrderList → Type 0
IsKeyed b [] = Unit
IsKeyed b ((p, ns) ∷ m) =
    All (λ n. n.order.price ≡ p) ns × All (λ l. before b p l.0 ≡ true) m × IsKeyed b m

-- The level at a key changed by `f`.
abbrev pub adjust : ℕ → (OrderList → OrderList) → Ladder OrderList → Ladder OrderList
adjust p f [] = []
adjust p f ((q, ns) ∷ m) = if p == q then (q, f ns) ∷ m else (q, ns) ∷ adjust p f m

-- Whether the key is there.
abbrev pub has_key : ℕ → Ladder OrderList → Bool
has_key p [] = false
has_key p ((q, ns) ∷ m) = if p == q then true else has_key p m

All-flat :
    (b : Bool) (p : ℕ) (m : Ladder OrderList)
    → All (λ l. before b p l.0 ≡ true) m
    → IsKeyed b m
    → All (λ n. before b p n.order.price ≡ true) (flat m)
All-flat b p [] h v = tt
All-flat b p ((q, ns) ∷ m) h v =
    All-append (λ n. before b p n.order.price ≡ true) ns (flat m)
      (All-imp (λ n. n.order.price ≡ q) (λ n. before b p n.order.price ≡ true) ns (λ n e. rw e h.0)
        v.0)
      (All-flat b p m h.1 v.2)

-- The prices of a level, against a price before it and its own.
All-price :
    (P : ℕ → Type 0) (q : ℕ) (ns : OrderList)
    → P q
    → All (λ n. n.order.price ≡ q) ns
    → All (λ n. P n.order.price) ns
All-price P q ns h = All-imp (λ n. n.order.price ≡ q) (λ n. P n.order.price) ns (λ n e. rw e h)

-- Where the key is not the first, it is behind it.
before_key :
    (b : Bool) (p q : ℕ) (m : Ladder OrderList)
    → All (λ l. before b q l.0 ≡ true) m
    → has_key p m ≡ true
    → before b q p ≡ true
before_key b p q ((r, ns) ∷ m) h k = elim (Bool-cases (p == r)) [
  | inl e ↦ rw (eq_of_== p r e) h.0
  | inr e ↦ before_key b p q m h.1 (ground (arith, e, k))
]
before_key b p q [] h k = absurd (cc)

-- An order at the end of the level of its price stands behind all of that price and before all behind.
pub flat-push_back :
    (b : Bool) (n : Node) (m : Ladder OrderList)
    → IsKeyed b m
    → has_key n.order.price m ≡ true
    → flat (adjust n.order.price (push_back n) m) ≡ insert_node b n (flat m)
flat-push_back b n [] v h = absurd (cc)
flat-push_back b n ((q, ns) ∷ m) v h = elim (Bool-cases (n.order.price == q)) [
  | inl e ↦
      let s = eq_of_== n.order.price q e in
      rw
        (
          e,
          insert_node-skip b n ns (flat m) (
              All-price (λ r. before b n.order.price r ≡ false) q ns (rw s (not_before_self b q))
                v.0),
          insert_node_first b n (flat m) (rw s (All-flat b q m v.1 v.2)),
        )
        (append_assoc ns (n ∷ []) (flat m))
  | inr e ↦
      let k : has_key n.order.price m ≡ true = ground (arith, e, h) in
      rw
        (
          e,
          insert_node-skip b n ns (flat m) (
              All-price (λ r. before b n.order.price r ≡ false) q ns
                (not_before b q n.order.price (before_key b n.order.price q m v.1 k)) v.0),
        )
        (ap (λ r. ns ++ r) (flat-push_back b n m v.2 k))
]

-- Behind the level of `p` there is no other order of that price.
All-flat-ne :
    (b : Bool) (p : ℕ) (m : Ladder OrderList)
    → All (λ l. before b p l.0 ≡ true) m
    → IsKeyed b m
    → All (λ n. (n.order.price == p) ≡ false) (flat m)
All-flat-ne b p m h v =
    All-imp (λ n. before b p n.order.price ≡ true) (λ n. (n.order.price == p) ≡ false) (flat m)
      (λ n k. ground (arith, ne_of_before b p n.order.price k)) (All-flat b p m h v)

pub flat-erase :
    (b : Bool) (p c : ℕ) (m : Ladder OrderList)
    → IsKeyed b m
    → flat (adjust p (OrderList.erase c) m) ≡ erase_at p c (flat m)
flat-erase b p c [] v = unfold erase_at in refl
flat-erase b p c ((q, ns) ∷ m) v = elim (Bool-cases (p == q)) [
  | inl e ↦
      let s = eq_of_== p q e in
      rw e (sym (erase_at-append p c ns (flat m) (rw s v.0) (All-flat-ne b p m (rw s v.1) v.2)))
  | inr e ↦
      rw
        (
          e,
          erase_at-skip p c ns (flat m)
              (All-price (λ r. (r == p) ≡ false) q ns (ground (arith, e)) v.0),
        )
        (ap (λ r. ns ++ r) (flat-erase b p c m v.2))
]

pub flat-set_quantity :
    (b : Bool) (p c q : ℕ) (m : Ladder OrderList)
    → IsKeyed b m
    → flat (adjust p (OrderList.set_quantity c q) m) ≡ set_at p c q (flat m)
flat-set_quantity b p c q [] v = unfold set_at in refl
flat-set_quantity b p c q ((r, ns) ∷ m) v = elim (Bool-cases (p == r)) [
  | inl e ↦
      let s = eq_of_== p r e in
      rw e (sym (set_at-append p c q ns (flat m) (rw s v.0) (All-flat-ne b p m (rw s v.1) v.2)))
  | inr e ↦
      rw
        (
          e,
          set_at-skip p c q ns (flat m)
              (All-price (λ z. (z == p) ≡ false) r ns (ground (arith, e)) v.0),
        )
        (ap (λ z. ns ++ z) (flat-set_quantity b p c q m v.2))
]

All-adjust :
    (P : ℕ → Type 0) (p : ℕ) (f : OrderList → OrderList) (m : Ladder OrderList)
    → All (λ l. P l.0) m
    → All (λ l. P l.0) (adjust p f m)
All-adjust P p f [] h = tt
All-adjust P p f ((q, ns) ∷ m) h = ground (arith, All-adjust P p f m h.1)

-- A change that keeps the prices of the level keeps the order of the levels.
pub adjust-IsKeyed :
    (b : Bool) (p : ℕ) (f : OrderList → OrderList) (m : Ladder OrderList)
    → ((ns : OrderList) → All (λ n. n.order.price ≡ p) ns → All (λ n. n.order.price ≡ p) (f ns))
    → IsKeyed b m
    → IsKeyed b (adjust p f m)
adjust-IsKeyed b p f [] h v = tt
adjust-IsKeyed b p f ((q, ns) ∷ m) h v = elim (Bool-cases (p == q)) [
  | inl e ↦ let s = eq_of_== p q e in rw e (rw s at (h ns (rw s v.0)), v.1, v.2)
  | inr e ↦
      rw e (v.0, All-adjust (λ r. before b q r ≡ true) p f m v.1, adjust-IsKeyed b p f m h v.2)
]

-- The same for a level that stands last.
pub adjust-append :
    (p : ℕ) (f : OrderList → OrderList) (m k : Ladder OrderList)
    → has_key p m ≡ false
    → adjust p f (m ++ k) ≡ m ++ adjust p f k
adjust-append p f [] k h = refl
adjust-append p f ((q, ns) ∷ m) k h = elim (Bool-cases (p == q)) [
  | inl e ↦ absurd (ground (arith, e, h))
  | inr e ↦ rw e (ap (◌∷◌ (q, ns)) (adjust-append p f m k (ground (arith, e, h))))
]

pub adjust-append_other :
    (p q : ℕ) (f : OrderList → OrderList) (m : Ladder OrderList) (ns : OrderList)
    → (p == q) ≡ false
    → adjust p f (m ++ (q, ns) ∷ []) ≡ adjust p f m ++ (q, ns) ∷ []
adjust-append_other p q f [] ns h = rw h refl
adjust-append_other p q f ((r, xs) ∷ m) ns h = elim (Bool-cases (p == r)) [
  | inl e ↦ rw e refl
  | inr e ↦ rw e (ap (◌∷◌ (r, xs)) (adjust-append_other p q f m ns h))
]
