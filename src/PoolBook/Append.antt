-- ===== src/PoolBook/Append.antt =====
-- src/orderbooks/pool_order_book.cpp: `appendToLevel`.
use hft_orderbook_benchmark.Common.{
  ℕ, ◌<◌, ◌≡◌, ◌≢◌, ◌⊎◌, refl, sym, ap, ◌∙◌, Bool, false, List, [], ◌∷◌, Option, none, some, ◌==◌,
  arith, All, All-imp, All-append_left, All-append_right, inl, inr, set, get_elem?,
}
use hft_orderbook_benchmark.Core.{Order}
use hft_orderbook_benchmark.Containers.OrderList.{Node, OrderList, push_back}
use hft_orderbook_benchmark.Containers.Ladder
use hft_orderbook_benchmark.Containers.Ladder.{Ladder, before}
use hft_orderbook_benchmark.Resting.{flat, IsLadder}
use hft_orderbook_benchmark.PoolBook.{OrderNode, PoolLimitLevel, null_idx, ok, append_to_level}
use hft_orderbook_benchmark.PoolBook.Slots.{
  IsChain, IsChain-set, get_elem-set_same, get_elem-set_other,
}
use hft_orderbook_benchmark.PoolBook.Links.{
  IsLinked, IsLinked-set, IsLinked-append, IsStored, IsLinked-IsStored, last, last-All, tail-last,
  same_order, linked_behind,
}
use hft_orderbook_benchmark.PoolBook.Levels.{
  IsLevel, IsLevels, IsFramed, IsOtherwise, SameLevel, no_level, same_level, find-SameLevel,
  IsLevels-update,
}

-- The slots that were written: that of the node, and of another one that stood at the end of its level.
pub record Written (ns ns' : List OrderNode) (p : ℕ) (P : Node → Type 0) (n : Node) : Type 0 where
  pub end : ℕ
  pub ending :
      (end ≡ n.cell) ⊎ ((t : Node) × (end ≡ t.cell) × IsStored ns t × (t.order.price ≡ p) × P t)
  pub framed :
      (xs : List Node)
      → All (λ k. n.cell ≢ k.cell) xs
      → All (λ k. end ≢ k.cell) xs
      → IsFramed ns ns' xs
  pub chained :
      (i : ℕ) (js : List ℕ)
      → All (λ j. n.cell ≢ j) js
      → All (λ j. end ≢ j) js
      → IsChain ns i js
      → IsChain ns' i js

-- What `appendToLevel` returns.
pub record Appended (ns : List OrderNode) (b : Bool) (m : Ladder PoolLimitLevel)
    (ms : Ladder OrderList) (P : Node → Type 0) (n : Node) : Type 0 where
  pub ladder : Ladder PoolLimitLevel
  pub slots : List OrderNode
  pub returns : append_to_level b m n.cell n.order.price ns ≡ ok (ladder, slots)
  pub levels : IsLevels slots ladder (Ladder.update b n.order.price [] (push_back n) ms)
  pub written : Written ns slots n.order.price P n

pub All-both :
    (P Q : Node → Type 0) (xs : List Node) → All P xs → All Q xs → All (λ k. P k × Q k) xs
All-both P Q [] a c = tt
All-both P Q (x ∷ xs) a c = ((a.0, c.0), All-both P Q xs a.1 c.1)

pub apart_price :
    (ns : List OrderNode) (q : ℕ) (t : Node) (xs : List Node)
    → IsStored ns t
    → t.order.price ≢ q
    → All (IsStored ns) xs
    → All (λ k. k.order.price ≡ q) xs
    → All (λ k. t.cell ≢ k.cell) xs
apart_price ns q t [] s h a c = tt
apart_price ns q t (k ∷ xs) s h a c = (
  (λ e. h (ap (λ (o : Order). o.price) (same_order ns t k s a.0 e) ∙ c.0)),
  apart_price ns q t xs s h a.1 c.1,
)

-- A level of another price has neither slot.
level_apart :
    (ns ns' : List OrderNode) (p q : ℕ) (P : Node → Type 0) (n : Node) (xs : List Node)
    → (z : Written ns ns' p P n) → (p == q) ≡ false
    → All (IsStored ns) xs
    → All (λ k. k.order.price ≡ q) xs
    → All (λ k. n.cell ≢ k.cell) xs
    → All (λ k. z.end ≢ k.cell) xs
level_apart ns ns' p q P n xs z h a c f = elim z.ending [
  | inl e ↦ rw e f
  | inr (t, e, s, r, u) ↦ rw e (apart_price ns q t xs s (λ y. ground (arith, h, y, r)) a c)
]

Written-IsOtherwise :
    (ns ns' : List OrderNode) (b : Bool) (p : ℕ) (P : Node → Type 0) (n : Node)
    (m : Ladder PoolLimitLevel) (ms : Ladder OrderList)
    → IsLevels ns m ms
    → IsLadder b ms
    → All (λ k. n.cell ≢ k.cell) (flat ms)
    → Written ns ns' p P n
    → IsOtherwise ns ns' p ms
Written-IsOtherwise ns ns' b p P n [] [] v w f z = tt
Written-IsOtherwise ns ns' b p P n [] (x ∷ ms) v w f z = elim v [ ]
Written-IsOtherwise ns ns' b p P n (x ∷ m) [] v w f z = elim v [ ]
Written-IsOtherwise ns ns' b p P n ((r, l) ∷ m) ((q, xs) ∷ ms) v w f z =
    let (e, (g, y), t) = v in
    let here = All-append_left (λ k. n.cell ≢ k.cell) xs (flat ms) f in
    let stored = IsLinked-IsStored ns null_idx l.head xs l.tail y in
    (
      (λ h. z.framed xs here (level_apart ns ns' p q P n xs z h stored w.1 here)),
      Written-IsOtherwise ns ns' b p P n m ms t w.3
          (All-append_right (λ k. n.cell ≢ k.cell) xs (flat ms) f) z,
    )

module _ (ns : List OrderNode) (b : Bool) (m : Ladder PoolLimitLevel) (ms : Ladder OrderList)
    (P : Node → Type 0) (n : Node) (w : OrderNode) (v : IsLevels ns m ms) (ladder : IsLadder b ms)
    (fresh : All (λ k. n.cell ≢ k.cell) (flat ms)) (below : n.cell < null_idx)
    (here : get_elem? ns n.cell ≡ some w) (stored : w.order ≡ some n.order) where
  -- The first order of a price.
  append_first :
      Ladder.find n.order.price m ≡ none
      → Ladder.find n.order.price ms ≡ none
      → Appended ns b m ms P n
  unfolding append_to_level
  append_first e f =
      let ns' = set ns n.cell (record w { prev = null_idx; next = null_idx }) in
      let z : Written ns ns' n.order.price P n = record {
        end = n.cell;
        ending = inl refl;
        framed = λ xs a c prev i tail.
            IsLinked-set ns n.cell (record w { prev = null_idx; next = null_idx }) prev i xs tail a;
        chained = λ i js a c.
            IsChain-set ns n.cell i (record w { prev = null_idx; next = null_idx }) js a;
      } in
      let l : PoolLimitLevel = record { price = n.order.price; head = n.cell; tail = n.cell } in
      let seen =
        get_elem-set_same ns n.cell w (record w { prev = null_idx; next = null_idx }) here in
      let linked : IsLinked ns' null_idx n.cell (n ∷ []) n.cell = (
        refl,
        below,
        tt,
        (record w { prev = null_idx; next = null_idx }, seen, stored, refl, (refl, refl)),
      ) in
      let d : PoolLimitLevel = record { price = n.order.price; head = null_idx; tail = null_idx } in
      record {
        ladder = Ladder.update b n.order.price d (λ z. l) m;
        slots = ns';
        returns = rw (e, append_to_level, here) refl;
        levels =
            IsLevels-update ns ns' b n.order.price d l n m ms v ladder
              (Written-IsOtherwise ns ns' b n.order.price P n m ms v ladder fresh z)
              (rw f (refl, linked));
        written = z;
      }

  -- An order behind others of its price.
  append_behind :
      (l : PoolLimitLevel) (x : Node) (xs : List Node)
      → Ladder.find n.order.price m ≡ some l
      → Ladder.find n.order.price ms ≡ some (x ∷ xs)
      → IsLevel ns n.order.price l (x ∷ xs)
      → All (λ k. k.order.price ≡ n.order.price) (x ∷ xs)
      → All P (x ∷ xs)
      → All (λ k. n.cell ≢ k.cell) (x ∷ xs)
      → Appended ns b m ms P n
  unfolding append_to_level
  append_behind l x xs e f g c r a =
      let (u, at, linked) =
        IsLinked-append ns null_idx l.head x xs l.tail n w g.1 a below here stored in
      let ns' = linked_behind l.tail n.cell u w ns in
      let t = last x xs in
      let end = tail-last ns null_idx l.head x xs l.tail g.1 in
      let head_used : (l.head == null_idx) ≡ false =
        let h = g.1.0 in let k = g.1.1 in ground (arith, h, k) in
      let other : l.tail ≢ n.cell = λ y. last-All (λ k. n.cell ≢ k.cell) x xs a (sym y ∙ end) in
      let kept : get_elem? (set ns l.tail (record u { next = n.cell })) n.cell ≡ some w =
        get_elem-set_other ns l.tail n.cell (record u { next = n.cell }) other ∙ here in
      let z : Written ns ns' n.order.price P n = record {
        end = l.tail;
        ending = inr (
          t,
          end,
          last-All (IsStored ns) x xs (IsLinked-IsStored ns null_idx l.head (x ∷ xs) l.tail g.1),
          last-All (λ k. k.order.price ≡ n.order.price) x xs c,
          last-All P x xs r,
        );
        framed = λ ys d y prev i tail q.
            IsLinked-set (set ns l.tail (record u { next = n.cell })) n.cell
              (record w { prev = l.tail; next = null_idx }) prev i ys tail d
              (IsLinked-set ns l.tail (record u { next = n.cell }) prev i ys tail y q);
        chained = λ i js d y q.
            IsChain-set (set ns l.tail (record u { next = n.cell })) n.cell i
              (record w { prev = l.tail; next = null_idx }) js d
              (IsChain-set ns l.tail i (record u { next = n.cell }) js y q);
      } in
      let d : PoolLimitLevel = record l { price = n.order.price } in
      let l' : PoolLimitLevel = record l { price = n.order.price; tail = n.cell } in
      record {
        ladder = Ladder.update b n.order.price d (λ z. l') m;
        slots = ns';
        returns = rw (e, append_to_level, head_used, at, kept) refl;
        levels =
            IsLevels-update ns ns' b n.order.price d l' n m ms v ladder
              (Written-IsOtherwise ns ns' b n.order.price P n m ms v ladder fresh z)
              (rw f (refl, linked));
        written = z;
      }

  append_same :
      (o : Option PoolLimitLevel) (ys : Option OrderList)
      → Ladder.find n.order.price m ≡ o
      → Ladder.find n.order.price ms ≡ ys
      → SameLevel ns n.order.price (λ k. P k × (n.cell ≢ k.cell)) o ys
      → Appended ns b m ms P n
  append_same none none e f no_level = append_first e f
  append_same none (some ys) e f s = elim s [ ]
  append_same (some l) none e f s = elim s [ ]
  append_same (some l) (some []) e f s = elim s [ ]
  append_same (some l) (some (x ∷ xs)) e f (same_level g c r) =
      append_behind l x xs e f g c
        (All-imp (λ k. P k × (n.cell ≢ k.cell)) P (x ∷ xs) (λ k h. h.0) r)
        (All-imp (λ k. P k × (n.cell ≢ k.cell)) (λ k. n.cell ≢ k.cell) (x ∷ xs) (λ k h. h.1) r)

  -- `appendToLevel` links a slot that is in no level of the side behind the last order of its price.
  pub append_to_level-Appended : All P (flat ms) → Appended ns b m ms P n
  append_to_level-Appended a =
      append_same (Ladder.find n.order.price m) (Ladder.find n.order.price ms) refl refl (
        find-SameLevel ns b n.order.price (λ k. P k × (n.cell ≢ k.cell)) m ms v ladder
          (All-both P (λ k. n.cell ≢ k.cell) (flat ms) a fresh))
