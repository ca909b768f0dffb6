-- ===== src/PoolBook/Requantified.antt =====
-- src/orderbooks/pool_order_book.cpp: a slot whose order gets another quantity.
use mathlib.Core.Option
use hft_orderbook_benchmark.Common.{
  ℕ, ◌≡◌, ◌≢◌, sym, ap, ◌∙◌, Bool, false, List, [], ◌∷◌, some, ◌==◌, arith, All, Bool-cases, inl,
  inr, eq_of_==, ne_of_==, get_elem?, set,
}
use hft_orderbook_benchmark.Core.{Order}
use hft_orderbook_benchmark.Containers.OrderList
use hft_orderbook_benchmark.Containers.OrderList.{Node, OrderList}
use hft_orderbook_benchmark.Containers.Ladder.{Ladder}
use hft_orderbook_benchmark.Resting.{IsLadder}
use hft_orderbook_benchmark.MapBook.{write_quantity}
use hft_orderbook_benchmark.PoolBook.{OrderNode, PoolLimitLevel, null_idx, requantified}
use hft_orderbook_benchmark.PoolBook.Slots.{get_elem-set_same, get_elem-set_other}
use hft_orderbook_benchmark.PoolBook.Links.{IsLinked, IsLinked-set, IsStored, IsLinked-IsStored}
use hft_orderbook_benchmark.PoolBook.Levels.{IsLevels, ne_behind}
use hft_orderbook_benchmark.PoolBook.Append.{apart_price}

cells-set_quantity :
    (j c q : ℕ) (xs : List Node)
    → All (λ k. j ≢ k.cell) xs
    → All (λ k. j ≢ k.cell) (OrderList.set_quantity c q xs)
unfolding OrderList.set_quantity
cells-set_quantity j c q [] a = tt
cells-set_quantity j c q (x ∷ xs) a = elim (Bool-cases (x.cell == c)) [
  | inl e ↦ rw e a
  | inr e ↦ rw e (a.0, cells-set_quantity j c q xs a.1)
]

IsLinked-set_quantity :
    (ns : List OrderNode) (c q : ℕ) (w : OrderNode) (prev i : ℕ) (xs : List Node) (tail : ℕ)
    → get_elem? ns c ≡ some w
    → IsLinked ns prev i xs tail
    → IsLinked (set ns c (requantified q w)) prev i (OrderList.set_quantity c q xs) tail
unfolding OrderList.set_quantity
IsLinked-set_quantity ns c q w prev i [] tail g v = v
IsLinked-set_quantity ns c q w prev i (n ∷ ms) tail g v =
    let (e, b, d, (m, h, o, p, r)) = v in
    elim (Bool-cases (n.cell == c)) [
      | inl z ↦
          let y : n.cell ≡ c = eq_of_== n.cell c z in
          let u : m ≡ w = ground (arith, h, g, ap (λ (j : ℕ). get_elem? ns j) y) in
          let ns' = set ns c (requantified q w) in
          let at : get_elem? ns' n.cell ≡ some (requantified q w) =
            ap (λ (j : ℕ). get_elem? ns' j) y ∙ get_elem-set_same ns c w (requantified q w) g in
          let held : (requantified q w).order ≡ some (record (n.order) { quantity = q }) =
            ap (Option.map {A = Order} (λ x. record x { quantity = q }))
              (ap (λ (s : OrderNode). s.order) (sym u) ∙ o) in
          let back : w.prev ≡ prev = ap (λ (s : OrderNode). s.prev) (sym u) ∙ p in
          let rest : IsLinked ns' n.cell w.next ms tail =
            IsLinked-set ns c (requantified q w) n.cell w.next ms tail (rw y at d) (rw u at r) in
          rw z (e, b, d, (requantified q w, at, held, back, rest))
      | inr z ↦ rw z (
        e,
        b,
        cells-set_quantity n.cell c q ms d,
        (
          m,
          get_elem-set_other ns c n.cell (requantified q w) (λ y. ne_of_== n.cell c z (sym y)) ∙ h,
          o,
          p,
          IsLinked-set_quantity ns c q w n.cell m.next ms tail g r,
        ),
      )
    ]

-- Levels of other prices stay.
others-IsLevels :
    (ns : List OrderNode) (b : Bool) (t : Node) (w : OrderNode) (m : Ladder PoolLimitLevel)
    (ms : Ladder OrderList)
    → IsStored ns t
    → IsLevels ns m ms
    → IsLadder b ms
    → All (λ x. (t.order.price == x.0) ≡ false) ms
    → IsLevels (set ns t.cell w) m ms
others-IsLevels ns b t w [] [] s v l a = tt
others-IsLevels ns b t w [] (x ∷ ms) s v l a = elim v [ ]
others-IsLevels ns b t w (x ∷ m) [] s v l a = elim v [ ]
others-IsLevels ns b t w ((p, k) ∷ m) ((r, xs) ∷ ms) s v l a =
    let (e, f, y) = v in
    let stored = IsLinked-IsStored ns null_idx k.head xs k.tail f.1 in
    (
      e,
      (
        f.0,
        IsLinked-set ns t.cell w null_idx k.head xs k.tail
            (apart_price ns r t xs s (ne_of_== t.order.price r a.0) stored l.1) f.1,
      ),
      others-IsLevels ns b t w m ms s y l.3 a.1,
    )

-- The levels when the order in the slot of the node `t` gets another quantity.
pub IsLevels-write_quantity :
    (ns : List OrderNode) (b : Bool) (q : ℕ) (w : OrderNode) (t : Node) (m : Ladder PoolLimitLevel)
    (ms : Ladder OrderList)
    → get_elem? ns t.cell ≡ some w
    → IsStored ns t
    → IsLevels ns m ms
    → IsLadder b ms
    → IsLevels (set ns t.cell (requantified q w)) m (write_quantity t.order.price t.cell q ms)
unfolding write_quantity
IsLevels-write_quantity ns b q w t [] [] g s v l = tt
IsLevels-write_quantity ns b q w t [] (x ∷ ms) g s v l = elim v [ ]
IsLevels-write_quantity ns b q w t (x ∷ m) [] g s v l = elim v [ ]
IsLevels-write_quantity ns b q w t ((p, k) ∷ m) ((r, xs) ∷ ms) g s v l =
    let (e, f, y) = v in
    let ns' = set ns t.cell (requantified q w) in
    let stored = IsLinked-IsStored ns null_idx k.head xs k.tail f.1 in
    elim (Bool-cases (t.order.price == r)) [
      | inl z ↦
          let same = eq_of_== t.order.price r z in
          rw z (
            e,
            (f.0, IsLinked-set_quantity ns t.cell q w null_idx k.head xs k.tail g f.1),
            others-IsLevels ns b t (requantified q w) m ms s y l.3
                (ne_behind b t.order.price ms (rw same l.2)),
          )
      | inr z ↦ rw z (
        e,
        (
          f.0,
          IsLinked-set ns t.cell (requantified q w) null_idx k.head xs k.tail
              (apart_price ns r t xs s (ne_of_== t.order.price r z) stored l.1) f.1,
        ),
        IsLevels-write_quantity ns b q w t m ms g s y l.3,
      )
    ]
