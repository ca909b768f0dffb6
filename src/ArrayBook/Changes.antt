-- ===== src/ArrayBook/Changes.antt =====
-- src/orderbooks/array_order_book.cpp: one level of a side changed, with its flag and the cached price.
use hft_orderbook_benchmark.Common.{
  ℕ, ◌+◌, ◌*◌, ◌<◌, ◌≡◌, ◌≢◌, refl, sym, ap, ◌∙◌, Bool, true, false, List, [], ◌∷◌, if◌then◌else◌,
  arith, All, ◌==◌, ne_of_==, Bool-cases, All-append, inl, inr, length, is_empty, get_or, set,
}
use hft_orderbook_benchmark.Core.{Order}
use hft_orderbook_benchmark.Contract
use hft_orderbook_benchmark.Containers.OrderList
use hft_orderbook_benchmark.Containers.OrderList.{Node, OrderList, push_back}
use hft_orderbook_benchmark.Containers.Ladder.{before}
use hft_orderbook_benchmark.Resting.{orders, flat, insert_node, erase_at, set_at}
use hft_orderbook_benchmark.Resting.Orders.{orders-insert_node}
use hft_orderbook_benchmark.Resting.Keyed.{flat-push_back, flat-erase, flat-set_quantity}
use hft_orderbook_benchmark.Matching.{less, pop_filled}
use hft_orderbook_benchmark.Matching.Fills.{pop_filled-All}
use hft_orderbook_benchmark.ArrayBook.Sides.{
  ladder, IsPriced, ladder-set, ladder-has_key, ladder-IsKeyed, set-IsPriced, get_or-IsPriced,
}
use hft_orderbook_benchmark.ArrayBook.Scans.{
  flags, scan, found, best-scan, flags-set, flags-same, length-set,
}
use hft_orderbook_benchmark.ArrayBook.Clearing.{scan-set}
use hft_orderbook_benchmark.ArrayBook.View.{IsSide}

best-insert :
    (b : Bool) (d : ℕ) (o : Order) (os : List Order)
    → before b o.price d ≡ true
    → Contract.best d (Contract.insert b o os)
      ≡ (if before b o.price (Contract.best d os) then o.price else Contract.best d os)
unfolding Contract.best Contract.insert
best-insert b d o [] h = rw h refl
best-insert b d o (x ∷ os) h = ground arith

push_back_filled : (n : Node) (ns : OrderList) → is_empty (push_back n ns) ≡ false
push_back_filled n [] = refl
push_back_filled n (x ∷ ns) = refl

set_quantity_empty :
    (c q : ℕ) (ns : OrderList) → is_empty ns ≡ is_empty (OrderList.set_quantity c q ns)
unfolding OrderList.set_quantity
set_quantity_empty c q [] = refl
set_quantity_empty c q (n ∷ ns) = ground arith

nil_of_is_empty : (ns : OrderList) → is_empty ns ≡ true → ns ≡ []
nil_of_is_empty [] h = refl
nil_of_is_empty (n ∷ ns) h = absurd (cc)

pub erase_filled :
    (c : ℕ) (ns : OrderList) → is_empty (OrderList.erase c ns) ≡ false → is_empty ns ≡ false
unfolding OrderList.erase
erase_filled c [] h = h
erase_filled c (n ∷ ns) h = refl

erase-price :
    (p c : ℕ) (ns : OrderList)
    → All (λ n. n.order.price ≡ p) ns
    → All (λ n. n.order.price ≡ p) (OrderList.erase c ns)
unfolding OrderList.erase
erase-price p c [] v = tt
erase-price p c (n ∷ ns) v = ground (arith, erase-price p c ns v.1)

set_quantity-price :
    (p c q : ℕ) (ns : OrderList)
    → All (λ n. n.order.price ≡ p) ns
    → All (λ n. n.order.price ≡ p) (OrderList.set_quantity c q ns)
unfolding OrderList.set_quantity
set_quantity-price p c q [] v = tt
set_quantity-price p c q (n ∷ ns) v = ground (arith, set_quantity-price p c q ns v.1)

module _ {b : Bool} {d p t n best : ℕ} {ls : List OrderList} {active : List Bool} (pos : 0 < t)
    (s : IsSide b d p t n ls active best) (i : ℕ) where
  -- The best price of the resting orders is the cached one.
  pub best_price : best ≡ Contract.best d (orders (flat (ladder b p t ls)))
  best_price = s.cached ∙ rw (s.marked, ← s.sized) (sym (best-scan b d p t ls s.priced))

  -- A level that stays as empty as it was.
  pub kept-IsSide :
      (ns : OrderList)
      → All (λ m. m.order.price ≡ p + i * t) ns
      → is_empty (get_or ls i []) ≡ is_empty ns
      → IsSide b d p t n (set ls i ns) active best
  kept-IsSide ns v h = record {
    sized = length-set ls i ns ∙ s.sized;
    priced = set-IsPriced p t i ns ls v s.priced;
    marked = s.marked ∙ sym (flags-same ls i ns h);
    cached = s.cached;
  }

  -- A level that becomes empty, and a new scan.
  pub cleared-IsSide :
      IsSide b d p t n
        (set ls i [])
        (set active i false)
        (found d p t (scan b n (set active i false)))
  cleared-IsSide = record {
    sized = length-set ls i [] ∙ s.sized;
    priced = set-IsPriced p t i [] ls tt s.priced;
    marked = ap (λ fs. set fs i false) s.marked ∙ sym (flags-set ls i []);
    cached = refl;
  }

  -- The same where the level is not the best, without a scan.
  pub cleared_other-IsSide :
      best ≢ p + i * t → IsSide b d p t n (set ls i []) (set active i false) best
  cleared_other-IsSide h = record {
    sized = length-set ls i [] ∙ s.sized;
    priced = set-IsPriced p t i [] ls tt s.priced;
    marked = ap (λ fs. set fs i false) s.marked ∙ sym (flags-set ls i []);
    cached =
        s.cached
        ∙ ap (found d p t) (sym (scan-set b n i active (λ e. h (s.cached ∙ ap (found d p t) e))));
  }

  module _ (h : i < n) where
    bound : i < length ls
    bound = omega (arith, s.sized, h)

    pub flat_pushed :
        (m : Node)
        → m.order.price ≡ p + i * t
        → flat (ladder b p t (set ls i (push_back m (get_or ls i []))))
          ≡ insert_node b m (flat (ladder b p t ls))
    flat_pushed m e =
        rw (ladder-set t pos b p i (push_back m) ls bound, ← e)
          (flat-push_back b m (ladder b p t ls) (ladder-IsKeyed b p t ls pos s.priced)
            (rw e (ladder-has_key t pos b p i ls bound)))

    pub flat_erased :
        (c : ℕ)
        → flat (ladder b p t (set ls i (OrderList.erase c (get_or ls i []))))
          ≡ erase_at (p + i * t) c (flat (ladder b p t ls))
    flat_erased c =
        rw (ladder-set t pos b p i (OrderList.erase c) ls bound)
          (flat-erase b (p + i * t) c (ladder b p t ls) (ladder-IsKeyed b p t ls pos s.priced))

    pub flat_requantified :
        (c q : ℕ)
        → flat (ladder b p t (set ls i (OrderList.set_quantity c q (get_or ls i []))))
          ≡ set_at (p + i * t) c q (flat (ladder b p t ls))
    flat_requantified c q = rw (ladder-set t pos b p i (OrderList.set_quantity c q) ls bound) (
        flat-set_quantity b (p + i * t) c q (ladder b p t ls)
          (ladder-IsKeyed b p t ls pos s.priced))

    -- A new order at the end of its level.
    pub pushed-IsSide :
        (m : Node)
        → m.order.price ≡ p + i * t
        → before b m.order.price d ≡ true
        → IsSide b d p t n
            (set ls i (push_back m (get_or ls i [])))
            (set active i true)
            (if before b m.order.price best then m.order.price else best)
    pushed-IsSide m e w =
        let ns = push_back m (get_or ls i []) in
        let v : IsPriced p t (set ls i ns) =
          set-IsPriced p t i ns ls
            (All-append (λ x. x.order.price ≡ p + i * t) (get_or ls i []) (m ∷ [])
              (get_or-IsPriced p t i ls s.priced) (e, tt))
            s.priced in
        let g : set active i true ≡ flags (set ls i ns) =
          rw (flags-set ls i ns, push_back_filled m (get_or ls i []), s.marked) refl in
        let z : length (set ls i ns) ≡ n = length-set ls i ns ∙ s.sized in
        record {
          sized = z;
          priced = v;
          marked = g;
          cached = rw (best_price) (
              sym (best-insert b d m.order (orders (flat (ladder b p t ls))) w)
              ∙ ap (Contract.best d) (
                  sym
                    (ap orders (flat_pushed m e) ∙ orders-insert_node b m (flat (ladder b p t ls))))
              ∙ best-scan b d p t (set ls i ns) v
              ∙ rw (z, g) refl);
        }

    -- `iterator->quantity = q`.
    pub requantified-IsSide :
        (c q : ℕ)
        → IsSide b d p t n (set ls i (OrderList.set_quantity c q (get_or ls i []))) active best
    requantified-IsSide c q =
        kept-IsSide (OrderList.set_quantity c q (get_or ls i []))
          (set_quantity-price (p + i * t) c q (get_or ls i []) (get_or-IsPriced p t i ls s.priced))
          (set_quantity_empty c q (get_or ls i []))

    -- The front order filled by `q`, and a new scan where the level becomes empty.
    pub filled-IsSide :
        (q : ℕ) (m : Node) (ns : OrderList)
        → get_or ls i [] ≡ m ∷ ns
        → let xs = pop_filled (less q m) ns in
          IsSide b d p t n
            (set ls i xs)
            (if is_empty xs then set active i false else active)
            (if is_empty xs then found d p t (scan b n (set active i false)) else best)
    filled-IsSide q m ns e =
        let xs = pop_filled (less q m) ns in
        let v : All (λ x. x.order.price ≡ p + i * t) (m ∷ ns) =
          rw e at (get_or-IsPriced p t i ls s.priced) in
        elim (Bool-cases (is_empty xs)) [
          | inl g ↦ rw (g, nil_of_is_empty xs g) cleared-IsSide
          | inr g ↦ rw g (kept-IsSide xs (pop_filled-All (p + i * t) q m ns v.0 v.1) (rw e (sym g)))
        ]

    -- `erase(iterator)`, and the flag and the cached price where the level becomes empty.
    pub erased-IsSide :
        (c : ℕ)
        → let ns = OrderList.erase c (get_or ls i []) in
          IsSide b d p t n (set ls i ns) (if is_empty ns then set active i false else active) (
            if is_empty ns
            then (if p + i * t == best then found d p t (scan b n (set active i false)) else best)
            else best)
    erased-IsSide c =
        let ns = OrderList.erase c (get_or ls i []) in
        elim (Bool-cases (is_empty ns)) [
          | inl h ↦ elim (Bool-cases (p + i * t == best)) [
            | inl e ↦ rw (h, e, nil_of_is_empty ns h) cleared-IsSide
            | inr e ↦
                rw (h, e, nil_of_is_empty ns h)
                  (cleared_other-IsSide (λ w. ne_of_== (p + i * t) best e (sym w)))
          ]
          | inr h ↦ rw h (
              kept-IsSide ns
                (erase-price (p + i * t) c (get_or ls i []) (get_or-IsPriced p t i ls s.priced))
                (erase_filled c (get_or ls i []) h ∙ sym h))
        ]
