-- ===== src/Matching/Indexed/Removal.antt =====
-- One side and the lookup, when an order leaves or takes a new quantity.
use hft_orderbook_benchmark.Common.{
  ℕ, ◌+◌, ◌≡◌, ◌≢◌, refl, ◌∙◌, Bool, true, false, ◌&&◌, List, [], ◌∷◌, some, ◌==◌, arith, All,
  length, Bool-cases, inl, inr, eq_of_==,
}
use hft_orderbook_benchmark.Core.{Order}
use hft_orderbook_benchmark.Containers.OrderList.{Node}
use hft_orderbook_benchmark.Containers.Index
use hft_orderbook_benchmark.Containers.Index.{Index, find-insert, find-erase}
use hft_orderbook_benchmark.Contract
use hft_orderbook_benchmark.Contract.{holds}
use hft_orderbook_benchmark.Resting.{orders, erase_at, set_at}
use hft_orderbook_benchmark.Resting.Orders.{All-erase_at}
use hft_orderbook_benchmark.Matching.{Location}
use hft_orderbook_benchmark.Matching.Indexed.Sides.{find_at, erase-All, holds_of_other}
use hft_orderbook_benchmark.Matching.Indexed.{place, IsIndexed, IsDistinct, Half, Cells, Marks}

-- The place of an id that the lookup gives is that of the node of that id.
pub Half-Marks :
    (b : Bool) (id : ℕ) (l : Location) (ns : List Node) (ix : Index Location) (next : ℕ)
    → ix.find id ≡ some l
    → l.is_buy ≡ b
    → All (IsIndexed b ix) ns
    → Cells ix next
    → Marks id l ns
Half-Marks b id l [] ix next h s a c = tt
Half-Marks b id l (n ∷ ns) ix next h s a c = (head a.0, Half-Marks b id l ns ix next h s a.1 c)
  where
    head :
        IsIndexed b ix n → (n.order.price == l.price && n.cell == l.iterator) ≡ (n.order.id == id)
    head i = ground (arith, c.injective n.order.id id (place b n) l i h, find_at ix n.order.id id)

pub orders-erase_at :
    (id : ℕ) (l : Location) (ns : List Node)
    → Marks id l ns
    → orders (erase_at l.price l.iterator ns) ≡ Contract.remove id (orders ns)
unfolding erase_at Contract.remove
orders-erase_at id l [] m = refl
orders-erase_at id l (n ∷ ns) m = ground (arith, orders-erase_at id l ns m.1)

pub orders-set_at :
    (id q : ℕ) (l : Location) (ns : List Node)
    → Marks id l ns
    → orders (set_at l.price l.iterator q ns) ≡ Contract.set_quantity id q (orders ns)
unfolding set_at Contract.set_quantity
orders-set_at id q l [] m = refl
orders-set_at id q l (n ∷ ns) m = ground (arith, orders-set_at id q l ns m.1)

holds-remove_ne :
    (id jd : ℕ) (os : List Order)
    → (jd == id) ≡ false
    → holds jd (Contract.remove id os) ≡ holds jd os
unfolding holds Contract.remove
holds-remove_ne id jd [] h = refl
holds-remove_ne id jd (o ∷ os) h = ground (arith, holds-remove_ne id jd os h)

holds_of_ne :
    (id : ℕ) (ns : List Node)
    → All (λ m. (m.order.id == id) ≡ false) ns
    → holds id (orders ns) ≡ false
unfolding holds
holds_of_ne id [] h = refl
holds_of_ne id (n ∷ ns) h = ground (arith, holds_of_ne id ns h.1)

holds-remove_self :
    (id : ℕ) (ns : List Node) → IsDistinct ns → holds id (Contract.remove id (orders ns)) ≡ false
unfolding holds Contract.remove
holds-remove_self id [] d = refl
holds-remove_self id (n ∷ ns) d = elim (Bool-cases (n.order.id == id)) [
  | inl e ↦ rw (e, Contract.remove) (holds_of_ne id ns (rw (← eq_of_== n.order.id id e) d.0))
  | inr e ↦ rw (e, Contract.remove, e) (holds-remove_self id ns d.1)
]

erase_at-IsDistinct : (p c : ℕ) (ns : List Node) → IsDistinct ns → IsDistinct (erase_at p c ns)
unfolding erase_at
erase_at-IsDistinct p c [] d = tt
erase_at-IsDistinct p c (n ∷ ns) d = ground (
  arith,
  erase_at-IsDistinct p c ns d.1,
  All-erase_at (λ m. (m.order.id == n.order.id) ≡ false) p c ns d.0,
)

-- Where the id rests, one node leaves.
pub length-erase_at :
    (id : ℕ) (l : Location) (ns : List Node)
    → Marks id l ns
    → holds id (orders ns) ≡ true
    → length (erase_at l.price l.iterator ns) + 1 ≡ length ns
unfolding erase_at holds
length-erase_at id l [] m h = cc
length-erase_at id l (n ∷ ns) m h = ground (arith, length-erase_at id l ns m.1)

-- The order of the id leaves its side, and the lookup with it.
pub erase-Half :
    (b : Bool) (id : ℕ) (l : Location) (ns : List Node) (ix : Index Location)
    → Marks id l ns
    → Half b ns ix
    → Half b (erase_at l.price l.iterator ns) (Index.erase id ix)
unfolding Index.erase
erase-Half b id l ns ix m v = record {
  indexed =
      erase-All b id (erase_at l.price l.iterator ns) ix
        (rw (orders-erase_at id l ns m) (holds-remove_self id ns v.distinct))
        (All-erase_at _ l.price l.iterator ns v.indexed);
  distinct = erase_at-IsDistinct l.price l.iterator ns v.distinct;
  covered = λ jd k g s.
      ground (arith, orders-erase_at id l ns m, holds-remove_ne id jd (orders ns), v.covered jd k);
}

pub erase-Half_other :
    (b : Bool) (id : ℕ) (l : Location) (ns : List Node) (ix : Index Location)
    → ix.find id ≡ some l
    → l.is_buy ≢ b
    → Half b ns ix
    → Half b ns (Index.erase id ix)
unfolding Index.erase
erase-Half_other b id l ns ix h d v = record {
  indexed = erase-All b id ns ix (holds_of_other b id ns ix l h d v.indexed) v.indexed;
  distinct = v.distinct;
  covered = λ jd k g s. ground (arith, v.covered jd k);
}

-- A new quantity is seen by nothing of this.
set_at-All :
    (b : Bool) (p c q : ℕ) (ns : List Node) (ix : Index Location)
    → All (IsIndexed b ix) ns
    → All (IsIndexed b ix) (set_at p c q ns)
unfolding set_at
set_at-All b p c q [] ix a = tt
set_at-All b p c q (n ∷ ns) ix a = ground (arith, set_at-All b p c q ns ix a.1)

set_at-ne :
    (id p c q : ℕ) (ns : List Node)
    → All (λ m. (m.order.id == id) ≡ false) ns
    → All (λ m. (m.order.id == id) ≡ false) (set_at p c q ns)
unfolding set_at
set_at-ne id p c q [] a = tt
set_at-ne id p c q (n ∷ ns) a = ground (arith, set_at-ne id p c q ns a.1)

set_at-IsDistinct : (p c q : ℕ) (ns : List Node) → IsDistinct ns → IsDistinct (set_at p c q ns)
unfolding set_at
set_at-IsDistinct p c q [] d = tt
set_at-IsDistinct p c q (n ∷ ns) d =
    ground (arith, set_at-IsDistinct p c q ns d.1, set_at-ne n.order.id p c q ns d.0)

holds-set_at :
    (id p c q : ℕ) (ns : List Node) → holds id (orders (set_at p c q ns)) ≡ holds id (orders ns)
unfolding set_at holds
holds-set_at id p c q [] = refl
holds-set_at id p c q (n ∷ ns) = ground (arith, holds-set_at id p c q ns)

pub length-set_at : (p c q : ℕ) (ns : List Node) → length (set_at p c q ns) ≡ length ns
unfolding set_at
length-set_at p c q [] = refl
length-set_at p c q (n ∷ ns) = ground (arith, length-set_at p c q ns)

pub set_at-Half :
    (b : Bool) (p c q : ℕ) (ns : List Node) (ix : Index Location)
    → Half b ns ix
    → Half b (set_at p c q ns) ix
set_at-Half b p c q ns ix v = record {
  indexed = set_at-All b p c q ns ix v.indexed;
  distinct = set_at-IsDistinct p c q ns v.distinct;
  covered = λ id l g s. holds-set_at id p c q ns ∙ v.covered id l g s;
}
