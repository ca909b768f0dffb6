-- ===== src/Matching/Indexed/Sides.antt =====
-- One side and the lookup, when an order comes to it.
use hft_orderbook_benchmark.Common.{
  ℕ, ◌≡◌, ◌≢◌, refl, ap, Bool, true, false, ◌||◌, List, [], ◌∷◌, none, some, ◌==◌, arith, All,
  Bool-cases, inl, inr, eq_of_==,
}
use hft_orderbook_benchmark.Containers.OrderList.{Node}
use hft_orderbook_benchmark.Containers.Index
use hft_orderbook_benchmark.Containers.Index.{Index, find-insert, find-erase}
use hft_orderbook_benchmark.Contract.{holds}
use hft_orderbook_benchmark.Resting.{orders, insert_node}
use hft_orderbook_benchmark.Resting.Orders.{All-insert_node}
use hft_orderbook_benchmark.Matching.{Location}
use hft_orderbook_benchmark.Matching.Indexed.{place, IsIndexed, IsDistinct, Half}

pub find_at : (ix : Index Location) (m id : ℕ) → (m == id) ≡ true → ix.find m ≡ ix.find id
find_at ix m id e = ap ix.find (eq_of_== m id e)

-- A side holds no order of an id that the lookup does not know.
pub holds_of_none :
    (b : Bool) (id : ℕ) (ns : List Node) (ix : Index Location)
    → ix.find id ≡ none
    → All (IsIndexed b ix) ns
    → holds id (orders ns) ≡ false
unfolding holds
holds_of_none b id [] ix h a = refl
holds_of_none b id (n ∷ ns) ix h a = elim (Bool-cases (n.order.id == id)) [
  | inl e ↦ let f = find_at ix n.order.id id e in let a0 = a.0 in cc
  | inr e ↦ rw (e, holds) (holds_of_none b id ns ix h a.1)
]

-- Nor one of an id that rests on the other side.
pub holds_of_other :
    (b : Bool) (id : ℕ) (ns : List Node) (ix : Index Location) (l : Location)
    → ix.find id ≡ some l
    → l.is_buy ≢ b
    → All (IsIndexed b ix) ns
    → holds id (orders ns) ≡ false
unfolding holds
holds_of_other b id [] ix l h k a = refl
holds_of_other b id (n ∷ ns) ix l h k a = elim (Bool-cases (n.order.id == id)) [
  | inl e ↦
      let f = find_at ix n.order.id id e in
      let a0 = a.0 in let g : l ≡ place b n = cc in absurd (k (ap (λ (x : Location). x.is_buy) g))
  | inr e ↦ rw (e, holds) (holds_of_other b id ns ix l h k a.1)
]

-- A new entry, or one less, is not seen by the nodes with other ids.
insert-All :
    (b : Bool) (id : ℕ) (l : Location) (ns : List Node) (ix : Index Location)
    → holds id (orders ns) ≡ false
    → All (IsIndexed b ix) ns
    → All (IsIndexed b (Index.insert id l ix)) ns
unfolding holds Index.insert
insert-All b id l [] ix h a = tt
insert-All b id l (n ∷ ns) ix h a = ground (arith, insert-All b id l ns ix)

pub erase-All :
    (b : Bool) (id : ℕ) (ns : List Node) (ix : Index Location)
    → holds id (orders ns) ≡ false
    → All (IsIndexed b ix) ns
    → All (IsIndexed b (Index.erase id ix)) ns
unfolding holds Index.erase
erase-All b id [] ix h a = tt
erase-All b id (n ∷ ns) ix h a = ground (arith, erase-All b id ns ix)

pub holds-insert_node :
    (b : Bool) (id : ℕ) (n : Node) (ns : List Node)
    → holds id (orders (insert_node b n ns)) ≡ (n.order.id == id || holds id (orders ns))
unfolding holds insert_node
holds-insert_node b id n [] = refl
holds-insert_node b id n (m ∷ ms) = ground (arith, holds-insert_node b id n ms)

ne_of_holds :
    (id : ℕ) (ns : List Node)
    → holds id (orders ns) ≡ false
    → All (λ m. (m.order.id == id) ≡ false) ns
unfolding holds
ne_of_holds id [] h = tt
ne_of_holds id (n ∷ ns) h = ground (arith, ne_of_holds id ns)

insert_node-IsDistinct :
    (b : Bool) (n : Node) (ns : List Node)
    → All (λ m. (m.order.id == n.order.id) ≡ false) ns
    → IsDistinct ns
    → IsDistinct (insert_node b n ns)
unfolding insert_node
insert_node-IsDistinct b n [] h d = (tt, tt)
insert_node-IsDistinct b n (m ∷ ms) h d = ground (
  arith,
  insert_node-IsDistinct b n ms h.1 d.1,
  All-insert_node (λ k. (k.order.id == m.order.id) ≡ false) b n ms,
)

-- An order that comes to a side, and one that comes to the other side.
pub insert-Half :
    (b : Bool) (n : Node) (ns : List Node) (ix : Index Location)
    → ix.find n.order.id ≡ none
    → Half b ns ix
    → Half b (insert_node b n ns) (Index.insert n.order.id (place b n) ix)
unfolding Index.insert
insert-Half b n ns ix h v = record {
  indexed =
      All-insert_node _ b n ns (ground (arith))
        (insert-All b n.order.id (place b n) ns ix absent v.indexed);
  distinct = insert_node-IsDistinct b n ns (ne_of_holds n.order.id ns absent) v.distinct;
  covered = λ id l g s. ground (arith, holds-insert_node b id n ns, v.covered id l);
}
  where
    absent : holds n.order.id (orders ns) ≡ false
    absent = holds_of_none b n.order.id ns ix h v.indexed

pub insert-Half_other :
    (b : Bool) (id : ℕ) (k : Location) (ns : List Node) (ix : Index Location)
    → ix.find id ≡ none
    → k.is_buy ≢ b
    → Half b ns ix
    → Half b ns (Index.insert id k ix)
unfolding Index.insert
insert-Half_other b id k ns ix h d v = record {
  indexed = insert-All b id k ns ix (holds_of_none b id ns ix h v.indexed) v.indexed;
  distinct = v.distinct;
  covered = λ jd l g s. ground (arith, v.covered jd l);
}
