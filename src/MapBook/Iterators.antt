-- ===== src/MapBook/Iterators.antt =====
-- The iterators that the lookup keeps: none of them dangles.
use hft_orderbook_benchmark.Common.{
  ℕ, ◌≡◌, refl, Bool, true, false, ◌||◌, List, [], ◌∷◌, ◌++◌, some, ◌==◌, arith, All,
  All-append_left, All-append_right, Bool-cases, inl, inr,
}
use hft_orderbook_benchmark.Core.{Order}
use hft_orderbook_benchmark.Containers.OrderList
use hft_orderbook_benchmark.Containers.OrderList.{Node, OrderList}
use hft_orderbook_benchmark.Containers.Ladder
use hft_orderbook_benchmark.Containers.Ladder.{Ladder, before}
use hft_orderbook_benchmark.Contract.{holds}
use hft_orderbook_benchmark.Resting.{orders, flat, IsLadder}
use hft_orderbook_benchmark.Resting.Levels.{ne_of_before}
use hft_orderbook_benchmark.Matching.{Location}
use hft_orderbook_benchmark.Matching.Indexed.{Marks}
use hft_orderbook_benchmark.Matching.Indexed.Books.{Marks-bids, Marks-asks}
use hft_orderbook_benchmark.MapBook.{MapBook}
use hft_orderbook_benchmark.MapBook.View.{IsValid}

-- A level found in a ladder behind `p` has another price.
pub find_behind :
    (b : Bool) (p r : ℕ) (m : Ladder OrderList) (ns : OrderList)
    → All (λ l. before b p l.0 ≡ true) m
    → Ladder.find r m ≡ some ns
    → (r == p) ≡ false
unfolding Ladder.find
find_behind b p r [] ns a h = absurd (cc)
find_behind b p r ((q, ms) ∷ m) ns a h =
    ground (arith, find_behind b p r m ns a.1, ne_of_before b p q a.0)

module _ (id : ℕ) (l : Location) where
  at_marked :
      (ns : List Node)
      → Marks id l ns
      → All (λ n. n.order.price ≡ l.price) ns
      → holds id (orders ns) ≡ true
      → (o : Order) × (OrderList.at l.iterator ns ≡ some o) × (o.id ≡ id)
  unfolding OrderList.at holds
  at_marked [] m a h = absurd (cc)
  at_marked (n ∷ ns) m a h = elim (Bool-cases (n.cell == l.iterator)) [
    | inl e ↦ (n.order, rw (e, OrderList.at), ground arith)
    | inr e ↦ rw (e, OrderList.at) (at_marked ns m.1 a.1 (ground arith))
  ]

  price_marked :
      (p : ℕ) (ns : List Node)
      → Marks id l ns
      → All (λ n. n.order.price ≡ p) ns
      → holds id (orders ns) ≡ true
      → p ≡ l.price
  unfolding holds
  price_marked p [] m a h = absurd (cc)
  price_marked p (n ∷ ns) m a h = ground (arith, price_marked p ns m.1 a.1)

  holds-append :
      (ns ms : List Node)
      → holds id (orders (ns ++ ms)) ≡ (holds id (orders ns) || holds id (orders ms))
  unfolding holds
  holds-append [] ms = refl
  holds-append (n ∷ ns) ms = ground (arith, holds-append ns ms)

  pub located :
      (b : Bool) (m : Ladder OrderList)
      → IsLadder b m
      → Marks id l (flat m)
      → holds id (orders (flat m)) ≡ true
      → (ns : OrderList) × (Ladder.find l.price m ≡ some ns)
        × ((o : Order) × (OrderList.at l.iterator ns ≡ some o) × (o.id ≡ id))
  unfolding Ladder.find holds
  located b [] v m h = absurd (cc)
  located b ((p, ns) ∷ m) v k h = elim (Bool-cases (holds id (orders ns))) [
    | inl e ↦
        let mark = All-append_left _ ns (flat m) k in
        let q = price_marked p ns mark v.1 e in
        (ns, ground arith, at_marked ns mark (rw (← q) v.1) e)
    | inr e ↦
        let (ms, f, o) =
          located b m v.3 (All-append_right _ ns (flat m) k)
            (ground (arith, holds-append ns (flat m))) in
        (ms, ground (arith, find_behind b p l.price m ms v.2 f), o)
  ]

abbrev pub side : Bool → MapBook → Ladder OrderList
side true k = k.bids
side false k = k.asks

-- In a book that is in order, an entry of the lookup leads to a level of its price, and its iterator to
-- the order of its id there.
pub lookup_points :
    (k : MapBook) (id : ℕ) (l : Location)
    → IsValid k
    → k.order_lookup.find id ≡ some l
    → (ns : OrderList) × (Ladder.find l.price (side l.is_buy k) ≡ some ns)
      × ((o : Order) × (OrderList.at l.iterator ns ≡ some o) × (o.id ≡ id))
lookup_points k id l v h = elim (Bool-cases l.is_buy) [
  | inl e ↦ rw e (
      located id l true k.bids v.bid_ladder (Marks-bids v.lookup id l h e)
        (v.lookup.bids.covered id l h e))
  | inr e ↦ rw e (
      located id l false k.asks v.ask_ladder (Marks-asks v.lookup id l h e)
        (v.lookup.asks.covered id l h e))
]
