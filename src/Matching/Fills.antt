-- ===== src/Matching/Fills.antt =====
-- A round of matching, on the nodes, as fills of the abstract book.
use mathlib.Core.List.{append_assoc}
use hft_orderbook_benchmark.Common.{
  ℕ, suc, ◌+◌, ◌-◌, ◌≤◌, ◌≡◌, refl, false, List, [], ◌∷◌, ◌++◌, ◌==◌, ltb, arith, length, All,
  Bool-cases, inl, inr, min_of,
}
use hft_orderbook_benchmark.Core.{Order, Trade}
use hft_orderbook_benchmark.Containers.OrderList.{Node}
use hft_orderbook_benchmark.Containers.Index.{Index}
use hft_orderbook_benchmark.Contract.{fill, settle, trade, Match, next}
use hft_orderbook_benchmark.Resting.{orders}
use hft_orderbook_benchmark.Matching.{Location, less, pop_filled, forget_filled}
use hft_orderbook_benchmark.Matching.Indexed.{Indexed}
use hft_orderbook_benchmark.Matching.Indexed.Books.{
  pop_bid-Indexed, pop_ask-Indexed, less_bid-Indexed, less_ask-Indexed,
}

-- The trades `ts` lead from one pair of lists to another.
abbrev pub Leads : List Order → List Order → List Trade → List Order → List Order → Type 0
Leads xs ys ts us vs =
    (ws : List Trade) (es fs : List Order) → Match us vs ws es fs → Match xs ys (ts ++ ws) es fs

pub Leads-trans :
    (xs ys us vs es fs : List Order) (ts ws : List Trade)
    → Leads xs ys ts us vs
    → Leads us vs ws es fs
    → Leads xs ys (ts ++ ws) es fs
Leads-trans xs ys us vs es fs ts ws h k zs gs hs m =
    rw (append_assoc ts ws zs) (h (ws ++ zs) gs hs (k zs gs hs m))

pop_filled-append : (n : Node) (xs zs : List Node) → pop_filled n xs ++ zs ≡ pop_filled n (xs ++ zs)
pop_filled-append n xs zs = ground arith

orders-pop_filled :
    (q : ℕ) (n : Node) (xs zs : List Node)
    → orders (pop_filled (less q n) xs ++ zs) ≡ settle n.order q (orders (xs ++ zs))
unfolding settle
orders-pop_filled q n xs zs = ground arith

-- The first two orders of crossing levels trade.
pub Leads-front :
    (b a : Node) (xs ys us vs : List Node)
    → ltb b.order.price a.order.price ≡ false
    → let q = min_of b.order.quantity a.order.quantity in
      Leads
        (orders (b ∷ xs ++ us))
        (orders (a ∷ ys ++ vs))
        (trade b.order a.order ∷ [])
        (orders (pop_filled (less q b) xs ++ us))
        (orders (pop_filled (less q a) ys ++ vs))
unfolding fill
Leads-front b a xs ys us vs h ws es fs m =
    next
      (rw (h, fill)
        (rw
          (
            orders-pop_filled (min_of b.order.quantity a.order.quantity) b xs us,
            orders-pop_filled (min_of b.order.quantity a.order.quantity) a ys vs,
          )
          refl))
      m

pub pop_bid_filled-Indexed :
    (q : ℕ) (b : Node) (xs us ys : List Node) (ix : Index Location) (nx : ℕ)
    → Indexed (b ∷ xs ++ us) ys ix nx
    → Indexed (pop_filled (less q b) xs ++ us) ys (forget_filled (less q b) ix) nx
pop_bid_filled-Indexed q b xs us ys ix nx v = elim (Bool-cases (b.order.quantity - q == 0)) [
  | inl e ↦ rw e (pop_bid-Indexed b (xs ++ us) ys v)
  | inr e ↦ rw e (less_bid-Indexed q b (xs ++ us) ys v)
]

pub pop_ask_filled-Indexed :
    (q : ℕ) (a : Node) (xs ys vs : List Node) (ix : Index Location) (nx : ℕ)
    → Indexed xs (a ∷ ys ++ vs) ix nx
    → Indexed xs (pop_filled (less q a) ys ++ vs) (forget_filled (less q a) ix) nx
pop_ask_filled-Indexed q a xs ys vs ix nx v = elim (Bool-cases (a.order.quantity - q == 0)) [
  | inl e ↦ rw e (pop_ask-Indexed a xs (ys ++ vs) v)
  | inr e ↦ rw e (less_ask-Indexed q a xs (ys ++ vs) v)
]

pub pop_filled-All :
    (p q : ℕ) (n : Node) (xs : List Node)
    → n.order.price ≡ p
    → All (λ m. m.order.price ≡ p) xs
    → All (λ m. m.order.price ≡ p) (pop_filled (less q n) xs)
pop_filled-All p q n xs e a = ground arith

-- One of the two is filled.
pub length-pop_filled :
    (b a : Node) (xs ys : List Node) (f : ℕ)
    → let q = min_of b.order.quantity a.order.quantity in
      suc (length xs) + suc (length ys) ≤ suc f
      → length (pop_filled (less q b) xs) + length (pop_filled (less q a) ys) ≤ f
length-pop_filled b a xs ys f h = ground arith
