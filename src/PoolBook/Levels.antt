-- ===== src/PoolBook/Levels.antt =====
-- src/orderbooks/pool_order_book.cpp: the price levels of a side, each a linked list of slots.
use hft_orderbook_benchmark.Common.{
  ℕ, ◌≡◌, ◌≢◌, refl, sym, Bool, true, false, List, [], ◌∷◌, Option, none, some, ◌==◌, All, All-imp,
  All-append_left, All-append_right, Bool-cases, inl, inr, eq_of_==,
}
use hft_orderbook_benchmark.Containers.OrderList.{Node, OrderList, push_back}
use hft_orderbook_benchmark.Containers.Ladder
use hft_orderbook_benchmark.Containers.Ladder.{Ladder, before}
use hft_orderbook_benchmark.Resting.{flat, IsLadder}
use hft_orderbook_benchmark.Resting.Levels.{All-behind, ne_of_before}
use hft_orderbook_benchmark.PoolBook.{OrderNode, PoolLimitLevel, null_idx}
use hft_orderbook_benchmark.PoolBook.Links.{IsLinked}

-- A level of the pool is the list of nodes.
abbrev pub IsLevel : List OrderNode → ℕ → PoolLimitLevel → List Node → Type 0
IsLevel ns p l xs = (l.price ≡ p) × IsLinked ns null_idx l.head xs l.tail

-- The levels of a side, as a ladder of lists of nodes.
abbrev pub IsLevels : List OrderNode → Ladder PoolLimitLevel → Ladder OrderList → Type 0
IsLevels ns [] [] = Unit
IsLevels ns [] (x ∷ xs) = ⊥
IsLevels ns (l ∷ m) [] = ⊥
IsLevels ns ((p, l) ∷ m) ((q, xs) ∷ ms) = (p ≡ q) × IsLevel ns q l xs × IsLevels ns m ms

-- What is linked stays linked.
abbrev pub IsFramed : List OrderNode → List OrderNode → List Node → Type 0
IsFramed ns ns' xs = (prev i tail : ℕ) → IsLinked ns prev i xs tail → IsLinked ns' prev i xs tail

pub IsLevels-framed :
    (ns ns' : List OrderNode) (m : Ladder PoolLimitLevel) (ms : Ladder OrderList)
    → All (λ x. IsFramed ns ns' x.1) ms
    → IsLevels ns m ms
    → IsLevels ns' m ms
IsLevels-framed ns ns' [] [] a v = tt
IsLevels-framed ns ns' [] (x ∷ xs) a v = elim v [ ]
IsLevels-framed ns ns' (l ∷ m) [] a v = elim v [ ]
IsLevels-framed ns ns' ((p, l) ∷ m) ((q, xs) ∷ ms) a v =
    let (e, (f, r), t) = v in
    (e, (f, a.0 null_idx l.head l.tail r), IsLevels-framed ns ns' m ms a.1 t)

abbrev pub or_nil : Option OrderList → OrderList
or_nil none = []
or_nil (some xs) = xs

-- The level that `find` gives in both; its nodes have the price, and what all nodes have.
pub data SameLevel (ns : List OrderNode) (p : ℕ) (P : Node → Type 0)
    : Option PoolLimitLevel → Option OrderList → Type 0 where
  no_level : SameLevel ns p P none none
  same_level :
      {l : PoolLimitLevel} {n : Node} {xs : List Node}
      → IsLevel ns p l (n ∷ xs)
      → All (λ k. k.order.price ≡ p) (n ∷ xs)
      → All P (n ∷ xs)
      → SameLevel ns p P (some l) (some (n ∷ xs))

SameLevel-of :
    (ns : List OrderNode) (p : ℕ) (P : Node → Type 0) (l : PoolLimitLevel) (xs : List Node)
    → xs ≢ []
    → IsLevel ns p l xs
    → All (λ k. k.order.price ≡ p) xs
    → All P xs
    → SameLevel ns p P (some l) (some xs)
SameLevel-of ns p P l [] h v a r = absurd (h refl)
SameLevel-of ns p P l (n ∷ xs) h v a r = same_level v a r

pub find-SameLevel :
    (ns : List OrderNode) (b : Bool) (p : ℕ) (P : Node → Type 0) (m : Ladder PoolLimitLevel)
    (ms : Ladder OrderList)
    → IsLevels ns m ms
    → IsLadder b ms
    → All P (flat ms)
    → SameLevel ns p P (Ladder.find p m) (Ladder.find p ms)
unfolding Ladder.find
find-SameLevel ns b p P [] [] v w r = no_level
find-SameLevel ns b p P [] (x ∷ xs) v w r = elim v [ ]
find-SameLevel ns b p P (l ∷ m) [] v w r = elim v [ ]
find-SameLevel ns b p P ((q0, l) ∷ m) ((q, xs) ∷ ms) v w r =
    let (e, f, t) = v in
    elim (Bool-cases (p == q)) [
      | inl h ↦
          let z : p ≡ q = eq_of_== p q h in
          rw (e, h)
            (SameLevel-of ns p P l xs w.0 (rw z f) (rw z w.1) (All-append_left P xs (flat ms) r))
      | inr h ↦ rw (e, h) (find-SameLevel ns b p P m ms t w.3 (All-append_right P xs (flat ms) r))
    ]

behind_none :
    (b : Bool) (p : ℕ) (ms : Ladder OrderList)
    → All (λ x. before b p x.0 ≡ true) ms
    → Ladder.find p ms ≡ none
unfolding Ladder.find
behind_none b p [] a = refl
behind_none b p ((q, xs) ∷ ms) a = rw (ne_of_before b p q a.0) (behind_none b p ms a.1)

pub ne_behind :
    (b : Bool) (p : ℕ) (ms : Ladder OrderList)
    → All (λ x. before b p x.0 ≡ true) ms
    → All (λ x. (p == x.0) ≡ false) ms
ne_behind b p ms a =
    All-imp (λ x. before b p x.0 ≡ true) (λ x. (p == x.0) ≡ false) ms
      (λ x h. ne_of_before b p x.0 h) a

-- The levels of other prices are framed.
abbrev pub IsOtherwise : List OrderNode → List OrderNode → ℕ → Ladder OrderList → Type 0
IsOtherwise ns ns' p = All (λ x. (p == x.0) ≡ false → IsFramed ns ns' x.1)

all-IsFramed :
    (ns ns' : List OrderNode) (p : ℕ) (ms : Ladder OrderList)
    → All (λ x. (p == x.0) ≡ false) ms
    → IsOtherwise ns ns' p ms
    → All (λ x. IsFramed ns ns' x.1) ms
all-IsFramed ns ns' p [] a f = tt
all-IsFramed ns ns' p (x ∷ ms) a f = (f.0 a.0, all-IsFramed ns ns' p ms a.1 f.1)

-- A level that is written where the list got one more node.
pub IsLevels-update :
    (ns ns' : List OrderNode) (b : Bool) (p : ℕ) (d l : PoolLimitLevel) (n : Node)
    (m : Ladder PoolLimitLevel) (ms : Ladder OrderList)
    → IsLevels ns m ms
    → IsLadder b ms
    → IsOtherwise ns ns' p ms
    → IsLevel ns' p l (push_back n (or_nil (Ladder.find p ms)))
    → IsLevels ns' (Ladder.update b p d (λ z. l) m) (Ladder.update b p [] (push_back n) ms)
unfolding Ladder.find Ladder.update
IsLevels-update ns ns' b p d l n [] [] v w a h = (refl, h, tt)
IsLevels-update ns ns' b p d l n [] (x ∷ xs) v w a h = elim v [ ]
IsLevels-update ns ns' b p d l n (x ∷ m) [] v w a h = elim v [ ]
IsLevels-update ns ns' b p d l n ((r, k) ∷ m) ((q, xs) ∷ ms) v w a h =
    let (e, f, t) = v in
    elim (Bool-cases (p == q)) [
      | inl g ↦
          let z : p ≡ q = eq_of_== p q g in
          let others = all-IsFramed ns ns' p ms (ne_behind b p ms (rw z w.2)) a.1 in
          let h' = rw g at h in
          rw (e, g) (refl, rw (sym z) h', IsLevels-framed ns ns' m ms others t)
      | inr g ↦ elim (Bool-cases (before b p q)) [
        | inl c ↦
            let worse = All-behind b p q ms c w.2 in
            let others = all-IsFramed ns ns' p ms (ne_behind b p ms worse) a.1 in
            let h' = rw (g, behind_none b p ms worse) at h in
            rw (e, g, c)
              (
                refl,
                h',
                (
                  refl,
                  (f.0, a.0 g null_idx k.head k.tail f.1),
                  IsLevels-framed ns ns' m ms others t,
                ),
              )
        | inr c ↦
            rw (e, g, c)
              (
                refl,
                (f.0, a.0 g null_idx k.head k.tail f.1),
                IsLevels-update ns ns' b p d l n m ms t w.3 a.1 (rw g at h),
              )
      ]
    ]
