-- ===== src/PoolBook/Growing.antt =====
-- src/orderbooks/pool_order_book.cpp: what a slot that is linked to a level leaves as it was.
use hft_orderbook_benchmark.Common.{
  ℕ, ◌≡◌, ◌≢◌, sym, ap, ◌∙◌, Bool, List, [], ◌∷◌, some, arith, All, All-imp, All-append,
  All-append_left, All-append_right, inl, inr,
}
use hft_orderbook_benchmark.Core.{Order}
use hft_orderbook_benchmark.Containers.OrderList.{Node, OrderList}
use hft_orderbook_benchmark.Containers.Ladder.{Ladder}
use hft_orderbook_benchmark.Containers.Index.{Index}
use hft_orderbook_benchmark.Resting.{flat}
use hft_orderbook_benchmark.Matching.{Location}
use hft_orderbook_benchmark.Matching.Indexed.{IsIndexed, place}
use hft_orderbook_benchmark.PoolBook.{OrderNode, PoolLimitLevel, null_idx}
use hft_orderbook_benchmark.PoolBook.Slots.{IsChain}
use hft_orderbook_benchmark.PoolBook.Links.{IsLinked-IsStored, IsStored, same_order}
use hft_orderbook_benchmark.PoolBook.Levels.{IsLevels, IsLevels-framed, IsFramed}
use hft_orderbook_benchmark.PoolBook.Append.{Written, All-both}
use hft_orderbook_benchmark.PoolBook.View.{IsUnused}

pub IsLevels-IsStored :
    (ns : List OrderNode) (m : Ladder PoolLimitLevel) (ms : Ladder OrderList)
    → IsLevels ns m ms
    → All (IsStored ns) (flat ms)
IsLevels-IsStored ns [] [] v = tt
IsLevels-IsStored ns [] (x ∷ ms) v = elim v [ ]
IsLevels-IsStored ns (x ∷ m) [] v = elim v [ ]
IsLevels-IsStored ns ((p, l) ∷ m) ((q, xs) ∷ ms) v =
    let (e, (g, y), t) = v in
    All-append (IsStored ns) xs (flat ms) (IsLinked-IsStored ns null_idx l.head xs l.tail y)
      (IsLevels-IsStored ns m ms t)

-- The levels of a side are framed when their nodes are.
pub all_levels :
    (ns ns' : List OrderNode) (Q : Node → Type 0) (ms : Ladder OrderList)
    → ((xs : List Node) → All Q xs → IsFramed ns ns' xs)
    → All Q (flat ms)
    → All (λ x. IsFramed ns ns' x.1) ms
all_levels ns ns' Q [] f a = tt
all_levels ns ns' Q ((q, xs) ∷ ms) f a = (
  f xs (All-append_left Q xs (flat ms) a),
  all_levels ns ns' Q ms f (All-append_right Q xs (flat ms) a),
)

pub other_side :
    (ns : List OrderNode) (b c : Bool) (ix : Index Location) (t : Node) (ks : List Node)
    → b ≢ c
    → IsStored ns t
    → IsIndexed b ix t
    → All (IsStored ns) ks
    → All (IsIndexed c ix) ks
    → All (λ k. t.cell ≢ k.cell) ks
other_side ns b c ix t [] d s i a r = tt
other_side ns b c ix t (k ∷ ks) d s i a r = (
  (λ e.
      let o = same_order ns t k s a.0 e in
      let f : ix.find t.order.id ≡ ix.find k.order.id = ap (λ (x : Order). ix.find x.id) o in
      let g : some (place b t) ≡ some (place c k) = sym i ∙ f ∙ r.0 in d (ground (arith, g))),
  other_side ns b c ix t ks d s i a.1 r.1,
)

module _ (ns ns' : List OrderNode) (p : ℕ) (b c : Bool) (ix : Index Location) (n : Node)
    (z : Written ns ns' p (IsIndexed b ix) n) (d : b ≢ c) where
  -- The other side keeps its levels.
  pub other-IsLevels :
      (m : Ladder PoolLimitLevel) (ms : Ladder OrderList)
      → IsLevels ns m ms
      → All (IsIndexed c ix) (flat ms)
      → All (λ k. n.cell ≢ k.cell) (flat ms)
      → IsLevels ns' m ms
  other-IsLevels m ms v a f =
      let apart : All (λ k. z.end ≢ k.cell) (flat ms) = elim z.ending [
        | inl e ↦ rw e f
        | inr (t, e, s, r, i) ↦
            rw e (other_side ns b c ix t (flat ms) d s i (IsLevels-IsStored ns m ms v) a)
      ] in
      IsLevels-framed ns ns' m ms
        (all_levels ns ns' (λ k. (n.cell ≢ k.cell) × (z.end ≢ k.cell)) ms
          (λ xs h.
            z.framed xs (All-imp _ (λ k. n.cell ≢ k.cell) xs (λ k y. y.0) h)
              (All-imp _ (λ k. z.end ≢ k.cell) xs (λ k y. y.1) h))
          (All-both (λ k. n.cell ≢ k.cell) (λ k. z.end ≢ k.cell) (flat ms) f apart))
        v

  -- The free list stays.
  pub free-IsChain :
      (i : ℕ) (js : List ℕ)
      → All (λ j. n.cell ≢ j) js
      → All (IsUnused ix) js
      → IsChain ns i js
      → IsChain ns' i js
  free-IsChain i js a u v =
      z.chained i js a
        (elim z.ending [
          | inl e ↦ rw e a
          | inr (t, e, s, r, y) ↦
              All-imp (IsUnused ix) (λ j. z.end ≢ j) js
                (λ j h w. h t.order.id (place b t) y (sym w ∙ e)) u
        ])
        v
