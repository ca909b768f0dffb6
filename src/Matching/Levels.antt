-- ===== src/Matching/Levels.antt =====
-- The outer loop, over the best levels of the two sides.
use hft_orderbook_benchmark.Common.{
  ℕ, zero, suc, ◌+◌, ◌≤◌, ◌≡◌, ◌≢◌, refl, ◌⊎◌, inl, inr, Bool, true, false, List, [], ◌∷◌, ◌++◌,
  none, ltb, arith, length, All, Bool-cases,
}
use hft_orderbook_benchmark.Core.{Order}
use hft_orderbook_benchmark.Containers.OrderList.{Node, OrderList}
use hft_orderbook_benchmark.Containers.Ladder.{Ladder, before}
use hft_orderbook_benchmark.Containers.Index.{Index}
use hft_orderbook_benchmark.Contract.{fill, Match, done}
use hft_orderbook_benchmark.Resting.{orders, flat, IsLadder}
use hft_orderbook_benchmark.Matching.{
  Location, Round, traded_before, match_front, match_levels, keep_level,
}
use hft_orderbook_benchmark.Matching.Indexed.{Indexed}
use hft_orderbook_benchmark.Matching.Front.{Front, match_front-Front}

-- What the outer loop comes to: a whole match of the abstract book, with the representation kept.
pub record Settled (next : ℕ) (xs ys : Ladder OrderList) (r : Round (ℕ × OrderList)) : Type 0 where
  pub bid_ladder : IsLadder true r.bids
  pub ask_ladder : IsLadder false r.asks
  pub kept : Indexed (flat r.bids) (flat r.asks) r.order_lookup next
  pub matched :
      Match
        (orders (flat xs))
        (orders (flat ys))
        r.trades
        (orders (flat r.bids))
        (orders (flat r.asks))

flat-keep_level :
    (p : ℕ) (ns : OrderList) (m : Ladder OrderList) → flat (keep_level p ns m) ≡ ns ++ flat m
flat-keep_level p [] m = refl
flat-keep_level p (n ∷ ns) m = refl

keep_level-IsLadder :
    (b : Bool) (p : ℕ) (ns : OrderList) (m : Ladder OrderList)
    → All (λ n. n.order.price ≡ p) ns
    → All (λ l. before b p l.0 ≡ true) m
    → IsLadder b m
    → IsLadder b (keep_level p ns m)
keep_level-IsLadder b p [] m a k v = v
keep_level-IsLadder b p (n ∷ ns) m a k v = ((λ e. cc), a, k, v)

-- A level goes, or stays.
length-keep_level :
    (p : ℕ) (ns : OrderList) (m : Ladder OrderList)
    → (length (keep_level p ns m) ≤ suc (length m))
      × (ns ≡ [] → length (keep_level p ns m) ≡ length m)
length-keep_level p [] m = (omega arith, λ e. refl)
length-keep_level p (n ∷ ns) m = (omega arith, λ e. cc)

length-keep_levels :
    (p q : ℕ) (ns ms : OrderList) (xs ys : Ladder OrderList) (f : ℕ)
    → (ns ≡ []) ⊎ (ms ≡ [])
    → suc (length xs) + suc (length ys) ≤ suc f
    → length (keep_level p ns xs) + length (keep_level q ms ys) ≤ f
length-keep_levels p q ns ms xs ys f (inl e) h =
    omega (arith, (length-keep_level p ns xs).1 e, (length-keep_level q ms ys).0)
length-keep_levels p q ns ms xs ys f (inr e) h =
    omega (arith, (length-keep_level q ms ys).1 e, (length-keep_level p ns xs).0)

fill_no_asks : (xs : List Order) → fill xs [] ≡ none
unfolding fill
fill_no_asks [] = refl
fill_no_asks (x ∷ xs) = refl

fill_no_bids : (ys : List Order) → fill [] ys ≡ none
unfolding fill
fill_no_bids ys = refl

-- Levels whose prices do not cross let no order trade.
fill-IsUncrossed :
    (p q : ℕ) (ns ms us vs : List Node)
    → ns ≢ []
    → ms ≢ []
    → All (λ n. n.order.price ≡ p) ns
    → All (λ n. n.order.price ≡ q) ms
    → ltb p q ≡ true
    → fill (orders (ns ++ us)) (orders (ms ++ vs)) ≡ none
unfolding fill
fill-IsUncrossed p q [] ms us vs h k a b e = absurd (h refl)
fill-IsUncrossed p q (n ∷ ns) [] us vs h k a b e = absurd (k refl)
fill-IsUncrossed p q (n ∷ ns) (m ∷ ms) us vs h k a b e = ground arith

-- One round of the outer loop, and the rounds after it.
Settled-round :
    (p q next : ℕ) (ns ms : OrderList) (xs ys : Ladder OrderList) (r : Round Node)
    (s : Round (ℕ × OrderList))
    → Front p q next (flat xs) (flat ys) ns ms r
    → Settled next (keep_level p r.bids xs) (keep_level q r.asks ys) s
    → Settled next ((p, ns) ∷ xs) ((q, ms) ∷ ys) (traded_before r.trades s)
Settled-round p q next ns ms xs ys r s w z = record {
  bid_ladder = z.bid_ladder;
  ask_ladder = z.ask_ladder;
  kept = z.kept;
  matched =
      w.leads s.trades _ _
        (rw (flat-keep_level p r.bids xs, flat-keep_level q r.asks ys) at z.matched);
}

pub match_levels-Settled :
    (next f : ℕ) (xs ys : Ladder OrderList) (ix : Index Location)
    → length xs + length ys ≤ f
    → IsLadder true xs
    → IsLadder false ys
    → Indexed (flat xs) (flat ys) ix next
    → Settled next xs ys (match_levels f xs ys ix)
unfolding match_levels
match_levels-Settled next zero [] [] ix h a b v = record {
  bid_ladder = tt;
  ask_ladder = tt;
  kept = v;
  matched = done (fill_no_asks []);
}
match_levels-Settled next zero [] (y ∷ ys) ix h a b v = absurd (omega arith)
match_levels-Settled next zero (x ∷ xs) ys ix h a b v = absurd (omega arith)
match_levels-Settled next (suc f) [] ys ix h a b v = record {
  bid_ladder = tt;
  ask_ladder = b;
  kept = v;
  matched = done (fill_no_bids _);
}
match_levels-Settled next (suc f) (x ∷ xs) [] ix h a b v = record {
  bid_ladder = a;
  ask_ladder = tt;
  kept = v;
  matched = done (fill_no_asks _);
}
match_levels-Settled next (suc f) ((p, ns) ∷ xs) ((q, ms) ∷ ys) ix h a b v =
    elim (Bool-cases (ltb p q)) [
      | inl e ↦
          rw (e, match_levels)
            (record {
              bid_ladder = a;
              ask_ladder = b;
              kept = v;
              matched = done (fill-IsUncrossed p q ns ms (flat xs) (flat ys) a.0 b.0 a.1 b.1 e);
            })
      | inr e ↦
          let w =
            match_front-Front p q next (flat xs) (flat ys) e (length ns + length ms) ns ms ix
              (omega arith) a.1 b.1 v in
          let r = match_front (length ns + length ms) ns ms ix in
          rw (e, match_levels)
            (Settled-round p q next ns ms xs ys r _ w (
              match_levels-Settled next f (keep_level p r.bids xs) (keep_level q r.asks ys)
                r.order_lookup (length-keep_levels p q r.bids r.asks xs ys f w.emptied h)
                (keep_level-IsLadder true p r.bids xs w.bid_price a.2 a.3)
                (keep_level-IsLadder false q r.asks ys w.ask_price b.2 b.3)
                (rw (flat-keep_level p r.bids xs, flat-keep_level q r.asks ys) w.kept)))
    ]
