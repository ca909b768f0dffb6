-- ===== src/Contract/Matches.antt =====
-- What the fills of a match keep, and what they come to.
use mathlib.Core.Path.{ap₂}
use hft_orderbook_benchmark.Common.{
  ℕ, ◌+◌, ◌<◌, ◌≡◌, ◌⊎◌, inl, inr, refl, sym, List, [], ◌∷◌, some, none, arith, max_u64,
}
use hft_orderbook_benchmark.Core.{Order, Trade}
use hft_orderbook_benchmark.Contract.{fill, best, Match, done, next}

pub total : List Order → ℕ
total [] = 0
total (o ∷ os) = o.quantity + total os

pub traded : List Trade → ℕ
traded [] = 0
traded (t ∷ ts) = t.quantity + traded ts

fill-total :
    (xs ys cs ds : List Order) (t : Trade)
    → fill xs ys ≡ some (t, cs, ds)
    → (total xs ≡ t.quantity + total cs) × (total ys ≡ t.quantity + total ds)
unfolding fill total
fill-total [] ys cs ds t h = cc
fill-total (b ∷ xs) [] cs ds t h = cc
fill-total (b ∷ xs) (a ∷ ys) cs ds t h = ground arith

pub Match-total :
    {xs ys cs ds : List Order} {ts : List Trade}
    → Match xs ys ts cs ds
    → (total xs ≡ traded ts + total cs) × (total ys ≡ traded ts + total ds)
unfolding traded
Match-total (done h) = omega arith
Match-total (next {xs = xs} {ys = ys} {cs = cs} {ds = ds} {t = t} h m) =
    omega (arith, fill-total xs ys cs ds t h, Match-total m)

-- Where no trade is left, a side is empty or the best prices do not cross.
abbrev pub IsUncrossed : List Order → List Order → Type 0
IsUncrossed xs ys = (xs ≡ []) ⊎ (ys ≡ []) ⊎ (best 0 xs < best max_u64 ys)

fill-IsUncrossed : (xs ys : List Order) → fill xs ys ≡ none → IsUncrossed xs ys
unfolding fill best
fill-IsUncrossed [] ys h = inl refl
fill-IsUncrossed (x ∷ xs) [] h = inr (inl refl)
fill-IsUncrossed (x ∷ xs) (y ∷ ys) h = inr (inr (ground arith))

pub Match-IsUncrossed :
    {xs ys us vs : List Order} {ts : List Trade} → Match xs ys ts us vs → IsUncrossed us vs
Match-IsUncrossed (done {xs = xs} {ys = ys} h) = fill-IsUncrossed xs ys h
Match-IsUncrossed (next h m) = Match-IsUncrossed m

module _ {xs ys xs' ys' : List Order} (e : xs ≡ xs') (f : ys ≡ ys') where
  refuted :
      {cs ds : List Order} {t : Trade} → fill xs ys ≡ none → fill xs' ys' ≡ some (t, cs, ds) → ⊥
  refuted h k = cc

  agree :
      {cs ds cs' ds' : List Order} {t t' : Trade}
      → fill xs ys ≡ some (t, cs, ds)
      → fill xs' ys' ≡ some (t', cs', ds')
      → (t ≡ t') × (cs ≡ cs') × (ds ≡ ds')
  agree h k = (cc, cc, cc)

same_outcome :
    {xs ys us vs es fs xs' ys' : List Order} {ts ws : List Trade}
    → xs ≡ xs'
    → ys ≡ ys'
    → Match xs ys ts us vs
    → Match xs' ys' ws es fs
    → (ts ≡ ws) × (us ≡ es) × (vs ≡ fs)
same_outcome e f (done h) (done k) = (refl, e, f)
same_outcome e f (done h) (next k m) = absurd (refuted e f h k)
same_outcome e f (next h m) (done k) = absurd (refuted (sym e) (sym f) k h)
same_outcome e f (next h m) (next k n) =
    let q = agree e f h k in let r = same_outcome q.1 q.2 m n in (ap₂ ◌∷◌ q.0 r.0, r.1, r.2)

-- Two matchings from the same resting orders have the same trades and leave the same orders.
pub Match-deterministic :
    {xs ys us vs es fs : List Order} {ts ws : List Trade}
    → Match xs ys ts us vs
    → Match xs ys ws es fs
    → (ts ≡ ws) × (us ≡ es) × (vs ≡ fs)
Match-deterministic m n = same_outcome refl refl m n
