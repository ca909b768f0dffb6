-- ===== src/Sender/Prices.antt =====
-- clients/tcp_order_sender.cpp: the prices that the client draws from, and the orders of its messages.
use hft_orderbook_benchmark.Common.{
  ℕ, zero, suc, ◌+◌, ◌-◌, ◌*◌, ◌^◌, ◌≤◌, ◌<◌, ◌≡◌, refl, sym, ap, ◌∙◌, true, false, List, [], ◌∷◌,
  Option, none, some, if◌then◌else◌, ltb, leb, arith, Bool-cases, inl, inr, get_elem?,
}
use hft_orderbook_benchmark.Sender.{ℤ, pos}
use hft_orderbook_benchmark.Sender.Preparing.{valid_prices}

-- The price number `k`, if it is in the range.
abbrev pub nth_price : (a b t k : ℕ) → Option ℤ
nth_price a b t k = if leb (a + k * t) b then some (pos (a + k * t)) else none

valid_prices_end :
    (f a b t : ℕ) → ltb b a ≡ true → valid_prices (suc f) (pos a) (pos b) (pos t) ≡ some []
unfolding valid_prices
valid_prices_end f a b t e = rw (e, valid_prices) refl

valid_prices_more :
    (f a b t : ℕ) (ps : List ℤ)
    → ltb b a ≡ false
    → a + t < 2 ^ 31
    → valid_prices f (pos (a + t)) (pos b) (pos t) ≡ some ps
    → valid_prices (suc f) (pos a) (pos b) (pos t) ≡ some (pos a ∷ ps)
unfolding valid_prices
valid_prices_more f a b t ps e h r =
    let l : ltb (a + t) (2 ^ 31) ≡ true = ground (arith, h) in rw (e, valid_prices, l, r) refl

nth_price-suc : (a b t k : ℕ) → nth_price (a + t) b t k ≡ nth_price a b t (suc k)
nth_price-suc a b t k =
    let e : a + t + k * t ≡ a + suc k * t = grind arith in
    ap (λ (p : ℕ). if leb p b then some (pos p) else none) e

nth_price-behind : (a b t k : ℕ) → b < a → nth_price a b t k ≡ none
nth_price-behind a b t k h = let e : leb (a + k * t) b ≡ false = ground (arith, h) in rw e refl

nth_price-cons :
    (a b t : ℕ) (ps : List ℤ)
    → a ≤ b
    → ((k : ℕ) → get_elem? ps k ≡ nth_price (a + t) b t k)
    → (k : ℕ) → get_elem? (pos a ∷ ps) k ≡ nth_price a b t k
nth_price-cons a b t ps h g zero =
    let z : a + 0 * t ≡ a = omega arith in
    let e : leb (a + 0 * t) b ≡ true = ground (arith, h, z) in
    rw e (ap (λ (p : ℕ). some (pos p)) (sym z))
nth_price-cons a b t ps h g (suc k) = g k ∙ nth_price-suc a b t k

-- For a lowest price that is not negative and a highest price a tick below the largest `int`: the loop ends
-- in as many rounds as there are numbers in the range, and one more, and the prices are the lowest price
-- and all that are a whole number of ticks above it, in order, up to the highest.
pub valid_prices-nth_price :
    (f a b t : ℕ)
    → 0 < t
    → b + t < 2 ^ 31
    → (suc b - a) + 1 ≤ f
    → (ps : List ℤ) × (valid_prices f (pos a) (pos b) (pos t) ≡ some ps)
      × ((k : ℕ) → get_elem? ps k ≡ nth_price a b t k)
valid_prices-nth_price zero a b t ht hb hf = absurd (omega arith)
valid_prices-nth_price (suc f) a b t ht hb hf = elim (Bool-cases (ltb b a)) [
  | inl e ↦
      ([], valid_prices_end f a b t e, λ k. sym (nth_price-behind a b t k (ground (arith, e))))
  | inr e ↦
      let le : a ≤ b = ground (arith, e) in
      let (ps, h, g) = valid_prices-nth_price f (a + t) b t ht hb (omega (arith, ht, hf, le)) in
      (pos a ∷ ps, valid_prices_more f a b t ps e (omega arith) h, nth_price-cons a b t ps le g)
]
