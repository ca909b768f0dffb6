-- ===== src/ArrayBook/Prices.antt =====
-- src/orderbooks/array_order_book.cpp: the prices and the indices of a book that the constructor has
-- made.
use native.Mathlib.Nat.{mul-le-mul_right, div-add-mod', div-add-mod, div-le_of_le-mul, div-le_self}
use hft_orderbook_benchmark.Common.{
  sym, ◌∙◌, ℕ, ◌+◌, ◌-◌, ◌*◌, ◌/◌, ◌%◌, ◌^◌, ◌≤◌, ◌<◌, ◌≡◌, Bool, List, true, arith, max_u64,
}
use hft_orderbook_benchmark.Containers.OrderList.{OrderList}
use hft_orderbook_benchmark.Containers.Index.{Index}
use hft_orderbook_benchmark.ArrayBook.{
  ArrayBook, ArrayLocation, ok, create, price_to_index, index_to_price, is_valid_price,
}

-- What the constructor settles, and no operation changes.
pub record IsConfigured (k : ArrayBook) : Type 0 where
  pub range : k.min_price < k.max_price
  pub fits : k.max_price ≤ max_u64
  pub tick : 0 < k.tick_size
  pub divisible : (k.max_price - k.min_price) % k.tick_size ≡ 0
  pub levels : k.num_levels ≡ (k.max_price - k.min_price) / k.tick_size + 1

-- The configuration does not depend on the state.
pub reconfigured :
    {k : ArrayBook} {bs ks : List OrderList} {fs gs : List Bool} {ix : Index ArrayLocation}
    {best_bid best_ask next : ℕ}
    → IsConfigured k
    → IsConfigured (record k {
      bid_levels = bs;
      ask_levels = ks;
      active_bid_levels = fs;
      active_ask_levels = gs;
      order_lookup = ix;
      cached_best_bid = best_bid;
      cached_best_ask = best_ask;
      next_cell = next;
    })
reconfigured c = record {
  range = c.range;
  fits = c.fits;
  tick = c.tick;
  divisible = c.divisible;
  levels = c.levels;
}

no_wrap : (lo hi tick : ℕ) → hi < max_u64 → ((hi - lo) / tick + 1) % 2 ^ 64 ≡ (hi - lo) / tick + 1
no_wrap lo hi tick h = omega (arith, div-le_self (hi - lo) tick)

-- A book that the constructor returns has a range that is not empty, a tick that is not 0 and divides
-- it, and a level for every tick, when the highest price is below the largest 64-bit number.
pub create-IsConfigured :
    (lo hi tick : ℕ) {k : ArrayBook} → hi < max_u64 → create lo hi tick ≡ ok k → IsConfigured k
unfolding create
create-IsConfigured lo hi tick h e = ground (arith, no_wrap lo hi tick h)

difference : (p lo : ℕ) → lo ≤ p → p ≤ max_u64 → (p + 2 ^ 64 - lo) % 2 ^ 64 ≡ p - lo
difference p lo h b = omega arith

whole : (d t : ℕ) → d % t ≡ 0 → d / t * t ≡ d
whole d t h = grind (arith, div-add-mod' d t)

div_mono : (d e t : ℕ) → e % t ≡ 0 → d ≤ e → d / t ≤ e / t
div_mono d e t he h = div-le_of_le-mul t (grind (arith, div-add-mod e t))

valid :
    (k : ArrayBook) (p : ℕ)
    → is_valid_price k p ≡ true
    → (k.min_price ≤ p) × (p ≤ k.max_price) × ((p - k.min_price) % k.tick_size ≡ 0)
unfolding is_valid_price
valid k p h = ground arith

sum_wraps : (lo p : ℕ) → lo ≤ p → p ≤ max_u64 → (lo + (p - lo)) % 2 ^ 64 ≡ p
sum_wraps lo p h b = omega arith

price_to_index-valid :
    (k : ArrayBook) (p : ℕ)
    → IsConfigured k
    → is_valid_price k p ≡ true
    → price_to_index k p ≡ (p - k.min_price) / k.tick_size
unfolding price_to_index
price_to_index-valid k p c h =
    let v = valid k p h in rw (difference p k.min_price v.0 (omega (arith, v.1, c.fits)))

-- In a book that the constructor made, a valid price has a level inside the arrays, and that level's
-- price is the price again: the 64-bit operations do not wrap around.
pub index_to_price-price_to_index :
    (k : ArrayBook) (p : ℕ)
    → IsConfigured k
    → is_valid_price k p ≡ true
    → (index_to_price k (price_to_index k p) ≡ p) × (price_to_index k p < k.num_levels)
unfolding index_to_price
index_to_price-price_to_index k p c h =
    let v = valid k p h in
    let b : p ≤ max_u64 = omega (arith, v.1, c.fits) in
    let e = price_to_index-valid k p c h in
    let m =
      div_mono (p - k.min_price) (k.max_price - k.min_price) k.tick_size c.divisible
        (omega (arith, v.1)) in
    (
      (rw (e, whole (p - k.min_price) k.tick_size v.2, sum_wraps k.min_price p v.0 b)),
      omega (arith, e, m, c.levels),
    )

mul_mono : (i n t : ℕ) → i ≤ n → i * t ≤ n * t
mul_mono i n t h = mul-le-mul_right t h

-- The price of a level inside the arrays is not above the highest one, and does not wrap around.
pub index_to_price-inside :
    (k : ArrayBook) (i : ℕ)
    → IsConfigured k
    → i < k.num_levels
    → (k.min_price + i * k.tick_size ≤ k.max_price)
      × (index_to_price k i ≡ k.min_price + i * k.tick_size)
unfolding index_to_price
index_to_price-inside k i c h =
    let m =
      mul_mono i ((k.max_price - k.min_price) / k.tick_size) k.tick_size
        (omega (arith, c.levels, h)) in
    let w = whole (k.max_price - k.min_price) k.tick_size c.divisible in
    (omega (arith, m, w, c.range), omega (arith, m, w, c.range, c.fits))

pub price-on_level :
    (k : ArrayBook) (p : ℕ)
    → IsConfigured k
    → is_valid_price k p ≡ true
    → (p ≡ k.min_price + price_to_index k p * k.tick_size)
      × (price_to_index k p < k.num_levels)
      × (k.min_price ≤ p)
      × (p ≤ k.max_price)
price-on_level k p c h =
    let e = index_to_price-price_to_index k p c h in
    let v = valid k p h in
    (sym e.0 ∙ (index_to_price-inside k (price_to_index k p) c e.1).1, e.1, v.0, v.1)
