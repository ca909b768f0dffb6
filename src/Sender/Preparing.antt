-- ===== src/Sender/Preparing.antt =====
-- clients/tcp_order_sender.cpp: the messages that the client prepares. The distributions are a parameter.
use hft_orderbook_benchmark.Common.{
  ℕ, zero, suc, ◌+◌, ◌-◌, ◌^◌, true, false, List, [], ◌∷◌, Option, none, some, ◌%◌, if◌then◌else◌,
  ltb, length, get_elem?,
}
use hft_orderbook_benchmark.Fix.Text.{Bytes}
use hft_orderbook_benchmark.Fix.{◌>>=◌}
use hft_orderbook_benchmark.Sender.{ℤ, pos, negsuc, create_fix_message}
use hft_orderbook_benchmark.Sender.Options.{Options, int_lt}

-- `none` where the sum is no `int`, which is undefined.
abbrev pub in_int : ℤ → Option ℤ
in_int (pos n) = if ltb n (2 ^ 31) then some (pos n) else none
in_int (negsuc n) = if ltb n (2 ^ 31) then some (negsuc n) else none

abbrev pub plus : ℤ → ℤ → ℤ
plus (pos a) (pos b) = pos (a + b)
plus (pos a) (negsuc b) = if ltb b a then pos (a - suc b) else negsuc (b - a)
plus (negsuc a) (pos b) = if ltb a b then pos (b - suc a) else negsuc (a - b)
plus (negsuc a) (negsuc b) = negsuc (suc (a + b))

-- `for (int price = minPrice; price <= maxPrice; price += tickSize)`.
unfoldable pub valid_prices : ℕ → ℤ → ℤ → ℤ → Option (List ℤ)
valid_prices zero price max tick = none
valid_prices (suc f) price max tick = elim (int_lt max price) [
  | true ↦ some []
  | false ↦ in_int (plus price tick) >>= λ next.
      valid_prices f next max tick >>= λ rest. some (price ∷ rest)
]

-- How far the highest price is from the lowest.
abbrev pub distance : ℤ → ℤ → ℕ
distance (pos a) (pos b) = b - a
distance (pos a) (negsuc b) = 0
distance (negsuc a) (pos b) = suc a + b
distance (negsuc a) (negsuc b) = a - b

-- The calls of `std::uniform_int_distribution`: what it draws from the numbers `low` to `high` for the order
-- `i`.
pub record Draws : Type 0 where
  pub price_index : (low high i : ℕ) → ℕ
  pub quantity : (low high : ℤ) → ℕ → ℤ
  pub side : (low high : ℤ) → ℕ → ℤ

module _ (draws : Draws) where
  -- The messages from the number `i` on; `validPrices.size() - 1` is a `size_t`.
  unfoldable pub messages_from : Options → List ℤ → (i n : ℕ) → Option (List Bytes)
  messages_from o prices i zero = some []
  messages_from o prices i (suc n) =
      let last = (length prices + 2 ^ 64 - 1) % 2 ^ 64 in
      get_elem? prices (draws.price_index 0 last i) >>= λ price.
      messages_from o prices (i + 1) n >>= λ rest. some (
        create_fix_message i price (draws.quantity o.min_qty o.max_qty i)
          (draws.side (pos 1) (pos 2) i)
        ∷ rest)

  -- `reserve` throws for a negative number of orders, and a distribution on a range whose highest number is
  -- below the lowest is undefined.
  unfoldable pub prepare : Options → Option (List Bytes)
  unfolding valid_prices messages_from
  prepare o = elim o.order_count [
    | pos n ↦
        valid_prices (distance o.min_price o.max_price + 2) o.min_price o.max_price o.tick_size
        >>= λ prices. if int_lt o.max_qty o.min_qty then none else messages_from o prices 0 n
    | negsuc n ↦ none
  ]
