-- ===== src/Fix/Orders.antt =====
-- What the parser accepts as an order.
use hft_orderbook_benchmark.Common.{
  ℕ, ◌≤◌, ◌<◌, ◌≡◌, false, ◌&&◌, [], ◌∷◌, Option, none, some, ◌==◌, arith, is_empty, max_u64,
  Bool-cases, inl, inr,
}
use hft_orderbook_benchmark.Core.{Order}
use hft_orderbook_benchmark.Fix.Text.{Bytes, from_chars, in_u64, number}
use hft_orderbook_benchmark.Fix.{get_tag_value, parse_optional, parse_order, is_limit}

in_u64-le : (o : Option ℕ) (n : ℕ) → in_u64 o ≡ some n → n ≤ max_u64
in_u64-le none n h = absurd (cc)
in_u64-le (some m) n h = ground arith

from_chars-le : (v : Bytes) (n : ℕ) → from_chars v ≡ some n → n ≤ max_u64
unfolding from_chars
from_chars-le [] n h = absurd (cc)
from_chars-le (c ∷ cs) n h = in_u64-le (number 0 (c ∷ cs)) n h

parse_optional-le : (v : Bytes) (n : ℕ) → parse_optional v ≡ some n → n ≤ max_u64
unfolding parse_optional
parse_optional-le v n h = elim (Bool-cases (is_empty v)) [
  | inl e ↦ ground arith
  | inr e ↦ from_chars-le v n (rw e at h)
]

-- The fields of an accepted order: a quantity, a limit price unless it is a market order, and numbers
-- that fit their types. The time of receipt is left for the gateway.
pub record IsAccepted (o : Order) : Type 0 where
  pub quantity_pos : 0 < o.quantity
  pub quantity_fits : o.quantity ≤ max_u64
  pub id_fits : o.id ≤ max_u64
  pub price_fits : o.price ≤ max_u64
  pub limit_price : (is_limit o.type && o.price == 0) ≡ false
  pub send_timestamp_fits : o.send_timestamp ≤ max_u64
  pub not_received : o.receive_timestamp ≡ 0

-- An order that the parser returns has a positive quantity, a price unless it is a market order, and
-- numbers below 2^64; the time of receipt is 0.
pub parse_order-IsAccepted :
    (message : Bytes) (o : Order) → parse_order message ≡ some o → IsAccepted o
unfolding parse_order
parse_order-IsAccepted message o h = ground (
  arith,
  from_chars-le (get_tag_value message 11) o.id,
  from_chars-le (get_tag_value message 38) o.quantity,
  parse_optional-le (get_tag_value message 44) o.price,
  parse_optional-le (get_tag_value message 60) o.send_timestamp,
)
