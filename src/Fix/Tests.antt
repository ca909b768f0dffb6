-- ===== src/Fix/Tests.antt =====
-- A limit order to buy, as a message, and the theorems at it.
use hft_orderbook_benchmark.Common.{
  ℕ, ◌+◌, ◌≡◌, ◌≢◌, ◌≤◌, ◌⊎◌, refl, ◌++◌, none, some, arith, length,
}
use hft_orderbook_benchmark.Core.{Order, buy, limit}
use hft_orderbook_benchmark.Samples.{message, more}
use hft_orderbook_benchmark.Fix.{
  get_tag_value, parse, parse_order, parse_side, parse_type, parse_optional, checksum_tag,
}
use hft_orderbook_benchmark.Fix.Text.{find, same, from_chars}
use hft_orderbook_benchmark.Fix.Framing.{parse-consumed, parse-append}
use hft_orderbook_benchmark.Fix.Orders.{IsAccepted, parse_order-IsAccepted}

abbrev parsed : Order
parsed = record {
  id = 17;
  price = 100;
  quantity = 5;
  side = buy;
  type = limit;
  timestamp = 0;
  receive_timestamp = 0;
  send_timestamp = 0;
}

parse-message : parse message ≡ (some parsed, 50)
unfolding parse parse_order get_tag_value same from_chars parse_side parse_type parse_optional
parse-message = refl

parse_order-message : parse_order message ≡ some parsed
unfolding parse_order get_tag_value same from_chars parse_side parse_type parse_optional
parse_order-message = refl

parse-consumed_example :
    (parse message ≡ (none, 0))
    ⊎ ((p : ℕ) × (find checksum_tag message ≡ some p)
        × ((parse message).1 ≡ p + 8)
        × (p + 8 ≤ length message))
parse-consumed_example = parse-consumed message

is_consumed : (parse message).1 ≢ 0
is_consumed = rw parse-message (λ e. absurd (omega (arith, e)))

parse-append_example : parse (message ++ more) ≡ parse message
parse-append_example = parse-append message more is_consumed

parse_order-IsAccepted_example : IsAccepted parsed
parse_order-IsAccepted_example = parse_order-IsAccepted message parsed parse_order-message
