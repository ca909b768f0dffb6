-- ===== src/Samples.antt =====
-- Orders, calls and messages that the tests of several books share.
use hft_orderbook_benchmark.Common.{ℕ, List, [], ◌∷◌}
use hft_orderbook_benchmark.Core.{Order, Side, buy, sell, limit}
use hft_orderbook_benchmark.Fix.Text.{Bytes, soh}
use hft_orderbook_benchmark.Contract.Runs.{Op, add, cancel, modify, match}

abbrev pub order : ℕ → ℕ → ℕ → Side → Order
order id price quantity side = record {
  id = id;
  price = price;
  quantity = quantity;
  side = side;
  type = limit;
  timestamp = 0;
  receive_timestamp = 0;
  send_timestamp = 0;
}

-- Two bids and an ask, of which the best two cross, then a match, a change and a cancellation.
abbrev pub session : List Op
session =
    add (order 1 100 5 buy)
    ∷ add (order 2 102 3 buy)
    ∷ add (order 3 101 4 sell)
    ∷ match
    ∷ modify 3 9
    ∷ cancel 1
    ∷ []

-- "8=FIX.4.2|35=D|11=17|54=1|44=100|38=5|40=2|10=128|", with SOH for each bar.
abbrev pub message : Bytes
message =
    b'8' ∷ b'=' ∷ b'F' ∷ b'I' ∷ b'X' ∷ b'.' ∷ b'4' ∷ b'.' ∷ b'2' ∷ soh ∷ b'3' ∷ b'5' ∷ b'=' ∷ b'D'
    ∷ soh ∷ b'1' ∷ b'1' ∷ b'=' ∷ b'1' ∷ b'7' ∷ soh ∷ b'5' ∷ b'4' ∷ b'=' ∷ b'1' ∷ soh ∷ b'4' ∷ b'4'
    ∷ b'=' ∷ b'1' ∷ b'0' ∷ b'0' ∷ soh ∷ b'3' ∷ b'8' ∷ b'=' ∷ b'5' ∷ soh ∷ b'4' ∷ b'0' ∷ b'=' ∷ b'2'
    ∷ soh ∷ b'1' ∷ b'0' ∷ b'=' ∷ b'1' ∷ b'2' ∷ b'8' ∷ soh ∷ []

-- The front of the next message.
abbrev pub more : Bytes
more = b'8' ∷ b'=' ∷ b'F' ∷ b'I' ∷ b'X' ∷ []
