-- ===== src/Fix.antt =====
-- libs/fix/fix_parser.hpp, `FIXParser`. Bytes are numbers, and a `std::string_view` is the list of its
-- bytes.
pub mod Text
pub mod Numbers
pub mod Fields
pub mod Values
pub mod Trailer
pub mod Framing
pub mod Orders
mod Tests
use hft_orderbook_benchmark.Common.{
  ℕ, zero, suc, ◌+◌, ◌-◌, Bool, true, false, not, ◌&&◌, ◌||◌, List, [], ◌∷◌, ◌++◌, Option, none,
  some, if◌then◌else◌, ltb, leb, ◌==◌, length, get_or, take, drop, is_empty, max_u64,
}
use hft_orderbook_benchmark.Core.{Order, Side, buy, sell, OrderType, limit, market}
use hft_orderbook_benchmark.Fix.Text.{
  Bytes, soh, starts_with, find, find_from, substr, same, is_digit, from_chars, decimal,
}

-- The bytes from `start` up to the next SOH, if there is one.
unfoldable pub value_at : Bytes → ℕ → Bytes
unfolding find_from substr
value_at message start = elim (find_from soh start message) [
  | none ↦ []
  | some end ↦ substr start (end - start) message
]

-- `getTagValue`: the value of the first field of the tag, or of a field at the very start. A tag that
-- is missing and one with an empty value both give the empty view.
unfoldable pub get_tag_value : Bytes → ℕ → Bytes
unfolding find starts_with value_at decimal
get_tag_value message tag =
    let key = decimal tag ++ b'=' ∷ [] in
    elim (find (soh ∷ key) message) [
      | none ↦ if starts_with key message then value_at message (length key) else []
      | some p ↦ value_at message (p + length (soh ∷ key))
    ]

-- `getMessageType`.
unfoldable pub get_message_type : Bytes → Bytes
unfolding get_tag_value
get_message_type message = get_tag_value message 35

infixl 5 ◌>>=◌ ◌>>◌
abbrev pub ◌>>=◌ {ℓ κ} : {A : Type ℓ} {B : Type κ} → Option A → (A → Option B) → Option B
none >>= f = none
some a >>= f = f a

abbrev pub ◌>>◌ {ℓ} : {B : Type ℓ} → Option (Unit {0}) → Option B → Option B
m >> k = m >>= λ u. k

abbrev pub guard : Bool → Option (Unit {0})
guard true = some tt
guard false = none

-- Tag 54.
unfoldable pub parse_side : Bytes → Option Side
unfolding same
parse_side v =
    if same v (b'1' ∷ []) then some buy else if same v (b'2' ∷ []) then some sell else none

-- Tag 40.
unfoldable pub parse_type : Bytes → Option OrderType
unfolding same
parse_type v =
    if same v (b'1' ∷ []) then some market else if same v (b'2' ∷ []) then some limit else none

-- A number that may be left out, and is then 0 (tags 44 and 60).
unfoldable pub parse_optional : Bytes → Option ℕ
unfolding from_chars
parse_optional v = if is_empty v then some 0 else from_chars v

abbrev pub is_limit : OrderType → Bool
is_limit limit = true
is_limit market = false

-- The body of `parse` after the frame has been found: the fields in the order of the source.
unfoldable pub parse_order : Bytes → Option Order
parse_order message = do
  let message_type = get_tag_value message 35
  guard (not (same message_type (b'U' ∷ b'1' ∷ [])))
  guard (same message_type (b'D' ∷ []))
  let client_order_id = get_tag_value message 11
  guard (not (is_empty client_order_id))
  id ← from_chars client_order_id
  side ← parse_side (get_tag_value message 54)
  let price_string = get_tag_value message 44
  price ← parse_optional price_string
  let quantity_string = get_tag_value message 38
  guard (not (is_empty quantity_string))
  quantity ← from_chars quantity_string
  guard (not (quantity == 0))
  type ← parse_type (get_tag_value message 40)
  guard (not (is_limit type && is_empty price_string))
  guard (not (is_limit type && price == 0))
  send_timestamp ← parse_optional (get_tag_value message 60)
  some (record {
    id = id;
    price = price;
    quantity = quantity;
    side = side;
    type = type;
    timestamp = 0;
    receive_timestamp = 0;
    send_timestamp = send_timestamp;
  })

-- "\x0110=".
abbrev pub checksum_tag : Bytes
checksum_tag = soh ∷ b'1' ∷ b'0' ∷ b'=' ∷ []

-- The checksum field at the position `p` of a buffer that holds all of it.
unfoldable pub parse_frame : Bytes → ℕ → Option Order × ℕ
unfolding is_digit
parse_frame buffer p =
    if not (is_digit (get_or buffer (p + 4) 0))
      || not (is_digit (get_or buffer (p + 5) 0))
      || not (is_digit (get_or buffer (p + 6) 0))
    then (none, p + 8)
    else if not (get_or buffer (p + 7) 0 == soh)
    then (none, p + 8)
    else (parse_order (take (p + 8) buffer), p + 8)

-- `parse`: the order, if the bytes begin with a message that holds one, and `bytesConsumed`.
unfoldable pub parse : Bytes → Option Order × ℕ
unfolding find parse_frame
parse buffer = elim (find checksum_tag buffer) [
  | none ↦ (none, 0)
  | some p ↦ if ltb (length buffer) (p + 8) then (none, 0) else parse_frame buffer p
]
