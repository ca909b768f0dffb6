-- ===== src/Sender/Message.antt =====
-- clients/tcp_order_sender.cpp: the fields of the client's messages, as the gateway's parser finds them.
use mathlib.Core.List.{append_assoc}
use hft_orderbook_benchmark.Common.{
  ℕ, ◌+◌, ◌/◌, ◌%◌, ◌<◌, ◌≡◌, refl, ◌∙◌, true, false, ◌&&◌, List, [], ◌∷◌, ◌++◌, some, ltb, arith,
  All, length, drop, is_empty,
}
use hft_orderbook_benchmark.Core.{Order, Side, limit}
use hft_orderbook_benchmark.Fix.Text.{
  find, find_from, Bytes, soh, print_number, starts_with, is_digit, from_chars, same, decimal,
}
use hft_orderbook_benchmark.Fix.{
  parse, parse_order, parse_side, parse_type, parse_optional, get_tag_value,
}
use hft_orderbook_benchmark.Fix.Fields.{IsPlain, joined, seek, Found, seek-Found, seek-none}
use hft_orderbook_benchmark.Gateway.Frames.{type_tag, has_type}
use hft_orderbook_benchmark.Fix.Values.{get_tag_value-Found, get_tag_value-none, find_from-Found}
use hft_orderbook_benchmark.Fix.Trailer.{parse-framed}
use hft_orderbook_benchmark.Sender.{
  pos, print_int, message_body, message_header, message_trailer, create_fix_message, checksum,
}

has_type-found :
    (xs : Bytes) (p e : ℕ)
    → find type_tag xs ≡ some p
    → find_from soh (p + 4) xs ≡ some e
    → has_type xs ≡ true
unfolding has_type
has_type-found xs p e h k = rw (h, k, has_type) refl

-- The order that the parser makes of a message.
abbrev pub sent : ℕ → ℕ → ℕ → Side → Order
sent id price quantity side = record {
  id = id;
  price = price;
  quantity = quantity;
  side = side;
  type = limit;
  timestamp = 0;
  receive_timestamp = 0;
  send_timestamp = 0;
}

-- A field of a tag of two digits.
field_IsPlain :
    (a b : ℕ) (v : Bytes) → (ltb soh a && ltb soh b) ≡ true → IsPlain v → IsPlain (a ∷ b ∷ b'=' ∷ v)
field_IsPlain a b v e h =
    ((λ w. ground (arith, e)), ((λ w. ground (arith, e)), ((λ w. omega arith), h)))

-- The fields of a message with the length `l`, the id `i`, the side `s`, the quantity `q`, the price `p`
-- and the checksum `c`.
module _ (l i s q p c : Bytes) where
  abbrev first : Bytes
  first = b'8' ∷ b'=' ∷ b'F' ∷ b'I' ∷ b'X' ∷ b'.' ∷ b'4' ∷ b'.' ∷ b'2' ∷ []

  abbrev others : List Bytes
  others =
      (b'9' ∷ b'=' ∷ l)
      ∷ (b'3' ∷ b'5' ∷ b'=' ∷ b'D' ∷ [])
      ∷ (b'1' ∷ b'1' ∷ b'=' ∷ i)
      ∷ (b'5' ∷ b'4' ∷ b'=' ∷ s)
      ∷ (b'3' ∷ b'8' ∷ b'=' ∷ q)
      ∷ (b'4' ∷ b'4' ∷ b'=' ∷ p)
      ∷ (b'4' ∷ b'0' ∷ b'=' ∷ b'2' ∷ [])
      ∷ (b'1' ∷ b'0' ∷ b'=' ∷ c)
      ∷ []

  abbrev pub message : Bytes
  message = joined (first ∷ others)

  module _ (hl : IsPlain l) (hi : IsPlain i) (hs : IsPlain s) (hq : IsPlain q) (hp : IsPlain p)
      (hc : IsPlain c) where
    first-IsPlain : IsPlain first
    first-IsPlain = omega arith

    plain : All IsPlain others
    plain = (
      ((λ w. omega arith), ((λ w. omega arith), hl)),
      (
        field_IsPlain b'3' b'5' (b'D' ∷ []) refl ((λ w. omega arith), tt),
        (
          field_IsPlain b'1' b'1' i refl hi,
          (
            field_IsPlain b'5' b'4' s refl hs,
            (
              field_IsPlain b'3' b'8' q refl hq,
              (
                field_IsPlain b'4' b'4' p refl hp,
                (
                  field_IsPlain b'4' b'0' (b'2' ∷ []) refl ((λ w. omega arith), tt),
                  (field_IsPlain b'1' b'0' c refl hc, tt),
                ),
              ),
            ),
          ),
        ),
      ),
    )

    found :
        (key t : Bytes) (ts : List Bytes)
        → IsPlain key
        → seek key others ≡ some (t, ts)
        → Found key message t ts
    found key t ts k e = seek-Found key first t others ts k first-IsPlain plain e

    -- A tag of two digits.
    value :
        (tag a b : ℕ) (v : Bytes) (ts : List Bytes)
        → IsPlain (a ∷ b ∷ b'=' ∷ [])
        → decimal tag ++ b'=' ∷ [] ≡ a ∷ b ∷ b'=' ∷ []
        → IsPlain v
        → seek (a ∷ b ∷ b'=' ∷ []) others ≡ some (a ∷ b ∷ b'=' ∷ v, ts)
        → get_tag_value message tag ≡ v
    value tag a b v ts k d h e =
        get_tag_value-Found tag (a ∷ b ∷ b'=' ∷ []) v message ts d h
          (found (a ∷ b ∷ b'=' ∷ []) (a ∷ b ∷ b'=' ∷ v) ts k e)

    message_type : get_tag_value message 35 ≡ b'D' ∷ []
    unfolding decimal starts_with
    message_type =
        value 35 b'3' b'5' (b'D' ∷ []) (drop 2 others) (field_IsPlain b'3' b'5' [] refl tt) refl
          ((λ w. omega arith), tt) refl

    message-has_type : has_type message ≡ true
    unfolding has_type starts_with
    message-has_type =
        let f =
          found (b'3' ∷ b'5' ∷ b'=' ∷ []) (b'3' ∷ b'5' ∷ b'=' ∷ b'D' ∷ []) (drop 2 others)
            (field_IsPlain b'3' b'5' [] refl tt) refl in
        has_type-found message (length f.before) (length f.before + 4 + 1) f.place (
          find_from-Found (b'3' ∷ b'5' ∷ b'=' ∷ []) (b'D' ∷ []) message (drop 2 others)
            ((λ w. omega arith), tt) f)

    pub message-typed : (has_type message ≡ true) × (get_tag_value message 35 ≡ b'D' ∷ [])
    message-typed = (message-has_type, message_type)

    id_value : get_tag_value message 11 ≡ i
    unfolding decimal starts_with
    id_value =
        value 11 b'1' b'1' i (drop 3 others) (field_IsPlain b'1' b'1' [] refl tt) refl hi refl

    side_value : get_tag_value message 54 ≡ s
    unfolding decimal starts_with
    side_value =
        value 54 b'5' b'4' s (drop 4 others) (field_IsPlain b'5' b'4' [] refl tt) refl hs refl

    quantity_value : get_tag_value message 38 ≡ q
    unfolding decimal starts_with
    quantity_value =
        value 38 b'3' b'8' q (drop 5 others) (field_IsPlain b'3' b'8' [] refl tt) refl hq refl

    price_value : get_tag_value message 44 ≡ p
    unfolding decimal starts_with
    price_value =
        value 44 b'4' b'4' p (drop 6 others) (field_IsPlain b'4' b'4' [] refl tt) refl hp refl

    type_value : get_tag_value message 40 ≡ b'2' ∷ []
    unfolding decimal starts_with
    type_value =
        value 40 b'4' b'0' (b'2' ∷ []) (drop 7 others) (field_IsPlain b'4' b'0' [] refl tt) refl
          ((λ w. omega arith), tt) refl

    timestamp_value : get_tag_value message 60 ≡ []
    unfolding decimal starts_with
    timestamp_value =
        get_tag_value-none 60 (b'6' ∷ b'0' ∷ b'=' ∷ []) message refl
          (seek-none b'6' (b'0' ∷ b'=' ∷ []) first others (field_IsPlain b'6' b'0' [] refl tt)
            first-IsPlain plain refl)
          refl

    pub message-parse_order :
        (id quantity price : ℕ) (side : Side)
        → (is_empty i ≡ false) × (from_chars i ≡ some id)
        → parse_side s ≡ some side
        → (is_empty q ≡ false) × (from_chars q ≡ some quantity)
        → (is_empty p ≡ false) × (from_chars p ≡ some price)
        → 0 < quantity
        → 0 < price
        → parse_order message ≡ some (sent id price quantity side)
    unfolding parse_order same parse_type parse_optional
    message-parse_order id quantity price side e f g h zq zp =
        rw
          (
            parse_order, message_type, id_value, side_value, quantity_value, price_value,
            type_value, timestamp_value, e.0, e.1, f, g.0, g.1, h.0, h.1,
          )
          (ground arith)

    pub message-parse :
        (x y z : ℕ)
        → c ≡ x ∷ y ∷ z ∷ []
        → (is_digit x && is_digit y && is_digit z) ≡ true
        → parse message ≡ (parse_order message, length message)
    unfolding starts_with
    message-parse x y z e h =
        let f =
          found (b'1' ∷ b'0' ∷ b'=' ∷ []) (b'1' ∷ b'0' ∷ b'=' ∷ c) []
            (field_IsPlain b'1' b'0' [] refl tt) refl in
        parse-framed f.before message x y z h (f.split ∙ rw e refl) f.place

-- The checksum's digits.
abbrev pub digits : ℕ → Bytes
digits n = (b'0' + n / 100) ∷ (b'0' + n / 10 % 10) ∷ (b'0' + n % 10) ∷ []

pub create_fix_message-joined :
    (id price quantity n : ℕ)
    → create_fix_message id (pos price) (pos quantity) (pos n) ≡ (
        let body = message_body id (pos price) (pos quantity) (pos n) in
        message
          (print_number (length body))
          (print_number id)
          (print_number n)
          (print_number quantity)
          (print_number price)
          (digits (checksum 0 (message_header (length body) ++ body) % 256)))
unfolding create_fix_message message_body message_header message_trailer print_int
create_fix_message-joined id price quantity n = simp (append_assoc) refl
