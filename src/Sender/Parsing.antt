-- ===== src/Sender/Parsing.antt =====
-- clients/tcp_order_sender.cpp: the gateway's parser reads back the messages that the client makes.
use hft_orderbook_benchmark.Common.{
  ℕ, ◌+◌, ◌/◌, ◌%◌, ◌^◌, ◌≤◌, ◌<◌, ◌≡◌, refl, ap, ◌∙◌, true, false, ◌&&◌, ◌++◌, some, arith, length,
  is_empty, max_u64,
}
use hft_orderbook_benchmark.Core.{Side, buy, sell}
use hft_orderbook_benchmark.Fix.Text.{Bytes, print_number, is_digit, from_chars, same}
use hft_orderbook_benchmark.Fix.{parse, parse_side}
use hft_orderbook_benchmark.Fix.Framing.{parse-append}
use hft_orderbook_benchmark.Fix.Numbers.{
  from_chars-print_number, print_number-All, is_empty-print_number,
}
use hft_orderbook_benchmark.Fix.Fields.{IsPlain}
use hft_orderbook_benchmark.Sender.{
  ℤ, pos, message_body, message_header, create_fix_message, checksum,
}
use hft_orderbook_benchmark.Sender.Message.{
  sent, message, message-parse, message-parse_order, digits, create_fix_message-joined,
}

-- `side`, 1 for buy and 2 for sell.
abbrev pub side_number : Side → ℕ
side_number buy = 1
side_number sell = 2

parse_side-print_number : (side : Side) → parse_side (print_number (side_number side)) ≡ some side
unfolding parse_side same print_number
parse_side-print_number buy = refl
parse_side-print_number sell = refl

-- A checksum is below 256, so its three bytes are digits.
digits_read :
    (n : ℕ)
    → n < 256
    → (is_digit (b'0' + n / 100) && is_digit (b'0' + n / 10 % 10) && is_digit (b'0' + n % 10))
      ≡ true
unfolding is_digit
digits_read n h = ground arith

pub digits-IsPlain : (n : ℕ) → IsPlain (digits n)
digits-IsPlain n = ((λ w. omega arith), ((λ w. omega arith), ((λ w. omega arith), tt)))

filled :
    (n : ℕ)
    → n ≤ max_u64
    → (is_empty (print_number n) ≡ false) × (from_chars (print_number n) ≡ some n)
filled n h = (is_empty-print_number n, from_chars-print_number n h)

message-read :
    (l : Bytes) (id price quantity n : ℕ) (side : Side)
    → IsPlain l
    → id ≤ max_u64
    → (0 < price) × (price < 2 ^ 31)
    → (0 < quantity) × (quantity < 2 ^ 31)
    → n < 256
    → (let xs =
          message l
            (print_number id)
            (print_number (side_number side))
            (print_number quantity)
            (print_number price)
            (digits n) in
        parse xs ≡ (some (sent id price quantity side), length xs))
message-read l id price quantity n side hl hi hp hq hn =
    let i = print_number id in
    let s = print_number (side_number side) in
    let q = print_number quantity in
    let p = print_number price in
    let plain_i = print_number-All id in
    let plain_s = print_number-All (side_number side) in
    let plain_q = print_number-All quantity in
    let plain_p = print_number-All price in
    message-parse l i s q p (digits n) hl plain_i plain_s plain_q plain_p (digits-IsPlain n)
      (b'0' + n / 100) (b'0' + n / 10 % 10) (b'0' + n % 10) refl (digits_read n hn)
    ∙ rw
        (message-parse_order l i s q p (digits n) hl plain_i plain_s plain_q plain_p
          (digits-IsPlain n) id quantity price side (filled id hi) (parse_side-print_number side)
          (filled quantity (omega arith)) (filled price (omega arith)) (hq.0) (hp.0))
        refl

length-create_fix_message :
    (id : ℕ) (price quantity side : ℤ) → 0 < length (create_fix_message id price quantity side)
unfolding create_fix_message message_header
length-create_fix_message id price quantity side = omega arith

-- The message that the client makes of an order is read back as that order, and exactly its bytes are
-- consumed, whatever bytes follow it in the buffer.
-- Holds for an id in 64 bits and a positive `int` price and quantity.
pub parse-create_fix_message :
    (id price quantity : ℕ) (side : Side) (rest : Bytes)
    → id ≤ max_u64
    → (0 < price) × (price < 2 ^ 31)
    → (0 < quantity) × (quantity < 2 ^ 31)
    → (let xs = create_fix_message id (pos price) (pos quantity) (pos (side_number side)) in
        parse (xs ++ rest) ≡ (some (sent id price quantity side), length xs))
parse-create_fix_message id price quantity side rest hi hp hq =
    let xs = create_fix_message id (pos price) (pos quantity) (pos (side_number side)) in
    let body = message_body id (pos price) (pos quantity) (pos (side_number side)) in
    let sum = checksum 0 (message_header (length body) ++ body) % 256 in
    let whole : parse xs ≡ (some (sent id price quantity side), length xs) =
      rw (create_fix_message-joined id price quantity (side_number side)) (
        message-read (print_number (length body)) id price quantity sum side
          (print_number-All (length body)) hi hp hq (omega arith)) in
    parse-append xs rest (λ e. absurd (
      omega (
        arith,
        ap (λ r. r.1) whole,
        e,
        length-create_fix_message id (pos price) (pos quantity) (pos (side_number side)),
      )))
    ∙ whole
