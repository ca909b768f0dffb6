-- ===== src/Sender/Lines.antt =====
-- clients/tcp_order_sender.cpp: a message of the client at the front of the gateway's buffer.
use hft_orderbook_benchmark.Common.{
  ℕ, ◌+◌, ◌%◌, ◌^◌, ◌≤◌, ◌<◌, ◌≡◌, refl, sym, ap, ◌∙◌, false, [], ◌∷◌, ◌++◌, some, arith, length,
  length-append, max_u64, Bool-cases, inl, inr, ◌==◌,
}
use hft_orderbook_benchmark.Core.{Order}
use hft_orderbook_benchmark.Fix.Text.{Bytes, soh, print_number, same}
use hft_orderbook_benchmark.Fix.{parse, get_message_type}
use hft_orderbook_benchmark.Fix.Framing.{parse-append}
use hft_orderbook_benchmark.Fix.Numbers.{print_number-All, length-print_number}
use hft_orderbook_benchmark.Gateway.{Frame, next_frame}
use hft_orderbook_benchmark.Gateway.Frames.{
  consumed_of, next_frame-consumed, next_frame-le, get_message_type-append,
}
use hft_orderbook_benchmark.Sender.{pos, create_fix_message, message_body, message_header, checksum}
use hft_orderbook_benchmark.Sender.Message.{
  sent, message, message-typed, digits, create_fix_message-joined,
}
use hft_orderbook_benchmark.Sender.Parsing.{side_number, parse-create_fix_message, digits-IsPlain}

-- What the client sends for an order.
abbrev pub line : Order → Bytes
line o = create_fix_message o.id (pos o.price) (pos o.quantity) (pos (side_number o.side))

-- A limit order that the client can send: an `int` price and quantity, both positive, and no times.
pub record IsSendable (o : Order) : Type 0 where
  pub id_fits : o.id ≤ max_u64
  pub price_fits : (0 < o.price) × (o.price < 2 ^ 31)
  pub quantity_fits : (0 < o.quantity) × (o.quantity < 2 ^ 31)
  pub is_plain : sent o.id o.price o.quantity o.side ≡ o

parse-line :
    (o : Order) (rest : Bytes) → IsSendable o → parse (line o ++ rest) ≡ (some o, length (line o))
parse-line o rest v =
    parse-create_fix_message o.id o.price o.quantity o.side rest v.id_fits v.price_fits
      v.quantity_fits
    ∙ ap (λ (r : Order). (some r, length (line o))) v.is_plain

-- The type stands in the message itself.
get_message_type-line : (o : Order) (rest : Bytes) → get_message_type (line o ++ rest) ≡ b'D' ∷ []
unfolding get_message_type
get_message_type-line o rest =
    let n = side_number o.side in
    let body = message_body o.id (pos o.price) (pos o.quantity) (pos n) in
    let sum = checksum 0 (message_header (length body) ++ body) % 256 in
    let l = print_number (length body) in
    let e = create_fix_message-joined o.id o.price o.quantity n in
    let t =
      message-typed l (print_number o.id) (print_number n) (print_number o.quantity)
        (print_number o.price) (digits sum) (print_number-All (length body)) (print_number-All o.id)
        (print_number-All n) (print_number-All o.quantity) (print_number-All o.price)
        (digits-IsPlain sum) in
    get_message_type-append (line o) rest (rw e t.0) ∙ rw e t.1

pub length-line : (o : Order) → 0 < length (line o)
unfolding create_fix_message message_header
length-line o = omega arith

-- A number behind a key of three bytes, and what follows it.
length-field :
    (v rest : Bytes) (a b c d n : ℕ)
    → length v ≤ 20
    → length rest ≤ n
    → length (v ++ a ∷ b ∷ c ∷ d ∷ rest) ≤ 24 + n
length-field v rest a b c d n h k = omega (arith, length-append v (a ∷ b ∷ c ∷ d ∷ rest))

length-message :
    (l i s q p : Bytes) (n : ℕ)
    → length l ≤ 20
    → length i ≤ 20
    → length s ≤ 20
    → length q ≤ 20
    → length p ≤ 20
    → length (message l i s q p (digits n)) < 256
length-message l i s q p n hl hi hs hq hp =
    let end = b'2' ∷ soh ∷ b'1' ∷ b'0' ∷ b'=' ∷ (digits n ++ soh ∷ []) in
    let tp = p ++ soh ∷ b'4' ∷ b'0' ∷ b'=' ∷ end in
    let tq = q ++ soh ∷ b'4' ∷ b'4' ∷ b'=' ∷ tp in
    let ts = s ++ soh ∷ b'3' ∷ b'8' ∷ b'=' ∷ tq in
    let ti = i ++ soh ∷ b'5' ∷ b'4' ∷ b'=' ∷ ts in
    let tl = b'D' ∷ soh ∷ b'1' ∷ b'1' ∷ b'=' ∷ ti in
    let fp = length-field p end soh b'4' b'0' b'=' 9 hp (omega arith) in
    let fq = length-field q tp soh b'4' b'4' b'=' (24 + 9) hq fp in
    let fs = length-field s tq soh b'3' b'8' b'=' (24 + (24 + 9)) hs fq in
    let fi = length-field i ts soh b'5' b'4' b'=' (24 + (24 + (24 + 9))) hi fs in
    let fl =
      length-field l tl soh b'3' b'5' b'=' (5 + (24 + (24 + (24 + (24 + 9))))) hl
        (omega (arith, fi)) in
    omega (arith, fl)

-- A line fits into the gateway's first buffer.
pub length-line_lt : (o : Order) → length (line o) < 256
length-line_lt o =
    let n = side_number o.side in
    let body = message_body o.id (pos o.price) (pos o.quantity) (pos n) in
    let sum = checksum 0 (message_header (length body) ++ body) % 256 in
    rw (create_fix_message-joined o.id o.price o.quantity n) (
      length-message (print_number (length body)) (print_number o.id) (print_number n)
        (print_number o.quantity) (print_number o.price) sum (length-print_number (length body))
        (length-print_number o.id) (length-print_number n) (length-print_number o.quantity)
        (length-print_number o.price))

-- A line is taken as one frame with its order, whatever stands behind it.
pub next_frame-line :
    (o : Order) (rest : Bytes)
    → IsSendable o
    → next_frame (line o ++ rest) ≡ Frame.message (length (line o)) (some o)
unfolding next_frame same
next_frame-line o rest v =
    let e : (length (line o) == 0) ≡ false = ground (arith, length-line o) in
    rw (get_message_type-line o rest, parse-line o rest v, next_frame, e) refl

-- What comes before the end of a line is no whole frame.
pub next_frame-part :
    (o : Order) (xs ys rest : Bytes)
    → IsSendable o
    → xs ++ ys ≡ line o ++ rest
    → length xs < length (line o)
    → consumed_of (next_frame xs) ≡ 0
next_frame-part o xs ys rest v e h = elim (Bool-cases ((parse xs).1 == 0)) [
  | inl z ↦ let w : (parse xs).1 ≡ 0 = ground (arith, z) in omega (arith, next_frame-consumed xs, w)
  | inr z ↦
      let p = parse-append xs ys (λ w. ground (arith, z, w)) in
      let q = parse-line o rest v in
      let c : (parse xs).1 ≡ length (line o) = ap (λ r. r.1) (sym p ∙ ap parse e ∙ q) in
      absurd (omega (arith, c, h, next_frame-consumed xs, next_frame-le xs))
]
