-- ===== src/Sender.antt =====
-- clients/tcp_order_sender.cpp: the messages that the client makes, and how it sends them.
pub mod Message
pub mod Parsing
pub mod Lines
pub mod Rounds
pub mod Delivery
pub mod Options
pub mod Preparing
pub mod Sending
pub mod Sent
pub mod Prices
pub mod Draws
pub mod Run
pub mod System
mod Tests
use hft_orderbook_benchmark.Common.{
  ℕ, zero, suc, ◌+◌, ◌-◌, ◌/◌, ◌%◌, ◌^◌, Bool, true, false, List, [], ◌∷◌, ◌++◌, Option, none, some,
  if◌then◌else◌, leb, length, drop,
}
use hft_orderbook_benchmark.Fix.Text.{Bytes, soh, print_number}

-- `int`; `negsuc n` is -(n + 1).
pub data ℤ : Type 0 where
  pos : ℕ → ℤ
  negsuc : ℕ → ℤ

-- `%d`.
unfoldable pub print_int : ℤ → Bytes
unfolding print_number
print_int (pos n) = print_number n
print_int (negsuc n) = b'-' ∷ print_number (n + 1)

-- "35=D", "11=id", "54=side", "38=quantity", "44=price" and "40=2", with SOH behind each. The longest
-- body is shorter than `messageBody`, so `snprintf` cuts nothing off.
unfoldable pub message_body : ℕ → ℤ → ℤ → ℤ → Bytes
unfolding print_int
message_body id price quantity side =
    b'3'
    ∷ b'5'
    ∷ b'='
    ∷ b'D'
    ∷ soh
    ∷ b'1'
    ∷ b'1'
    ∷ b'='
    ∷ (print_number id
        ++ soh
          ∷ b'5'
          ∷ b'4'
          ∷ b'='
          ∷ (print_int side
              ++ soh
                ∷ b'3'
                ∷ b'8'
                ∷ b'='
                ∷ (print_int quantity
                    ++ soh
                      ∷ b'4'
                      ∷ b'4'
                      ∷ b'='
                      ∷ (print_int price ++ soh ∷ b'4' ∷ b'0' ∷ b'=' ∷ b'2' ∷ soh ∷ []))))

-- "8=FIX.4.2" and "9=length".
unfoldable pub message_header : ℕ → Bytes
unfolding print_number
message_header length =
    b'8'
    ∷ b'='
    ∷ b'F'
    ∷ b'I'
    ∷ b'X'
    ∷ b'.'
    ∷ b'4'
    ∷ b'.'
    ∷ b'2'
    ∷ soh
    ∷ b'9'
    ∷ b'='
    ∷ (print_number length ++ soh ∷ [])

-- `for (char c : fixMessage) checksum += (unsigned char)c;`, in an `unsigned int`.
unfoldable pub checksum : ℕ → Bytes → ℕ
checksum sum [] = sum
checksum sum (c ∷ cs) = checksum ((sum + c) % 2 ^ 32) cs

-- "10=%03d", for a number below 1000, and SOH.
unfoldable pub message_trailer : ℕ → Bytes
message_trailer n =
    b'1' ∷ b'0' ∷ b'=' ∷ (b'0' + n / 100) ∷ (b'0' + n / 10 % 10) ∷ (b'0' + n % 10) ∷ soh ∷ []

unfoldable pub create_fix_message : ℕ → ℤ → ℤ → ℤ → Bytes
unfolding message_body message_header checksum message_trailer
create_fix_message id price quantity side =
    let body = message_body id price quantity side in
    let message = message_header (length body) ++ body in
    message ++ message_trailer (checksum 0 message % 256)
