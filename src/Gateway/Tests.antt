-- ===== src/Gateway/Tests.antt =====
-- A client that sends one order in two pieces, and the theorems at it.
use hft_orderbook_benchmark.Common.{
  ℕ, ◌+◌, ◌≡◌, ◌≤◌, refl, Bool, true, List, [], ◌∷◌, ◌++◌, map, none, arith, drop,
}
use hft_orderbook_benchmark.Core.{buy}
use hft_orderbook_benchmark.Samples.{order, message, more}
use hft_orderbook_benchmark.Fix.Text.{Bytes, soh, same, find, from_chars, find_from}
use hft_orderbook_benchmark.Fix.{
  parse, parse_order, get_tag_value, parse_side, parse_type, parse_optional,
}
use hft_orderbook_benchmark.Gateway.{
  Frame, request, next_frame, queued, Tally, process, handle, Recv, received, again, receive, serve,
  client_handler, connected, grow,
}
use hft_orderbook_benchmark.Gateway.Frames.{has_type, consumed_of}
use hft_orderbook_benchmark.Gateway.Sending.{Send, interrupted, wrote}
use hft_orderbook_benchmark.Gateway.Stream.{is_typed, IsDone, process-IsDone}
use hft_orderbook_benchmark.Gateway.Sessions.{IsBuffer, is_fitting, client_handler-IsBuffer}
use hft_orderbook_benchmark.Gateway.Cutting.{together, is_smooth, client_handler-together}

abbrev clock : ℕ → ℕ
clock n = 100 + n

abbrev sent : ℕ → Bool
sent n = true

abbrev start : Tally
start = record { readings = 0; replies = 0 }

-- The message is one order, received at the first reading of the clock.
process-message : process true clock sent 60 message start ≡ record {
  events = queued (record (order 17 100 5 buy) { receive_timestamp = 100 }) ∷ [];
  rest = [];
  tally = record { readings = 1; replies = 0 };
}
unfolding process next_frame handle parse parse_order get_tag_value same from_chars parse_side
    parse_type parse_optional
process-message = refl

-- A frame without a message type, and a request for statistics.
abbrev untyped : Bytes
untyped = b'8' ∷ b'=' ∷ b'F' ∷ soh ∷ b'1' ∷ b'0' ∷ b'=' ∷ b'0' ∷ b'0' ∷ b'0' ∷ soh ∷ []

abbrev typed_request : Bytes
typed_request =
    b'8' ∷ b'=' ∷ b'F' ∷ soh ∷ b'3' ∷ b'5' ∷ b'=' ∷ b'U' ∷ b'1' ∷ soh ∷ b'1' ∷ b'0' ∷ b'=' ∷ b'0'
    ∷ b'0' ∷ b'0' ∷ soh ∷ []

-- The first frame is taken for a request when a request stands behind it, and for a message when not.
untyped_changes :
    (next_frame untyped ≡ Frame.message 11 none)
    × (next_frame (untyped ++ typed_request) ≡ request 11 0)
unfolding next_frame parse parse_order get_tag_value same
untyped_changes = (refl, refl)

process-IsDone_example :
    IsDone true clock sent (process true clock sent 60 message start)
    × ((k : ℕ) × (k ≤ 50) × ((process true clock sent 60 message start).rest ≡ drop k message))
process-IsDone_example = process-IsDone true clock sent 60 message start (omega arith)

connected-IsBuffer : IsBuffer connected
unfolding connected
connected-IsBuffer = record { at_least = omega arith; at_most = omega arith; fits = omega arith }

abbrev results : List Recv
results = again ∷ received message ∷ received more ∷ []

results_fit : is_fitting true clock sent results connected ≡ true
unfolding is_fitting connected grow serve receive process next_frame handle parse parse_order
    get_tag_value same from_chars parse_side parse_type parse_optional
results_fit = refl

client_handler-IsBuffer_example : IsBuffer (client_handler true clock sent results connected)
client_handler-IsBuffer_example =
    client_handler-IsBuffer true clock sent results connected connected-IsBuffer results_fit

-- The message cut behind its first bytes.
abbrev pieces : List Bytes
pieces = (b'8' ∷ b'=' ∷ b'F' ∷ []) ∷ drop 3 message ∷ more ∷ []

pieces-is_smooth : is_smooth true clock sent pieces connected ≡ true
unfolding is_smooth is_typed has_type find find_from connected grow receive process next_frame
    handle parse parse_order get_tag_value same from_chars parse_side parse_type parse_optional
pieces-is_smooth = refl

waits : consumed_of (next_frame connected.pending) ≡ 0
unfolding connected next_frame parse
waits = refl

client_handler-together_example :
    ((client_handler true clock sent (map received pieces) connected).events
      ≡ connected.events
        ++ (process true clock sent 60
            (connected.pending ++ together pieces)
            connected.tally).events)
    × ((client_handler true clock sent (map received pieces) connected).pending
        ≡ (process true clock sent 60 (connected.pending ++ together pieces) connected.tally).rest)
unfolding connected
client_handler-together_example =
    client_handler-together true clock sent (λ n. refl) 60 pieces connected pieces-is_smooth waits
      (omega arith)

abbrev results_of_send : List Send
results_of_send = interrupted ∷ wrote 3 ∷ wrote 4 ∷ []
