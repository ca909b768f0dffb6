-- ===== src/Gateway.antt =====
-- src/network/tcp_order_gateway.cpp: what `clientHandler` does with the bytes of one client. The results of
-- `recv`, `send` and the clock are parameters.
pub mod Frames
pub mod Sending
pub mod Stream
pub mod Sessions
pub mod Cutting
mod Tests
use hft_orderbook_benchmark.Common.{
  ℕ, zero, suc, ◌+◌, ◌-◌, ◌*◌, ◌^◌, Bool, true, false, not, List, [], ◌∷◌, ◌++◌, Option, none, some,
  if◌then◌else◌, leb, ◌==◌, length, take, drop, is_empty, min_of,
}
use hft_orderbook_benchmark.Core.{Order}
use hft_orderbook_benchmark.Fix.{parse, get_tag_value, get_message_type}
use hft_orderbook_benchmark.Fix.Text.{Bytes, same, from_chars}

-- What stands at the front of the buffered bytes: no whole frame, a request for statistics, or any other
-- message, with the order if it holds one. Both have the number of bytes that they take.
pub data Frame : Type 0 where
  incomplete : Frame
  request : (consumed expected_count : ℕ) → Frame
  message : (consumed : ℕ) (order : Option Order) → Frame

abbrev pub or_zero : Option ℕ → ℕ
or_zero none = 0
or_zero (some n) = n

-- Tag 596 of a request: 0 when it is missing or no number.
unfoldable pub expected_count : Bytes → ℕ
unfolding get_tag_value from_chars
expected_count frame = or_zero (from_chars (get_tag_value frame 596))

-- The message type is looked up in all bytes that are buffered.
unfoldable pub next_frame : Bytes → Frame
unfolding parse get_message_type same expected_count
next_frame buffer =
    let (order, consumed) = parse buffer in
    if same (get_message_type buffer) (b'U' ∷ b'1' ∷ [])
    then (if consumed == 0
        then incomplete
        else request consumed (expected_count (take consumed buffer)))
    else if consumed == 0
    then incomplete
    else message consumed order

-- What the handler does for a frame: it queues an order, or it waits for the engine to have processed a
-- number of orders, at most 30 seconds, and sends the statistics.
pub data Event : Type 0 where
  queued : Order → Event
  answered : ℕ → Event

-- How often the clock was read for a time of receipt, and how many replies were sent or tried.
pub record Tally : Type 0 where
  pub readings : ℕ
  pub replies : ℕ

-- The outcome for a frame; it took 0 bytes when the loop is left.
pub record Taken : Type 0 where
  pub consumed : ℕ
  pub events : List Event
  pub tally : Tally

pub record Processed : Type 0 where
  pub events : List Event
  pub rest : Bytes
  pub tally : Tally

-- The events of a frame in front of those of the frames behind it.
abbrev pub joined : Taken → Processed → Processed
joined r more = record more { events = r.events ++ more.events }

-- `metrics_` is set when `has_metrics` is true, `clock n` is the `n`-th reading, and `sent n` says whether
-- the `n`-th reply goes out whole.
module _ (has_metrics : Bool) (clock : ℕ → ℕ) (sent : ℕ → Bool) where
  unfoldable pub handle : Frame → Tally → Taken
  handle incomplete t = record { consumed = 0; events = []; tally = t }
  handle (request c expected) t =
      if not has_metrics
      then record { consumed = c; events = []; tally = t }
      else if sent t.replies
      then record {
        consumed = c;
        events = answered expected ∷ [];
        tally = record t { replies = t.replies + 1 };
      }
      else record { consumed = 0; events = []; tally = record t { replies = t.replies + 1 } }
  handle (message c none) t = record { consumed = c; events = []; tally = t }
  handle (message c (some o)) t = record {
    consumed = c;
    events = queued (record o { receive_timestamp = clock t.readings }) ∷ [];
    tally = record t { readings = t.readings + 1 };
  }

  -- `while (processed < totalBytes)`. Each round takes at least one byte.
  unfoldable pub process : ℕ → Bytes → Tally → Processed
  unfolding next_frame handle
  process zero buffer t = record { events = []; rest = buffer; tally = t }
  process (suc f) buffer t =
      let r = handle (next_frame buffer) t in
      let more = process f (drop r.consumed buffer) r.tally in
      if is_empty buffer
      then record { events = []; rest = buffer; tally = t }
      else if r.consumed == 0
      then record { events = []; rest = buffer; tally = r.tally }
      else joined r more

-- `kMaxBufferBytes`.
abbrev pub max_buffer_bytes : ℕ
max_buffer_bytes = 2 ^ 20

-- The size of the buffer before the next `recv`; `none` drops the client.
unfoldable pub grow : (size offset : ℕ) → Option ℕ
grow size offset =
    if offset == size
    then (if leb max_buffer_bytes size then none else some (min_of (size * 2) max_buffer_bytes))
    else some size

-- What the handler keeps for a client: the size of its buffer, the bytes that are no whole frame yet, and
-- what it has done so far.
pub record Session : Type 0 where
  pub size : ℕ
  pub pending : Bytes
  pub events : List Event
  pub tally : Tally

-- A result of `recv`: an interruption or a timeout, another error, or bytes, none when the client has
-- closed.
pub data Recv : Type 0 where
  again broken : Recv
  received : Bytes → Recv

module _ (has_metrics : Bool) (clock : ℕ → ℕ) (sent : ℕ → Bool) where
  -- The bytes behind those that are pending, up to the move of what is left to the front.
  unfoldable pub receive : Bytes → Session → Session
  unfolding process
  receive xs s =
      let buffer = s.pending ++ xs in
      let out = process has_metrics clock sent (length buffer) buffer s.tally in
      record s { pending = out.rest; events = s.events ++ out.events; tally = out.tally }

  -- A result of `recv`, and whether the loop goes on.
  unfoldable pub serve : Recv → Session → Session × Bool
  unfolding receive
  serve again s = (s, true)
  serve broken s = (s, false)
  serve (received []) s = (s, false)
  serve (received (x ∷ xs)) s = (receive (x ∷ xs) s, true)

  -- `clientHandler`, until the results of `recv` run out, which is when the gateway stops.
  unfoldable pub client_handler : List Recv → Session → Session
  unfolding grow serve
  client_handler [] s = s
  client_handler (r ∷ rs) s = elim (grow s.size (length s.pending)) [
    | none ↦ s
    | some size ↦
        let (s', more) = serve r (record s { size = size }) in
        let rest = client_handler rs s' in if more then rest else s'
  ]

-- A client that has just connected.
unfoldable pub connected : Session
connected = record {
  size = 4096;
  pending = [];
  events = [];
  tally = record { readings = 0; replies = 0 };
}
