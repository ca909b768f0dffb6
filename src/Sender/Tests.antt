-- ===== src/Sender/Tests.antt =====
-- Runs of the client with a few orders, and the theorems at them.
use hft_orderbook_benchmark.Common.{
  ℕ, ◌+◌, ◌≡◌, ◌≢◌, ◌⊎◌, ◌%◌, ◌^◌, Option, refl, sym, ap, true, false, List, [], ◌∷◌, ◌++◌, map,
  none, some, length, take, drop, All, arith,
}
use hft_orderbook_benchmark.Samples.{order, more}
use hft_orderbook_benchmark.Core.{Order, Trade, buy, sell}
use hft_orderbook_benchmark.Contract.Runs.{Run}
use hft_orderbook_benchmark.LockFreeQueue.{Queue, init}
use hft_orderbook_benchmark.LockFreeQueue.Window.{IsCapacity}
use hft_orderbook_benchmark.LockFreeQueue.Fifo.{Holds, init-Holds}
use hft_orderbook_benchmark.MapBook.{MapBook, empty}
use hft_orderbook_benchmark.MapBook.View.{view, IsValid}
use hft_orderbook_benchmark.MapBook.Refine.{empty-IsValid}
use hft_orderbook_benchmark.Metrics
use hft_orderbook_benchmark.Engine.{Engine}
use hft_orderbook_benchmark.Engine.Loop as EngineLoop
use hft_orderbook_benchmark.Engine.Drain.{Turn, arrives, polls, accepted, Ended}
use hft_orderbook_benchmark.Engine.Books.{map_book, calls}
use hft_orderbook_benchmark.Fix.{
  parse, parse_order, get_tag_value, parse_side, parse_optional, parse_type,
}
use hft_orderbook_benchmark.Fix.Text.{Bytes, same, from_chars}
use hft_orderbook_benchmark.Gateway.{Recv, again, received, client_handler, connected}
use hft_orderbook_benchmark.Gateway.Sending.{Send, interrupted, wrote}
use hft_orderbook_benchmark.Sender.{ℤ, pos, negsuc, create_fix_message}
use hft_orderbook_benchmark.Sender.Parsing.{parse-create_fix_message}
use hft_orderbook_benchmark.Sender.Lines.{line, IsSendable}
use hft_orderbook_benchmark.Sender.Rounds.{arrivals, stream}
use hft_orderbook_benchmark.Sender.Delivery.{IsOpen, bytes_of, client_handler-arrivals}
use hft_orderbook_benchmark.Sender.Options.{
  Options, configure, defaults, ready, flag_count, flag_tick, set_option, int_lt,
}
use hft_orderbook_benchmark.Sender.Preparing.{Draws, prepare}
use hft_orderbook_benchmark.Sender.Draws.{IsUniform}
use hft_orderbook_benchmark.Sender.Sending.{complete, send_messages}
use hft_orderbook_benchmark.Sender.Sent.{send_messages-complete, writes}
use hft_orderbook_benchmark.Sender.Run.{prepare-line, client_handler-send_messages}
use hft_orderbook_benchmark.Sender.System.{pushed, client_orders-Run}

message_read :
    (parse (create_fix_message 17 (pos 100) (pos 5) (pos 1))).0 ≡ some (order 17 100 5 buy)
unfolding create_fix_message parse parse_order same get_tag_value from_chars parse_side
    parse_optional parse_type
message_read = refl

parse-create_fix_message_example :
    parse (create_fix_message 17 (pos 100) (pos 5) (pos 1) ++ more)
    ≡ (some (order 17 100 5 buy), length (create_fix_message 17 (pos 100) (pos 5) (pos 1)))
parse-create_fix_message_example =
    parse-create_fix_message 17 100 5 buy more (omega arith) ((omega arith), (omega arith))
      ((omega arith), (omega arith))

abbrev atoi : Bytes → ℤ
atoi v = elim (from_chars v) [ none ↦ pos 0 | some n ↦ pos n ]

-- "--count 3 --tick 5".
abbrev args : List Bytes
args = flag_count ∷ (b'3' ∷ []) ∷ flag_tick ∷ (b'5' ∷ []) ∷ []

abbrev options : Options
options = record defaults { order_count = pos 3; tick_size = pos 5 }

-- Distributions that always draw the highest number.
abbrev draws : Draws
draws = record {
  price_index = λ low high i. high;
  quantity = λ low high i. high;
  side = λ low high i. high;
}

not_below : (x : ℤ) → int_lt x x ≡ false
not_below (pos n) = ground arith
not_below (negsuc n) = ground arith

draws-IsUniform : IsUniform draws
draws-IsUniform = record {
  price_index = λ low high i h. (h, omega arith);
  quantity = λ low high i h. (h, not_below high);
  side = λ low high i h. (h, not_below high);
}

args_read : configure atoi args ≡ ready options
unfolding configure set_option same from_chars
args_read = refl

abbrev prepared : List Order
prepared = order 0 110 100 sell ∷ order 1 110 100 sell ∷ order 2 110 100 sell ∷ []

prepare-line_example : (prepare draws options ≡ some (map line prepared)) × All IsSendable prepared
unfolding defaults
prepare-line_example =
    prepare-line atoi args options 90 110 5 1 100 3 draws draws-IsUniform args_read (record {
      min_price = refl;
      max_price = refl;
      tick_size = refl;
      min_qty = refl;
      max_qty = refl;
      order_count = refl;
      price_pos = omega arith;
      price_fits = omega arith;
      quantity_pos = omega arith;
      quantities = omega arith;
      quantity_fits = omega arith;
      count_fits = omega arith;
    })

abbrev two_messages : List Bytes
two_messages = (b'8' ∷ b'=' ∷ []) ∷ (b'9' ∷ []) ∷ []

abbrev four_calls : List Send
four_calls = wrote 1 ∷ interrupted ∷ wrote 1 ∷ wrote 1 ∷ []

send_messages-complete_example :
    ((send_messages two_messages four_calls).status ≡ complete)
    × ((send_messages two_messages four_calls).bytes ≡ b'8' ∷ b'=' ∷ b'9' ∷ [])
unfolding writes
send_messages-complete_example =
    send_messages-complete two_messages four_calls
      ((omega arith), ((omega arith), ((omega arith), tt))) (omega arith)

-- An order to buy and one to sell, as they are sent.
abbrev orders : List Order
orders = order 1 100 5 buy ∷ order 2 99 3 sell ∷ []

orders_IsSendable : All IsSendable orders
orders_IsSendable = (
  record {
    id_fits = omega arith;
    price_fits = ((omega arith), (omega arith));
    quantity_fits = ((omega arith), (omega arith));
    is_plain = refl;
  },
  (
    record {
      id_fits = omega arith;
      price_fits = ((omega arith), (omega arith));
      quantity_fits = ((omega arith), (omega arith));
      is_plain = refl;
    },
    tt,
  ),
)

-- The second message breaks off: the last call fails.
abbrev results : List Send
results = wrote 20 ∷ interrupted ∷ wrote 34 ∷ wrote 7 ∷ wrote 0 ∷ []

abbrev total : Bytes
total = (send_messages (map line orders) results).bytes

abbrev pieces : List Recv
pieces = received (take 30 total) ∷ again ∷ received (drop 30 total) ∷ []

pieces-IsOpen : All IsOpen pieces
unfolding send_messages create_fix_message
pieces-IsOpen = (tt, (tt, (tt, tt)))

pieces-total : bytes_of pieces ≡ total
unfolding send_messages create_fix_message
pieces-total = refl

client_handler-send_messages_example :
    (done left : List Order) × (done ++ left ≡ orders)
    × ((client_handler true (λ n. n) (λ n. true) pieces connected).events
        ≡ arrivals (λ n. n) 0 done)
    × ((left ≡ []) ⊎ ((send_messages (map line orders) results).status ≢ complete))
client_handler-send_messages_example =
    client_handler-send_messages true (λ n. n) (λ n. true) orders results pieces orders_IsSendable
      pieces-IsOpen pieces-total

abbrev arrived : List Recv
arrived = received (take 70 (stream orders)) ∷ received (drop 70 (stream orders)) ∷ []

arrived-IsOpen : All IsOpen arrived
unfolding create_fix_message
arrived-IsOpen = (tt, (tt, tt))

arrived-stream : bytes_of arrived ≡ stream orders
unfolding create_fix_message
arrived-stream = refl

abbrev clock : ℕ → ℕ
clock n = 100 + n

abbrev bid : Order
bid = record (order 1 100 5 buy) { receive_timestamp = 100 }

abbrev ask : Order
ask = record (order 2 99 3 sell) { receive_timestamp = 101 }

-- The first order is popped before the second arrives, which is in the last loop.
abbrev turns : List Turn
turns = arrives bid ∷ polls ∷ []

abbrev q0 : Queue Order
q0 = init (bid ∷ bid ∷ [])

abbrev engine : Engine MapBook
engine = record { book = empty; metrics = Metrics.create; readings = 0 }

two_slots : IsCapacity 2
two_slots = (1, omega arith, refl)

abbrev last_turns : List Turn
last_turns = polls ∷ arrives ask ∷ polls ∷ polls ∷ polls ∷ []

abbrev served : Option (Ended MapBook)
served = EngineLoop.run map_book clock 1000000 2 turns last_turns q0 engine

pushed_turns :
    pushed (client_handler true clock (λ n. true) arrived connected).events ≡ bid ∷ ask ∷ []
pushed_turns =
    ap pushed
      (client_handler-arrivals true clock (λ n. true) arrived orders orders_IsSendable
        arrived-IsOpen arrived-stream).0

client_orders-Run_example :
    (taken : List Order) × ((r : Ended MapBook) × (served ≡ some r)
      × (bid ∷ ask ∷ [] ≡ taken ++ accepted 2 0 r.later)
      × ((l : ℕ) × Holds 2 l [] r.queue)
      × IsValid r.engine.book
      × ((ts : List Trade) × Run (view empty) (calls taken) ts (view r.engine.book)
          × (r.engine.metrics.order_count ≡ (0 + length taken) % 2 ^ 64)))
unfolding Metrics.create
client_orders-Run_example =
    client_orders-Run clock clock 1000000 true (λ n. true) arrived orders 2 two_slots 0 turns
      last_turns q0 engine orders_IsSendable arrived-IsOpen arrived-stream (sym pushed_turns)
      (init-Holds 2 (bid ∷ bid ∷ []) refl) (omega arith) empty-IsValid (omega arith) (omega arith)
