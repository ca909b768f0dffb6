-- ===== src/Sender/System.antt =====
-- clients/tcp_order_sender.cpp, src/network/tcp_order_gateway.cpp and src/core/matching_engine.cpp: the
-- client's orders from its messages to the book.
use hft_orderbook_benchmark.Common.{
  ℕ, ◌+◌, ◌%◌, ◌^◌, ◌<◌, ◌≡◌, refl, sym, ap, ◌++◌, some, ◌∙◌, Bool, List, [], ◌∷◌, length, All,
}
use hft_orderbook_benchmark.Core.{Order, Trade}
use hft_orderbook_benchmark.LockFreeQueue.{Queue}
use hft_orderbook_benchmark.LockFreeQueue.Window.{IsCapacity}
use hft_orderbook_benchmark.LockFreeQueue.Fifo.{Holds}
use hft_orderbook_benchmark.Contract.Runs.{Run}
use hft_orderbook_benchmark.MapBook.{MapBook}
use hft_orderbook_benchmark.MapBook.View.{view, IsValid}
use hft_orderbook_benchmark.Engine.{Engine}
use hft_orderbook_benchmark.Engine.Drain.{Turn, accepted, pushes_of, pops_of, Ended}
use hft_orderbook_benchmark.Engine.Loop.{run}
use hft_orderbook_benchmark.Engine.Books.{map_book, calls}
use hft_orderbook_benchmark.Engine.System.{engine_run-Refines}
use hft_orderbook_benchmark.Gateway.{Event, queued, answered, Recv, client_handler, connected}
use hft_orderbook_benchmark.Sender.Lines.{IsSendable}
use hft_orderbook_benchmark.Sender.Rounds.{stream, arrivals}
use hft_orderbook_benchmark.Sender.Delivery.{IsOpen, bytes_of, client_handler-arrivals}

-- The orders that the handler pushes; it retries a push until the queue accepts it.
abbrev pub pushed : List Event → List Order
pushed [] = []
pushed (queued o ∷ es) = o ∷ pushed es
pushed (answered n ∷ es) = pushed es

-- The orders with their times of receipt.
abbrev pub stamped : (ℕ → ℕ) → ℕ → List Order → List Order
stamped clock n [] = []
stamped clock n (o ∷ os) = record o { receive_timestamp = clock n } ∷ stamped clock (n + 1) os

pushed-arrivals :
    (clock : ℕ → ℕ) (n : ℕ) (os : List Order) → pushed (arrivals clock n os) ≡ stamped clock n os
pushed-arrivals clock n [] = refl
pushed-arrivals clock n (o ∷ os) =
    ap (◌∷◌ (record o { receive_timestamp = clock n })) (pushed-arrivals clock (n + 1) os)

module _ (receive_clock engine_clock : ℕ → ℕ) (capacity : ℕ) where
  -- When all messages of a client have arrived, however they were cut, they are of limit orders without
  -- times, with 64-bit ids and positive `int` prices and quantities, the connection is open, the queue of
  -- `n` slots, a power of two, was empty and it accepts what the handler pushes, in any turns with the engine's pops, also
  -- in the last loop of `run`: if the turns of that loop have more pops than pushes and slots, and the
  -- counters are 64-bit numbers, `run` on a map book that is in order returns, leaves the queue
  -- empty at its last pop and the book in order. The client's orders with their times of receipt are, in
  -- order, those that `run` took and those that came after its last pop. The resting orders are those that
  -- the contract gives for an add and a match for each order taken, in order, and the order counter has
  -- gone up by their number, modulo 2^64.
  pub client_orders-Run :
      (has_metrics : Bool) (replies : ℕ → Bool) (rs : List Recv) (os : List Order) (n : ℕ)
      (c : IsCapacity n) (m : ℕ) (turns us : List Turn) (q : Queue Order) (e : Engine MapBook)
      → All IsSendable os
      → All IsOpen rs
      → bytes_of rs ≡ stream os
      → accepted n 0 (turns ++ us)
        ≡ pushed (client_handler has_metrics receive_clock replies rs connected).events
      → Holds n m [] q
      → n + pushes_of us < pops_of us
      → IsValid e.book
      → e.metrics.order_count < 2 ^ 64
      → e.metrics.trade_count < 2 ^ 64
      → (taken : List Order) × ((r : Ended MapBook) × (run map_book engine_clock capacity n turns us
              q e
            ≡ some r)
          × (stamped receive_clock 0 os ≡ taken ++ accepted n 0 r.later)
          × ((l : ℕ) × Holds n l [] r.queue)
          × IsValid r.engine.book
          × ((ts : List Trade) × Run (view e.book) (calls taken) ts (view r.engine.book)
              × (r.engine.metrics.order_count ≡ (e.metrics.order_count + length taken) % 2 ^ 64)))
  client_orders-Run has_metrics replies rs os n c m turns us q e v w b p h k u x y =
      let a = (client_handler-arrivals has_metrics receive_clock replies rs os v w b).0 in
      let s : accepted n 0 (turns ++ us) ≡ stamped receive_clock 0 os =
        p ∙ ap pushed a ∙ pushed-arrivals receive_clock 0 os in
      let (used, (r, returns, split, left, empty, valid, (ts, g, i, j))) =
        engine_run-Refines engine_clock capacity n c m turns us [] q e h k u x y in
      (accepted n 0 (turns ++ used), (r, returns, sym s ∙ left, empty, valid, (ts, g, i)))
