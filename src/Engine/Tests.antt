-- ===== src/Engine/Tests.antt =====
-- Two orders that cross, in a queue of two slots, and the theorems at them.
use hft_orderbook_benchmark.Common.{
  ℕ, ◌+◌, ◌%◌, ◌^◌, ◌≡◌, refl, List, [], ◌∷◌, ◌++◌, Option, some, length, arith,
}
use hft_orderbook_benchmark.Core.{Order, Trade, buy, sell, limit}
use hft_orderbook_benchmark.Samples.{order}
use hft_orderbook_benchmark.LockFreeQueue.{Queue, init, push}
use hft_orderbook_benchmark.LockFreeQueue.Window.{IsCapacity}
use hft_orderbook_benchmark.LockFreeQueue.Fifo.{Holds, init-Holds, push_fills}
use hft_orderbook_benchmark.Metrics
use hft_orderbook_benchmark.Contract.Runs.{Run}
use hft_orderbook_benchmark.MapBook.{MapBook, empty}
use hft_orderbook_benchmark.MapBook.View.{view, IsValid}
use hft_orderbook_benchmark.MapBook.Refine.{empty-IsValid}
use hft_orderbook_benchmark.Engine.{Engine, latencies}
use hft_orderbook_benchmark.Engine
use hft_orderbook_benchmark.Engine.Drain.{Turn, arrives, polls, accepted, Ended}
use hft_orderbook_benchmark.Engine.Loop.{run-process_all}
use hft_orderbook_benchmark.Engine.Books.{map_book, calls}
use hft_orderbook_benchmark.Engine.System.{engine_run-Refines}

abbrev timed : Order
timed = record {
  id = 1;
  price = 100;
  quantity = 5;
  side = buy;
  type = limit;
  timestamp = 0;
  receive_timestamp = 12;
  send_timestamp = 10;
}

latencies_of_timed :
    latencies 15 19 timed ≡ record { total = 9; network = 2; queue = 3; engine = 4 }
unfolding latencies
latencies_of_timed = refl

two_slots : IsCapacity 2
two_slots = (1, omega arith, refl)

abbrev bid : Order
bid = order 1 100 5 buy

abbrev ask : Order
ask = order 2 99 3 sell

abbrev q0 : Queue Order
q0 = init (bid ∷ bid ∷ [])

abbrev q1 : Queue Order
q1 = (push 2 bid q0).1

abbrev q2 : Queue Order
q2 = (push 2 ask q1).1

q1-Holds : Holds 2 0 (bid ∷ []) q1
unfolding init push
q1-Holds = push_fills 2 two_slots 0 bid [] q0 (omega arith) (init-Holds 2 (bid ∷ bid ∷ []) refl)

q2-Holds : Holds 2 0 (bid ∷ ask ∷ []) q2
unfolding init push
q2-Holds = push_fills 2 two_slots 0 ask (bid ∷ []) q1 (omega arith) q1-Holds

abbrev engine : Engine MapBook
engine = record { book = empty; metrics = Metrics.create; readings = 0 }

abbrev clock : ℕ → ℕ
clock n = 100 + n

abbrev items : List Order
items = bid ∷ ask ∷ []

abbrev third : Order
third = order 3 98 1 sell

abbrev fourth : Order
fourth = order 4 97 2 buy

-- A third order arrives between the pops.
abbrev turns : List Turn
turns = polls ∷ arrives third ∷ polls ∷ []

-- A fourth one arrives in the last loop, and again after its last pop.
abbrev last_turns : List Turn
last_turns = polls ∷ arrives fourth ∷ polls ∷ polls ∷ arrives fourth ∷ polls ∷ polls ∷ polls ∷ []

abbrev served : Option (Ended MapBook)
served = Engine.Loop.run map_book clock 1000000 2 turns last_turns q2 engine

run-process_all_example :
    Engine.Drain.Finished map_book clock 1000000 2 items turns last_turns engine served
run-process_all_example =
    run-process_all map_book clock 1000000 2 two_slots 0 turns last_turns items q2 engine q2-Holds
      (omega arith)

engine_run-Refines_example :
    (used : List Turn) × ((r : Ended MapBook) × (served ≡ some r)
      × (last_turns ≡ used ++ r.later)
      × (accepted 2 2 (turns ++ last_turns) ≡ accepted 2 2 (turns ++ used) ++ accepted 2 0 r.later)
      × ((l : ℕ) × Holds 2 l [] r.queue)
      × IsValid r.engine.book
      × (let os = items ++ accepted 2 2 (turns ++ used) in
          (ts : List Trade) × Run (view empty) (calls os) ts (view r.engine.book)
          × (r.engine.metrics.order_count ≡ (0 + length os) % 2 ^ 64)
          × (r.engine.metrics.trade_count ≡ (0 + length ts) % 2 ^ 64)))
unfolding Metrics.create
engine_run-Refines_example =
    engine_run-Refines clock 1000000 2 two_slots 0 turns last_turns items q2 engine q2-Holds
      (omega arith) empty-IsValid (omega arith) (omega arith)
