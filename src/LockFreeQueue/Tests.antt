-- ===== src/LockFreeQueue/Tests.antt =====
-- A queue of two slots, one item through it, and the theorems at it.
use hft_orderbook_benchmark.Common.{
  ℕ, ◌≡◌, ◌≤◌, ◌<◌, ◌⊎◌, refl, true, false, List, [], ◌∷◌, ◌++◌, some, arith, length,
}
use hft_orderbook_benchmark.LockFreeQueue.{Queue, init, push, pop}
use hft_orderbook_benchmark.LockFreeQueue.Window.{IsCapacity}
use hft_orderbook_benchmark.LockFreeQueue.Fifo.{
  Holds, init-Holds, push-Holds, pop-Holds, push_fills,
}
use hft_orderbook_benchmark.LockFreeQueue.Threads.{
  System, Reach, here, later, push_begin, push_load, push_write, push_publish, pop_begin, pop_load,
  start, Producer, Consumer,
}
use hft_orderbook_benchmark.LockFreeQueue.Invariant.{Inv}
use hft_orderbook_benchmark.LockFreeQueue.Interleaving.{start-Inv, Reach-Inv, received_in_order}

two_slots : IsCapacity 2
two_slots = (1, omega arith, refl)

abbrev fresh : Queue ℕ
fresh = init (0 ∷ 0 ∷ [])

fresh-Holds : Holds 2 0 [] fresh
fresh-Holds = init-Holds 2 (0 ∷ 0 ∷ []) refl

abbrev loaded : Queue ℕ
loaded = (push 2 7 fresh).1

loaded-Holds : Holds 2 0 (7 ∷ []) loaded
unfolding init push
loaded-Holds = push_fills 2 two_slots 0 7 [] fresh (omega arith) fresh-Holds

abbrev loaded_items : List ℕ
loaded_items = 7 ∷ []

push-Holds_example :
    ((length loaded_items < 2)
      × ((push 2 8 loaded).0 ≡ true)
      × Holds 2 0 (7 ∷ 8 ∷ []) (push 2 8 loaded).1)
    ⊎ ((length loaded_items ≡ 2) × (push 2 8 loaded ≡ (false, loaded)))
push-Holds_example = push-Holds 2 two_slots 0 8 (7 ∷ []) loaded loaded-Holds

pop-Holds_example : ((pop 2 loaded).0 ≡ some 7) × Holds 2 1 [] (pop 2 loaded).1
pop-Holds_example = pop-Holds 2 two_slots 0 (7 ∷ []) loaded loaded-Holds

-- A push of 7, in which a pop begins; the pop then takes it.
abbrev s0 : System ℕ
s0 = record {
  queue = record { write_index = 0; read_index = 0; buffer = 0 ∷ 0 ∷ [] };
  producer = Producer.idle;
  consumer = Consumer.idle;
  sent = [];
  received = [];
}

abbrev s1 : System ℕ
s1 = record s0 { producer = Producer.began 7 0 }

abbrev s2 : System ℕ
s2 = record s1 { producer = Producer.loaded 7 0 0 }

abbrev s3 : System ℕ
s3 = record s2 { consumer = Consumer.began 0 }

abbrev s4 : System ℕ
s4 = record s3 {
  queue = record { write_index = 0; read_index = 0; buffer = 7 ∷ 0 ∷ [] };
  producer = Producer.written 7 0;
}

abbrev s5 : System ℕ
s5 = record s4 {
  queue = record { write_index = 1; read_index = 0; buffer = 7 ∷ 0 ∷ [] };
  producer = Producer.idle;
  sent = 7 ∷ [];
}

abbrev s6 : System ℕ
s6 = record s5 { consumer = Consumer.loaded 0 1 }

reach : Reach 2 (start (0 ∷ 0 ∷ [])) s6
unfolding start init
reach =
    let r1 : Reach 2 s0 s1 = later here (push_begin 7 refl) in
    let r2 : Reach 2 s0 s2 = later r1 (push_load 7 0 refl) in
    let r3 : Reach 2 s0 s3 = later r2 (pop_begin refl) in
    let r4 : Reach 2 s0 s4 = later r3 (push_write 7 0 0 refl refl) in
    let r5 : Reach 2 s0 s5 = later r4 (push_publish 7 0 refl) in later r5 (pop_load 0 refl)

s6-Inv : Inv 2 s6
s6-Inv = Reach-Inv 2 two_slots (start-Inv 2 (0 ∷ 0 ∷ []) refl) reach

received_in_order_example :
    (items : List ℕ) × (7 ∷ [] ≡ [] ++ items) × (length items ≤ 2) × Holds 2 0 items s6.queue
received_in_order_example = received_in_order 2 (0 ∷ 0 ∷ []) two_slots refl reach
