-- ===== src/LockFreeQueue/Interleaving.antt =====
-- One producer and one consumer: nothing is lost, doubled or overtaken, in any interleaving.
use hft_orderbook_benchmark.Common.{ℕ, ◌≤◌, ◌≡◌, refl, List, [], ◌++◌, arith, length}
use hft_orderbook_benchmark.LockFreeQueue.Window.{IsCapacity}
use hft_orderbook_benchmark.LockFreeQueue.Fifo.{Holds, init-Holds}
use hft_orderbook_benchmark.LockFreeQueue.Threads.{
  Producer, Consumer, System, Step, push_begin, push_load, push_refuse, push_write, push_publish,
  pop_begin, pop_load, pop_empty, pop_take, pop_publish, Reach, here, later, start,
}
use hft_orderbook_benchmark.LockFreeQueue.Invariant.{Inv, producer_knows, consumer_knows}
use hft_orderbook_benchmark.LockFreeQueue.Pushing.{push_write-Inv, push_publish-Inv}
use hft_orderbook_benchmark.LockFreeQueue.Popping.{pop_take-Inv, pop_publish-Inv}

-- For a capacity that is a power of two, every step of either thread keeps the invariant.
pub Step-Inv :
    {A : Type 0} (capacity : ℕ) {s t : System A}
    → IsCapacity capacity
    → Step capacity s t
    → Inv capacity s
    → Inv capacity t
Step-Inv capacity {s} c (push_begin x e) v = record {
  items = v.items;
  holds = v.holds;
  in_order = v.in_order;
  producing = refl;
  consuming = v.consuming;
}
Step-Inv capacity {s} c (push_load x w e) v = record {
  items = v.items;
  holds = v.holds;
  in_order = v.in_order;
  producing = (
    producer_knows capacity c s v (Producer.began x w) e,
    (length s.received, v.holds.read_cursor, omega arith, omega (arith, v.holds.fits)),
  );
  consuming = v.consuming;
}
Step-Inv capacity {s} c (push_refuse x w r e f) v = record {
  items = v.items;
  holds = v.holds;
  in_order = v.in_order;
  producing = tt;
  consuming = v.consuming;
}
Step-Inv capacity {s} c (push_write x w r e f) v = push_write-Inv capacity c s v x w r e f
Step-Inv capacity {s} c (push_publish x w e) v = push_publish-Inv capacity c s v x w e
Step-Inv capacity {s} c (pop_begin e) v = record {
  items = v.items;
  holds = v.holds;
  in_order = v.in_order;
  producing = v.producing;
  consuming = refl;
}
Step-Inv capacity {s} c (pop_load r e) v = record {
  items = v.items;
  holds = v.holds;
  in_order = v.in_order;
  producing = v.producing;
  consuming = (
    consumer_knows capacity c s v (Consumer.began r) e,
    (length v.items, v.holds.write_cursor, omega arith),
  );
}
Step-Inv capacity {s} c (pop_empty r w e f) v = record {
  items = v.items;
  holds = v.holds;
  in_order = v.in_order;
  producing = v.producing;
  consuming = tt;
}
Step-Inv capacity {s} c (pop_take x r w e f g) v = pop_take-Inv capacity c s v x r w e f g
Step-Inv capacity {s} c (pop_publish x r e) v = pop_publish-Inv capacity c s v x r e

pub start-Inv :
    {A : Type 0} (capacity : ℕ) (buffer : List A)
    → length buffer ≡ capacity
    → Inv capacity (start buffer)
unfolding start
start-Inv capacity buffer h = record {
  items = [];
  holds = init-Holds capacity buffer h;
  in_order = refl;
  producing = tt;
  consuming = tt;
}

pub Reach-Inv :
    {A : Type 0} (capacity : ℕ) {s t : System A}
    → IsCapacity capacity
    → Inv capacity s
    → Reach capacity s t
    → Inv capacity t
Reach-Inv capacity c v here = v
Reach-Inv capacity c v (later r st) = Step-Inv capacity c st (Reach-Inv capacity c v r)

-- For a capacity that is a power of two and a buffer of that length: in every reachable state what was
-- received is the front of what was sent, in order, and the rest, at most as much as the capacity,
-- stands in the queue in order.
pub received_in_order :
    {A : Type 0} (capacity : ℕ) (buffer : List A) {t : System A}
    → IsCapacity capacity
    → length buffer ≡ capacity
    → Reach capacity (start buffer) t
    → (items : List A) × (t.sent ≡ t.received ++ items)
      × (length items ≤ capacity)
      × Holds capacity (length t.received) items t.queue
received_in_order capacity buffer c h r =
    let v = Reach-Inv capacity c (start-Inv capacity buffer h) r in
    (v.items, v.in_order, v.holds.fits, v.holds)
