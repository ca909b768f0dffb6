-- ===== src/LockFreeQueue/Threads.antt =====
-- src/utils/lock_free_queue.hpp as two threads run it: each load, store and buffer access of `push`
-- and `pop` is a step, and the steps of the two interleave. Steps take effect in one order that both
-- threads see, which is what the acquire loads and release stores are there for.
use hft_orderbook_benchmark.Common.{
  ℕ, ◌≡◌, true, false, List, [], ◌∷◌, ◌++◌, some, ◌==◌, get_elem?, set,
}
use hft_orderbook_benchmark.LockFreeQueue.{Queue, next_index, slot, is_full, init}

-- Where the one producer stands in `push(item)`, with its local variables.
pub data Producer (A : Type 0) : Type 0 where
  idle : Producer A
  began : A → ℕ → Producer A
  loaded : A → ℕ → ℕ → Producer A
  written : A → ℕ → Producer A

-- Where the one consumer stands in `pop(value)`.
pub data Consumer (A : Type 0) : Type 0 where
  idle : Consumer A
  began : ℕ → Consumer A
  loaded : ℕ → ℕ → Consumer A
  taken : A → ℕ → Consumer A

-- With the queue, what `push` has accepted and what `pop` has returned so far.
pub record System (A : Type 0) : Type 0 where
  pub queue : Queue A
  pub producer : Producer A
  pub consumer : Consumer A
  pub sent : List A
  pub received : List A

pub data Step {A : Type 0} (capacity : ℕ) (s : System A) : System A → Type 0 where
  push_begin :
      (x : A)
      → s.producer ≡ Producer.idle
      → Step capacity s (record s { producer = Producer.began x s.queue.write_index })
  push_load :
      (x : A) (w : ℕ)
      → s.producer ≡ Producer.began x w
      → Step capacity s (record s { producer = Producer.loaded x w s.queue.read_index })
  push_refuse :
      (x : A) (w r : ℕ)
      → s.producer ≡ Producer.loaded x w r
      → is_full capacity w r ≡ true
      → Step capacity s (record s { producer = Producer.idle })
  push_write :
      (x : A) (w r : ℕ)
      → s.producer ≡ Producer.loaded x w r
      → is_full capacity w r ≡ false
      → Step capacity s (record s {
        queue = record (s.queue) { buffer = set s.queue.buffer (slot capacity w) x };
        producer = Producer.written x w;
      })
  push_publish :
      (x : A) (w : ℕ)
      → s.producer ≡ Producer.written x w
      → Step capacity s (record s {
        queue = record (s.queue) { write_index = next_index w };
        producer = Producer.idle;
        sent = s.sent ++ x ∷ [];
      })
  pop_begin :
      s.consumer ≡ Consumer.idle
      → Step capacity s (record s { consumer = Consumer.began s.queue.read_index })
  pop_load :
      (r : ℕ)
      → s.consumer ≡ Consumer.began r
      → Step capacity s (record s { consumer = Consumer.loaded r s.queue.write_index })
  pop_empty :
      (r w : ℕ)
      → s.consumer ≡ Consumer.loaded r w
      → (r == w) ≡ true
      → Step capacity s (record s { consumer = Consumer.idle })
  pop_take :
      (x : A) (r w : ℕ)
      → s.consumer ≡ Consumer.loaded r w
      → (r == w) ≡ false
      → get_elem? s.queue.buffer (slot capacity r) ≡ some x
      → Step capacity s (record s { consumer = Consumer.taken x r })
  pop_publish :
      (x : A) (r : ℕ)
      → s.consumer ≡ Consumer.taken x r
      → Step capacity s (record s {
        queue = record (s.queue) { read_index = next_index r };
        consumer = Consumer.idle;
        received = s.received ++ x ∷ [];
      })

pub data Reach {A : Type 0} (capacity : ℕ) (s : System A) : System A → Type 0 where
  here : Reach capacity s s
  later : {t u : System A} → Reach capacity s t → Step capacity t u → Reach capacity s u

-- Both threads idle, nothing sent.
unfoldable pub start : {A : Type 0} → List A → System A
unfolding init
start buffer = record {
  queue = init buffer;
  producer = Producer.idle;
  consumer = Consumer.idle;
  sent = [];
  received = [];
}
