-- ===== src/LockFreeQueue/Invariant.antt =====
-- src/utils/lock_free_queue.hpp: what one producer and one consumer know of the queue at each of their
-- steps.
use hft_orderbook_benchmark.Common.{
  ℕ, ◌+◌, ◌%◌, ◌≤◌, ◌<◌, ◌≡◌, subst, false, List, ◌∷◌, ◌++◌, some, arith, get_elem?, length,
}
use hft_orderbook_benchmark.LockFreeQueue.{Queue, word, next_index, distance, is_full}
use hft_orderbook_benchmark.LockFreeQueue.Window.{IsCapacity, capacity_bounds}
use hft_orderbook_benchmark.LockFreeQueue.Fifo.{Holds}
use hft_orderbook_benchmark.LockFreeQueue.Threads.{Producer, Consumer, System}

module _ {A : Type 0} (capacity : ℕ) where
  -- What the producer knows: its own cursor, and a read cursor that may lag behind.
  abbrev pub Producing : ℕ → List A → Queue A → Producer A → Type 0
  Producing n items q Producer.idle = Unit
  Producing n items q (Producer.began x w) = w ≡ q.write_index
  Producing n items q (Producer.loaded x w r) =
      (w ≡ q.write_index) × ((m : ℕ) × (r ≡ m % word) × (m ≤ n) × (n + length items ≤ m + capacity))
  Producing n items q (Producer.written x w) =
      (w ≡ q.write_index)
      × (length items < capacity)
      × (get_elem? q.buffer ((n + length items) % capacity) ≡ some x)

  -- What the consumer knows: its own cursor, and a write cursor that may lag behind.
  abbrev pub Consuming : ℕ → List A → Queue A → Consumer A → Type 0
  Consuming n items q Consumer.idle = Unit
  Consuming n items q (Consumer.began r) = r ≡ q.read_index
  Consuming n items q (Consumer.loaded r w) =
      (r ≡ q.read_index) × ((m : ℕ) × (w ≡ (n + m) % word) × (m ≤ length items))
  Consuming n items q (Consumer.taken x r) =
      (r ≡ q.read_index) × ((rest : List A) × (items ≡ x ∷ rest))

  pub record Inv (s : System A) : Type 0 where
    pub items : List A
    pub holds : Holds capacity (length s.received) items s.queue
    pub in_order : s.sent ≡ s.received ++ items
    pub producing : Producing (length s.received) items s.queue s.producer
    pub consuming : Consuming (length s.received) items s.queue s.consumer

module _ {A : Type 0} (capacity : ℕ) (c : IsCapacity capacity) (s : System A)
    (v : Inv capacity s) where
  pub producer_knows :
      (p : Producer A) → s.producer ≡ p → Producing capacity (length s.received) v.items s.queue p
  producer_knows p e = subst (Producing capacity (length s.received) v.items s.queue) e v.producing

  pub consumer_knows :
      (p : Consumer A) → s.consumer ≡ p → Consuming capacity (length s.received) v.items s.queue p
  consumer_knows p e = subst (Consuming capacity (length s.received) v.items s.queue) e v.consuming

  -- A full test with a read cursor that lags may refuse in vain, but never lets an overflow through.
  pub room :
      (w r : ℕ)
      → (w ≡ s.queue.write_index)
        × ((m : ℕ) × (r ≡ m % word)
            × (m ≤ length s.received)
            × (length s.received + length v.items ≤ m + capacity))
      → is_full capacity w r ≡ false
      → length v.items < capacity
  room w r (e, (m, f, lag, fits)) h =
      let far : distance (next_index w) r ≤ capacity = ground arith in
      omega (arith, capacity_bounds capacity c, far, v.holds.write_cursor, e, f)
