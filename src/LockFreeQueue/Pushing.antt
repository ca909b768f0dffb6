-- ===== src/LockFreeQueue/Pushing.antt =====
-- src/utils/lock_free_queue.hpp: the producer's store into the buffer and its release of the index.
use mathlib.Core.List.{append_assoc}
use native.Mathlib.Nat.{mod-lt}
use hft_orderbook_benchmark.Common.{
  ℕ, ◌+◌, ◌%◌, ◌≡◌, refl, ◌∙◌, false, [], ◌∷◌, ◌++◌, arith, set, length, length-append,
}
use hft_orderbook_benchmark.LockFreeQueue.{next_index, slot, is_full}
use hft_orderbook_benchmark.LockFreeQueue.Window.{
  set-Slots, append-Slots, get_elem?-set_self, length-set, IsCapacity, capacity_bounds,
  slot-wrapped,
}
use hft_orderbook_benchmark.LockFreeQueue.Threads.{Producer, Consumer, System}
use hft_orderbook_benchmark.LockFreeQueue.Invariant.{Consuming, Inv, producer_knows, room}

module _ {A : Type 0} (capacity : ℕ) (c : IsCapacity capacity) (s : System A)
    (v : Inv capacity s) where
  pub push_write-Inv :
      (x : A) (w r : ℕ)
      → s.producer ≡ Producer.loaded x w r
      → is_full capacity w r ≡ false
      → Inv capacity (record s {
        queue = record (s.queue) { buffer = set s.queue.buffer (slot capacity w) x };
        producer = Producer.written x w;
      })
  push_write-Inv x w r e f =
      let k = producer_knows capacity c s v (Producer.loaded x w r) e in
      let free = room capacity c s v w r k f in
      let place : slot capacity w ≡ (length s.received + length v.items) % capacity =
        rw (k.0, v.holds.write_cursor) (slot-wrapped capacity _ c) in
      record {
        items = v.items;
        holds = record {
          read_cursor = v.holds.read_cursor;
          write_cursor = v.holds.write_cursor;
          fits = v.holds.fits;
          storage = length-set s.queue.buffer (slot capacity w) x ∙ v.holds.storage;
          slots = rw place (
              set-Slots capacity s.queue.buffer (length s.received) _ x v.items (omega arith)
                (omega arith) v.holds.slots);
        };
        in_order = v.in_order;
        producing = (
          k.0,
          free,
          rw place (
              get_elem?-set_self s.queue.buffer _ x
                (rw v.holds.storage (mod-lt _ (capacity_bounds capacity c).0))),
        );
        consuming = same_consumer s.consumer v.consuming;
      }
    where
      same_consumer :
          (p : Consumer A)
          → Consuming capacity (length s.received) v.items s.queue p
          → Consuming capacity
              (length s.received)
              v.items
              (record (s.queue) { buffer = set s.queue.buffer (slot capacity w) x })
              p
      same_consumer Consumer.idle k = tt
      same_consumer (Consumer.began r) k = k
      same_consumer (Consumer.loaded r w) k = k
      same_consumer (Consumer.taken x r) k = k

  pub push_publish-Inv :
      (x : A) (w : ℕ)
      → s.producer ≡ Producer.written x w
      → Inv capacity (record s {
        queue = record (s.queue) { write_index = next_index w };
        producer = Producer.idle;
        sent = s.sent ++ x ∷ [];
      })
  push_publish-Inv x w e =
      let (own, free, there) = producer_knows capacity c s v (Producer.written x w) e in
      record {
        items = v.items ++ x ∷ [];
        holds = record {
          read_cursor = v.holds.read_cursor;
          write_cursor = omega (arith, own, v.holds.write_cursor, length-append v.items (x ∷ []));
          fits = omega (arith, length-append v.items (x ∷ []), free);
          storage = v.holds.storage;
          slots =
              append-Slots capacity s.queue.buffer (length s.received) _ x v.items refl there
                v.holds.slots;
        };
        in_order = rw v.in_order (append_assoc s.received v.items (x ∷ []));
        producing = tt;
        consuming = more s.consumer v.consuming;
      }
    where
      more :
          (p : Consumer A)
          → Consuming capacity (length s.received) v.items s.queue p
          → Consuming capacity
              (length s.received)
              (v.items ++ x ∷ [])
              (record (s.queue) { write_index = next_index w })
              p
      more Consumer.idle k = tt
      more (Consumer.began r) k = k
      more (Consumer.loaded r w) (k, (m, f, h)) =
          (k, (m, f, omega (arith, h, length-append v.items (x ∷ []))))
      more (Consumer.taken y r) (k, (rest, f)) = (k, (rest ++ x ∷ [], rw f))
