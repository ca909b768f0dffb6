-- ===== src/LockFreeQueue/Popping.antt =====
-- src/utils/lock_free_queue.hpp: the consumer's load from the buffer and its release of the index.
use mathlib.Core.List.{append_assoc}
use hft_orderbook_benchmark.Common.{
  ℕ, suc, ◌+◌, ◌%◌, ◌<◌, ◌≡◌, sym, ap, subst, ◌∙◌, false, List, [], ◌∷◌, ◌++◌, some, ◌==◌, arith,
  get_elem?, length, length-append, ne_of_==,
}
use hft_orderbook_benchmark.LockFreeQueue.{next_index, slot}
use hft_orderbook_benchmark.LockFreeQueue.Window.{Slots, IsCapacity, slot-wrapped}
use hft_orderbook_benchmark.LockFreeQueue.Fifo.{Holds}
use hft_orderbook_benchmark.LockFreeQueue.Threads.{Producer, Consumer, System}
use hft_orderbook_benchmark.LockFreeQueue.Invariant.{Producing, Inv, consumer_knows}

module _ {A : Type 0} (capacity : ℕ) (c : IsCapacity capacity) (s : System A)
    (v : Inv capacity s) where
  pub pop_take-Inv :
      (x : A) (r w : ℕ)
      → s.consumer ≡ Consumer.loaded r w
      → (r == w) ≡ false
      → get_elem? s.queue.buffer (slot capacity r) ≡ some x
      → Inv capacity (record s { consumer = Consumer.taken x r })
  pop_take-Inv x r w e f g = record {
    items = v.items;
    holds = v.holds;
    in_order = v.in_order;
    producing = v.producing;
    consuming =
        let k = consumer_knows capacity c s v (Consumer.loaded r w) e in
        (
          k.0,
          first v.items v.holds.slots
              (omega (arith, ne_of_== r w f, k.0, k.1.1, k.1.2, v.holds.read_cursor)) k.0,
        );
  }
    where
      first :
          (xs : List A)
          → Slots capacity s.queue.buffer (length s.received) xs
          → 0 < length xs
          → r ≡ s.queue.read_index
          → (rest : List A) × (xs ≡ x ∷ rest)
      first [] t l own = absurd (omega arith)
      first (y ∷ ys) t l own =
          let place : slot capacity r ≡ length s.received % capacity =
            rw (own, v.holds.read_cursor) (slot-wrapped capacity _ c) in
          let here : get_elem? s.queue.buffer (slot capacity r) ≡ some y = rw place t.0 in
          (ys, ap (λ z. z ∷ ys) (cc))

  pub pop_publish-Inv :
      (x : A) (r : ℕ)
      → s.consumer ≡ Consumer.taken x r
      → Inv capacity (record s {
        queue = record (s.queue) { read_index = next_index r };
        consumer = Consumer.idle;
        received = s.received ++ x ∷ [];
      })
  pop_publish-Inv x r e =
      let k = consumer_knows capacity c s v (Consumer.taken x r) e in
      let rest = k.1.0 in
      let h : Holds capacity (length s.received) (x ∷ rest) s.queue =
        subst (λ xs. Holds capacity (length s.received) xs s.queue) k.1.1 v.holds in
      record {
        items = rest;
        holds = rw one_more (record {
          read_cursor = omega (arith, k.0, h.read_cursor);
          write_cursor = omega (arith, h.write_cursor);
          fits = omega (arith, h.fits);
          storage = h.storage;
          slots = h.slots.1;
        });
        in_order =
            v.in_order ∙ ap (◌++◌ s.received) k.1.1 ∙ sym (append_assoc s.received (x ∷ []) rest);
        producing = rw one_more (fewer rest k.1.1 s.producer v.producing);
        consuming = tt;
      }
    where
      one_more : length (s.received ++ x ∷ []) ≡ length s.received + 1
      one_more = omega (arith, length-append s.received (x ∷ []))

      fewer :
          (rest : List A)
          → v.items ≡ x ∷ rest
          → (p : Producer A) → Producing capacity (length s.received) v.items s.queue p
          → Producing capacity
              (length s.received + 1)
              rest
              (record (s.queue) { read_index = next_index r })
              p
      fewer rest f Producer.idle k = tt
      fewer rest f (Producer.began y w) k = k
      fewer rest f (Producer.loaded y w l) (k, (m, g, lag, fits)) =
          let n : length v.items ≡ suc (length rest) = ap length f in
          (k, (m, g, omega (arith, lag), omega (arith, fits, n)))
      fewer rest f (Producer.written y w) (k, free, there) =
          let n : length v.items ≡ suc (length rest) = ap length f in
          let same : length s.received + 1 + length rest ≡ length s.received + length v.items =
            omega (arith, n) in
          (k, omega (arith, free, n), rw same there)
