-- ===== src/LockFreeQueue/Fifo.antt =====
-- The calls of the queue against a list: a push adds at the end, a pop takes from the front.
use native.Mathlib.Nat.{mod-lt}
use native.Mathlib.Decide.{dec_lt}
use hft_orderbook_benchmark.Common.{
  ℕ, ◌+◌, ◌%◌, ◌≤◌, ◌<◌, ◌≡◌, refl, ap, ◌∙◌, true, false, List, [], ◌∷◌, ◌++◌, none, some, ◌==◌,
  ltb, arith, get_elem?, set, length, length-append, ==_ne, ◌⊎◌, inl, inr,
}
use hft_orderbook_benchmark.LockFreeQueue.{
  Queue, word, next_index, distance, slot, is_full, push, pop, size, init,
}
use hft_orderbook_benchmark.LockFreeQueue.Window.{
  Slots, set-Slots, append-Slots, get_elem?-set_self, length-set, IsCapacity, capacity_bounds,
  slot-wrapped,
}

-- The queue holds `items`, of which the first is the `n`-th that was ever pushed.
module _ {A : Type 0} where
  pub record Holds (capacity n : ℕ) (items : List A) (q : Queue A) : Type 0 where
    pub read_cursor : q.read_index ≡ n % word
    pub write_cursor : q.write_index ≡ (n + length items) % word
    pub fits : length items ≤ capacity
    pub storage : length q.buffer ≡ capacity
    pub slots : Slots capacity q.buffer n items

  module _ (capacity : ℕ) (c : IsCapacity capacity) where
    -- The queue is full exactly when the list is as long as the capacity.
    pub is_full_lem :
        (n : ℕ) (items : List A) (q : Queue A)
        → Holds capacity n items q
        → is_full capacity q.write_index q.read_index ≡ ltb capacity (length items + 1)
    is_full_lem n items q v =
        let d : distance (next_index q.write_index) q.read_index ≡ length items + 1 =
          omega (arith, capacity_bounds capacity c) in
        ap (λ (m : ℕ). ltb capacity m) d

    pub push_fills :
        (n : ℕ) (x : A) (items : List A) (q : Queue A)
        → length items < capacity
        → Holds capacity n items q
        → Holds capacity n (items ++ x ∷ []) (record q {
          write_index = next_index q.write_index;
          buffer = set q.buffer (slot capacity q.write_index) x;
        })
    push_fills n x items q h v = record {
      read_cursor = v.read_cursor;
      write_cursor = omega (arith, v.write_cursor, length-append items (x ∷ []));
      fits = omega (arith, length-append items (x ∷ []));
      storage = length-set q.buffer (slot capacity q.write_index) x ∙ v.storage;
      slots = rw place (
          append-Slots capacity _ n (n + length items) x items refl
            (get_elem?-set_self q.buffer ((n + length items) % capacity) x
              (rw v.storage (mod-lt (n + length items) (capacity_bounds capacity c).0)))
            (set-Slots capacity q.buffer n (n + length items) x items (omega arith) (omega arith)
              v.slots));
    }
      where
        place : slot capacity q.write_index ≡ (n + length items) % capacity
        place = rw v.write_cursor (slot-wrapped capacity (n + length items) c)

    -- With a capacity that is a power of two: a push on a queue that holds fewer items than that adds
    -- the item at the end and returns true, and on a full one it returns false and changes nothing.
    pub push-Holds :
        (n : ℕ) (x : A) (items : List A) (q : Queue A)
        → Holds capacity n items q
        → ((length items < capacity)
            × ((push capacity x q).0 ≡ true)
            × Holds capacity n (items ++ x ∷ []) (push capacity x q).1)
          ⊎ ((length items ≡ capacity) × (push capacity x q ≡ (false, q)))
    unfolding push
    push-Holds n x items q v = elim (dec_lt (length items) capacity) [
      | yes h ↦
          let room : is_full capacity q.write_index q.read_index ≡ false =
            is_full_lem n items q v ∙ ground arith in
          inl (h, rw (room, push), rw (room, push) (push_fills n x items q h v))
      | no h ↦
          let full : is_full capacity q.write_index q.read_index ≡ true =
            is_full_lem n items q v ∙ ground (arith, v.fits) in
          inr (omega (arith, v.fits), rw (full, push))
    ]

    pop_takes :
        (n : ℕ) (x : A) (items : List A) (q : Queue A)
        → Holds capacity n (x ∷ items) q
        → (get_elem? q.buffer (slot capacity q.read_index) ≡ some x)
          × Holds capacity (n + 1) items (record q { read_index = next_index q.read_index })
    pop_takes n x items q v = (
      rw (v.read_cursor, slot-wrapped capacity n c) v.slots.0,
      record {
        read_cursor = omega (arith, v.read_cursor);
        write_cursor = omega (arith, v.write_cursor);
        fits = omega (arith, v.fits);
        storage = v.storage;
        slots = v.slots.1;
      },
    )

    -- What a pop does to a queue that holds the items.
    abbrev pub Pops : ℕ → List A → Queue A → Type 0
    Pops n [] q = pop capacity q ≡ (none, q)
    Pops n (x ∷ items) q =
        ((pop capacity q).0 ≡ some x) × Holds capacity (n + 1) items (pop capacity q).1

    -- With a capacity that is a power of two: a pop takes the first of the items, or returns none from
    -- an empty queue and changes nothing.
    pub pop-Holds :
        (n : ℕ) (items : List A) (q : Queue A) → Holds capacity n items q → Pops n items q
    unfolding pop
    pop-Holds n [] q v =
        let e : (q.read_index == q.write_index) ≡ true =
          ground (arith, v.read_cursor, v.write_cursor) in
        rw (e, pop)
    pop-Holds n (x ∷ items) q v =
        let e : (q.read_index == q.write_index) ≡ false =
          ==_ne _ _ (omega (arith, v.fits, capacity_bounds capacity c)) in
        let t = pop_takes n x items q v in (rw (e, pop) t.0, rw (e, pop) t.1)

    -- With a capacity that is a power of two, `size` is the number of items, also when an index has
    -- wrapped.
    pub size-Holds :
        (n : ℕ) (items : List A) (q : Queue A) → Holds capacity n items q → size q ≡ length items
    unfolding size
    size-Holds n items q v = omega (arith, capacity_bounds capacity c)

  -- A new queue holds nothing.
  pub init-Holds :
      (capacity : ℕ) (buffer : List A)
      → length buffer ≡ capacity
      → Holds capacity 0 [] (init buffer)
  unfolding init
  init-Holds capacity buffer h = record {
    read_cursor = refl;
    write_cursor = refl;
    fits = omega arith;
    storage = h;
    slots = tt;
  }
