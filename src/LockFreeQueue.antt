-- ===== src/LockFreeQueue.antt =====
-- src/utils/lock_free_queue.hpp, `LockFreeQueue<ItemType, QueueCapacity>`: the calls as they run with
-- no other thread between their steps. Its children hold the two threads' steps and the proofs.
pub mod Window
pub mod Fifo
pub mod Threads
pub mod Invariant
pub mod Pushing
pub mod Popping
pub mod Interleaving
mod Tests
use Prim.Native.Nat.{bit_and}
use hft_orderbook_benchmark.Common.{
  ℕ, ◌+◌, ◌-◌, ◌%◌, ◌^◌, Bool, true, false, List, Option, none, some, if◌then◌else◌, ◌==◌, ltb,
  get_elem?, set,
}

pub record Queue (A : Type 0) : Type 0 where
  pub write_index : ℕ
  pub read_index : ℕ
  pub buffer : List A

-- `size_t`.
abbrev pub word : ℕ
word = 2 ^ 64

-- `i + 1` and `a - b` on `size_t`.
abbrev pub next_index : ℕ → ℕ
next_index i = (i + 1) % word

abbrev pub distance : ℕ → ℕ → ℕ
distance a b = (a + word - b) % word

-- `i & (QueueCapacity - 1)`.
abbrev pub slot : ℕ → ℕ → ℕ
slot capacity i = bit_and i (capacity - 1)

-- `nextWrite - currentRead > QueueCapacity`.
abbrev pub is_full : ℕ → ℕ → ℕ → Bool
is_full capacity w r = ltb capacity (distance (next_index w) r)

module _ {A : Type 0} where
  -- The constructor: the indices are 0, and the buffer holds whatever items it is made with.
  unfoldable pub init : List A → Queue A
  init buffer = record { write_index = 0; read_index = 0; buffer = buffer }

  module _ (capacity : ℕ) where
    unfoldable pub push : A → Queue A → Bool × Queue A
    push item q = if is_full capacity q.write_index q.read_index then (false, q) else (
      true,
      record q {
        write_index = next_index q.write_index;
        buffer = set q.buffer (slot capacity q.write_index) item;
      },
    )

    -- `none` for the result `false`.
    unfoldable pub pop : Queue A → Option A × Queue A
    pop q = if q.read_index == q.write_index then (none, q) else (
      get_elem? q.buffer (slot capacity q.read_index),
      record q { read_index = next_index q.read_index },
    )

  unfoldable pub size : Queue A → ℕ
  size q = distance q.write_index q.read_index
