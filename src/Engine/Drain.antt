-- ===== src/Engine/Drain.antt =====
-- src/core/matching_engine.cpp: the last loop of `run`, while the producer may still push orders.
use mathlib.Core.List.{append_assoc}
use hft_orderbook_benchmark.Common.{
  true, false, ℕ, suc, ◌+◌, ◌-◌, ◌<◌, ◌≡◌, refl, ap, ◌∙◌, List, [], ◌∷◌, ◌++◌, Option, none, some,
  if◌then◌else◌, ltb, length, arith, inl, inr, length-append,
}
use hft_orderbook_benchmark.Core.{Order}
use hft_orderbook_benchmark.LockFreeQueue.{Queue, push, pop}
use hft_orderbook_benchmark.LockFreeQueue.Window.{IsCapacity}
use hft_orderbook_benchmark.LockFreeQueue.Fifo.{Holds, push-Holds, pop-Holds}
use hft_orderbook_benchmark.Engine.{OrderBook, Engine, process_order}

-- A turn of one of the two threads: the producer's `push` of an order, or a `pop` of the engine with
-- the order that it returns, if any, processed.
pub data Turn : Type 0 where
  arrives : Order → Turn
  polls : Turn

-- The orders that a queue of `n` slots with `l` items accepts during the turns.
abbrev pub accepted : ℕ → ℕ → List Turn → List Order
accepted n l [] = []
accepted n l (arrives o ∷ ts) = if ltb l n then o ∷ accepted n (l + 1) ts else accepted n l ts
accepted n l (polls ∷ ts) = accepted n (l - 1) ts

one_less : (l : ℕ) → suc l - 1 ≡ l
one_less l = omega arith

pub accepted-polled : (n l : ℕ) (ts : List Turn) → accepted n (suc l - 1) ts ≡ accepted n l ts
accepted-polled n l ts = ap (λ m. accepted n m ts) (one_less l)

-- How many of the turns are pushes, and how many are pops.
abbrev pub pushes_of : List Turn → ℕ
pushes_of [] = 0
pushes_of (arrives o ∷ ts) = suc (pushes_of ts)
pushes_of (polls ∷ ts) = pushes_of ts

abbrev pub pops_of : List Turn → ℕ
pops_of [] = 0
pops_of (arrives o ∷ ts) = pops_of ts
pops_of (polls ∷ ts) = suc (pops_of ts)

-- The state when `run` returns, and the turns that are still to come: the producer goes on.
pub record Ended (B : Type 0) : Type 0 where
  pub queue : Queue Order
  pub engine : Engine B
  pub later : List Turn

module _ {B : Type 0} (ops : OrderBook B) (clock : ℕ → ℕ) (capacity : ℕ) where
  -- `while (inputQueue_.pop(order)) processOrder(order);`, for a queue of `n` slots: it ends with the
  -- first pop that finds the queue empty. `none` is a loop that has not ended with the turns.
  unfoldable pub drain : ℕ → List Turn → Queue Order → Engine B → Option (Ended B)
  unfolding push pop process_order
  drain n [] q e = none
  drain n (arrives o ∷ us) q e = drain n us (push n o q).1 e
  drain n (polls ∷ us) q e = elim (pop n q).0 [
    | none ↦ some (record { queue = (pop n q).1; engine = e; later = us })
    | some o ↦ drain n us (pop n q).1 (process_order ops clock capacity o e)
  ]

  -- The orders processed one after the other.
  unfoldable pub process_all : List Order → Engine B → Engine B
  process_all [] e = e
  process_all (o ∷ os) e = process_all os (process_order ops clock capacity o e)

  -- What the turns `ts` and, for the last loop, `us` come to, from a queue that holds `items`: the loop
  -- ends after the turns `used` of `us`. The orders that were queued or accepted up to then are
  -- processed, each once and in order, the queue is empty, and the orders that it accepts in the turns
  -- that are still to come are not processed.
  pub record Finished (n : ℕ) (items : List Order) (ts us : List Turn) (e : Engine B)
      (r : Option (Ended B)) : Type 0 where
    pub used : List Turn
    pub last : Ended B
    pub cursor : ℕ
    pub returns : r ≡ some last
    pub split : us ≡ used ++ last.later
    pub processed : last.engine ≡ process_all (items ++ accepted n (length items) (ts ++ used)) e
    pub holds : Holds n cursor [] last.queue
    pub left :
        accepted n (length items) (ts ++ us)
        ≡ accepted n (length items) (ts ++ used) ++ accepted n 0 last.later

  -- With more pops than there are items and pushes, the last loop ends.
  pub drain-Finished :
      (n : ℕ) (c : IsCapacity n) (us : List Turn) (m : ℕ) (items : List Order) (q : Queue Order)
      (e : Engine B)
      → Holds n m items q
      → length items + pushes_of us < pops_of us
      → Finished n items [] us e (drain n us q e)
  unfolding drain process_all
  drain-Finished n c [] m items q e v h = absurd (omega arith)
  drain-Finished n c (arrives o ∷ us) m items q e v h = elim (push-Holds n c m o items q v) [
    | inl (b, g, w) ↦
        let l : length (items ++ o ∷ []) ≡ length items + 1 = length-append items (o ∷ []) in
        let s = drain-Finished n c us m (items ++ o ∷ []) (push n o q).1 e w (omega arith) in
        let room : ltb (length items) n ≡ true = ground arith in
        record {
          used = arrives o ∷ s.used;
          last = s.last;
          cursor = s.cursor;
          returns = s.returns;
          split = ap (◌∷◌ (arrives o)) s.split;
          processed = rw room (
              s.processed
              ∙ ap (λ os. process_all os e)
                  (append_assoc items (o ∷ []) (accepted n (length (items ++ o ∷ [])) s.used)
                    ∙ ap (λ k. items ++ o ∷ accepted n k s.used) l));
          holds = s.holds;
          left = rw (room, ← l) (ap (◌∷◌ o) s.left);
        }
    | inr (b, g) ↦
        let s = drain-Finished n c us m items q e v (omega arith) in
        let full : ltb (length items) n ≡ false = ground arith in
        rw (g, drain)
          (record {
            used = arrives o ∷ s.used;
            last = s.last;
            cursor = s.cursor;
            returns = s.returns;
            split = ap (◌∷◌ (arrives o)) s.split;
            processed = rw full s.processed;
            holds = s.holds;
            left = rw full s.left;
          })
  ]
  drain-Finished n c (polls ∷ us) m [] q e v h =
      let p = pop-Holds n c m [] q v in
      let p1 : (pop n q).1 ≡ q = ap (λ r. r.1) p in
      rw (p, drain)
        (record {
          used = polls ∷ [];
          last = record { queue = (pop n q).1; engine = e; later = us };
          cursor = m;
          returns = refl;
          split = refl;
          processed = refl;
          holds = rw p1 v;
          left = refl;
        })
  drain-Finished n c (polls ∷ us) m (o ∷ items) q e v h =
      let p = pop-Holds n c m (o ∷ items) q v in
      let s =
        drain-Finished n c us (m + 1) items (pop n q).1 (process_order ops clock capacity o e) p.1
          (omega arith) in
      rw (p.0, drain)
        (record {
          used = polls ∷ s.used;
          last = s.last;
          cursor = s.cursor;
          returns = s.returns;
          split = ap (◌∷◌ polls) s.split;
          processed = rw (accepted-polled n (length items) s.used) s.processed;
          holds = s.holds;
          left =
              rw (accepted-polled n (length items) us, accepted-polled n (length items) s.used)
                s.left;
        })
