-- ===== src/Engine/Loop.antt =====
-- src/core/matching_engine.cpp: `run`, while the producer pushes orders.
use mathlib.Core.List.{append_assoc, append-nil}
use hft_orderbook_benchmark.Common.{
  true, false, ℕ, ◌+◌, ◌<◌, ◌≡◌, refl, sym, ap, ◌∙◌, List, [], ◌∷◌, ◌++◌, Option, none, some, ltb,
  length, arith, inl, inr, length-append,
}
use hft_orderbook_benchmark.Core.{Order}
use hft_orderbook_benchmark.LockFreeQueue.{Queue, push, pop}
use hft_orderbook_benchmark.LockFreeQueue.Window.{IsCapacity}
use hft_orderbook_benchmark.LockFreeQueue.Fifo.{Holds, push-Holds, pop-Holds}
use hft_orderbook_benchmark.Engine.{OrderBook, Engine, process_order}
use hft_orderbook_benchmark.Engine.Drain.{
  Turn, arrives, polls, accepted, accepted-polled, pushes_of, pops_of, Ended, Finished, drain,
  process_all, drain-Finished,
}

module _ {B : Type 0} (ops : OrderBook B) (clock : ℕ → ℕ) (capacity : ℕ) where
  -- The loops of `run` up to the reading of `running` that ends them: the engine pops again and again.
  unfoldable pub spin : ℕ → List Turn → Queue Order → Engine B → Queue Order × Engine B
  unfolding push pop process_order
  spin n [] q e = (q, e)
  spin n (arrives o ∷ ts) q e = spin n ts (push n o q).1 e
  spin n (polls ∷ ts) q e = elim (pop n q).0 [
    | none ↦ spin n ts (pop n q).1 e
    | some o ↦ spin n ts (pop n q).1 (process_order ops clock capacity o e)
  ]

  -- `run`: the turns `ts` before the engine reads that `running` is false, and the last loop with the
  -- turns `us` after it, in which the producer may still push.
  unfoldable pub run : ℕ → List Turn → List Turn → Queue Order → Engine B → Option (Ended B)
  unfolding spin drain
  run n ts us q e = drain ops clock capacity n us (spin n ts q e).0 (spin n ts q e).1

  process_all-append :
      (xs ys : List Order) (e : Engine B)
      → process_all ops clock capacity (xs ++ ys) e
        ≡ process_all ops clock capacity ys (process_all ops clock capacity xs e)
  unfolding process_all
  process_all-append [] ys e = refl
  process_all-append (x ∷ xs) ys e = process_all-append xs ys (process_order ops clock capacity x e)

  -- What the turns come to, from a queue that holds `items`: some of the orders are processed, and the
  -- others are queued.
  record Spun (n : ℕ) (items : List Order) (ts : List Turn) (e : Engine B)
      (r : Queue Order × Engine B) : Type 0 where
    cursor : ℕ
    processed : List Order
    queued : List Order
    holds : Holds n cursor queued r.0
    engine : r.1 ≡ process_all ops clock capacity processed e
    split : items ++ accepted n (length items) ts ≡ processed ++ queued
    rest :
        (us : List Turn)
        → accepted n (length items) (ts ++ us)
          ≡ accepted n (length items) ts ++ accepted n (length queued) us

  spin-Spun :
      (n : ℕ) (c : IsCapacity n) (ts : List Turn) (m : ℕ) (items : List Order) (q : Queue Order)
      (e : Engine B)
      → Holds n m items q
      → Spun n items ts e (spin n ts q e)
  unfolding spin process_all
  spin-Spun n c [] m items q e v = record {
    cursor = m;
    processed = [];
    queued = items;
    holds = v;
    engine = refl;
    split = append-nil items;
    rest = λ us. refl;
  }
  spin-Spun n c (arrives o ∷ ts) m items q e v = elim (push-Holds n c m o items q v) [
    | inl (h, g, w) ↦
        let s = spin-Spun n c ts m (items ++ o ∷ []) (push n o q).1 e w in
        let l : length (items ++ o ∷ []) ≡ length items + 1 = length-append items (o ∷ []) in
        let room : ltb (length items) n ≡ true = ground arith in
        record {
          cursor = s.cursor;
          processed = s.processed;
          queued = s.queued;
          holds = s.holds;
          engine = s.engine;
          split = rw room (
              sym (append_assoc items (o ∷ []) (accepted n (length items + 1) ts))
              ∙ (rw l at s.split));
          rest = λ us. rw (room, ← l) (ap (◌∷◌ o) (s.rest us));
        }
    | inr (h, g) ↦
        let s = spin-Spun n c ts m items q e v in
        let full : ltb (length items) n ≡ false = ground arith in
        rw (g, spin)
          (record {
            cursor = s.cursor;
            processed = s.processed;
            queued = s.queued;
            holds = s.holds;
            engine = s.engine;
            split = rw full s.split;
            rest = λ us. rw full (s.rest us);
          })
  ]
  spin-Spun n c (polls ∷ ts) m [] q e v =
      let p = pop-Holds n c m [] q v in
      let p1 : (pop n q).1 ≡ q = ap (λ r. r.1) p in
      let s = spin-Spun n c ts m [] (pop n q).1 e (rw p1 v) in
      rw (p, spin)
        (record {
          cursor = s.cursor;
          processed = s.processed;
          queued = s.queued;
          holds = s.holds;
          engine = s.engine;
          split = s.split;
          rest = s.rest;
        })
  spin-Spun n c (polls ∷ ts) m (o ∷ items) q e v =
      let p = pop-Holds n c m (o ∷ items) q v in
      let s =
        spin-Spun n c ts (m + 1) items (pop n q).1 (process_order ops clock capacity o e) p.1 in
      rw (p.0, spin)
        (record {
          cursor = s.cursor;
          processed = o ∷ s.processed;
          queued = s.queued;
          holds = s.holds;
          engine = s.engine;
          split =
              ap (λ os. o ∷ (items ++ os)) (accepted-polled n (length items) ts)
              ∙ ap (◌∷◌ o) s.split;
          rest = λ us.
              rw (accepted-polled n (length items) (ts ++ us), accepted-polled n (length items) ts)
                (s.rest us);
        })

  -- However the producer's pushes and the engine's pops take turns, also in the last loop of `run`, from a
  -- queue of `n` slots, a power of two: if the turns of the last loop have more pops than pushes and slots, `run` returns.
  -- Up to its last pop it has processed the orders that were queued before and those that the queue
  -- accepted, each once and in order, and leaves the queue empty. The orders that the queue accepts in
  -- the turns after that are not processed.
  pub run-process_all :
      (n : ℕ) (c : IsCapacity n) (m : ℕ) (ts us : List Turn) (items : List Order) (q : Queue Order)
      (e : Engine B)
      → Holds n m items q
      → n + pushes_of us < pops_of us
      → Finished ops clock capacity n items ts us e (run n ts us q e)
  unfolding run
  run-process_all n c m ts us items q e v h =
      let s = spin-Spun n c ts m items q e v in
      let d =
        drain-Finished ops clock capacity n c us s.cursor s.queued (spin n ts q e).0
          (spin n ts q e).1 s.holds (omega (arith, s.holds.fits)) in
      record {
        used = d.used;
        last = d.last;
        cursor = d.cursor;
        returns = d.returns;
        split = d.split;
        processed =
            d.processed
            ∙ ap (process_all ops clock capacity (s.queued ++ accepted n (length s.queued) d.used))
                s.engine
            ∙ sym
                (process_all-append s.processed (s.queued ++ accepted n (length s.queued) d.used) e)
            ∙ ap (λ os. process_all ops clock capacity os e)
                (sym (append_assoc s.processed s.queued (accepted n (length s.queued) d.used))
                  ∙ ap (λ os. os ++ accepted n (length s.queued) d.used) (sym s.split)
                  ∙ append_assoc items (accepted n (length items) ts)
                      (accepted n (length s.queued) d.used)
                  ∙ ap (λ os. items ++ os) (sym (s.rest d.used)));
        holds = d.holds;
        left =
            s.rest us
            ∙ ap (λ os. accepted n (length items) ts ++ os) d.left
            ∙ sym (
                append_assoc (accepted n (length items) ts) (accepted n (length s.queued) d.used)
                  (accepted n 0 d.last.later))
            ∙ ap (λ os. os ++ accepted n 0 d.last.later) (sym (s.rest d.used));
      }
