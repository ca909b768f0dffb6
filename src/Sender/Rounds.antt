-- ===== src/Sender/Rounds.antt =====
-- clients/tcp_order_sender.cpp and src/network/tcp_order_gateway.cpp: the client's messages in the gateway's loop.
use hft_orderbook_benchmark.Common.{
  ℕ, zero, suc, ◌+◌, ◌≤◌, ◌<◌, ◌≡◌, refl, sym, ap, ◌∙◌, Bool, false, List, [], ◌∷◌, ◌++◌, some,
  arith, length, length-append, length-drop, Bool-cases, inl, inr, ◌==◌, ltb, drop, All,
}
use hft_orderbook_benchmark.Core.{Order}
use hft_orderbook_benchmark.Fix.Text.{Bytes}
use hft_orderbook_benchmark.Gateway.{
  Event, queued, Tally, Processed, Frame, next_frame, handle, joined, process,
}
use hft_orderbook_benchmark.Gateway.Stream.{process_waits, process_taken, process-nil}
use hft_orderbook_benchmark.Sender.Lines.{
  line, IsSendable, next_frame-line, next_frame-part, length-line,
}

-- What the client sends for its orders.
abbrev pub stream : List Order → Bytes
stream [] = []
stream (o ∷ os) = line o ++ stream os

-- The bytes left are no whole line.
abbrev pub IsPart : Bytes → List Order → Type 0
IsPart xs [] = xs ≡ []
IsPart xs (o ∷ os) = length xs < length (line o)

-- Bytes that begin like others, at least as long.
split_front :
    (ws xs ys bs : Bytes)
    → xs ++ ys ≡ ws ++ bs
    → length ws ≤ length xs
    → (xs ≡ ws ++ drop (length ws) xs) × (drop (length ws) xs ++ ys ≡ bs)
split_front [] xs ys bs e h = (refl, e)
split_front (a ∷ ws) [] ys bs e h = absurd (omega arith)
split_front (a ∷ ws) (x ∷ xs) ys bs e h =
    let w : (x ≡ a) × (xs ++ ys ≡ ws ++ bs) = ground (arith, e) in
    let r = split_front ws xs ys bs w.1 (omega arith) in (rw (w.0, sym r.0) refl, r.1)

module _ (clock : ℕ → ℕ) where
  -- The orders, each with its time of receipt.
  abbrev pub arrivals : ℕ → List Order → List Event
  arrivals n [] = []
  arrivals n (o ∷ os) = queued (record o { receive_timestamp = clock n }) ∷ arrivals (n + 1) os

  pub arrivals-append :
      (n : ℕ) (os ps : List Order)
      → arrivals n (os ++ ps) ≡ arrivals n os ++ arrivals (n + length os) ps
  arrivals-append n [] ps = ap (λ (k : ℕ). arrivals k ps) (omega arith)
  arrivals-append n (o ∷ os) ps = ap (◌∷◌ (queued (record o { receive_timestamp = clock n }))) (
      arrivals-append (n + 1) os ps
      ∙ ap (λ (k : ℕ). arrivals (n + 1) os ++ arrivals k ps) (omega arith))

module _ (has_metrics : Bool) (clock : ℕ → ℕ) (sent : ℕ → Bool) where
  -- What the loop makes of bytes in front of a stream.
  pub record Progress (ys : Bytes) (os : List Order) (t : Tally) (out : Processed) : Type 0 where
    pub done : List Order
    pub left : List Order
    pub parts : done ++ left ≡ os
    pub same_events : out.events ≡ arrivals clock t.readings done
    pub same_rest : out.rest ++ ys ≡ stream left
    pub is_part : IsPart out.rest left
    pub read : out.tally.readings ≡ t.readings + length done

  process-waiting :
      (f : ℕ) (o : Order) (xs ys : Bytes) (os : List Order) (t : Tally)
      → IsSendable o
      → xs ++ ys ≡ stream (o ∷ os)
      → length xs < length (line o)
      → Progress ys (o ∷ os) t (process has_metrics clock sent f xs t)
  process-waiting f o xs ys os t v e h =
      rw (process_waits has_metrics clock sent f xs t (next_frame-part o xs ys (stream os) v e h))
        (record {
          done = [];
          left = o ∷ os;
          parts = refl;
          same_events = refl;
          same_rest = e;
          is_part = h;
          read = omega arith;
        })

  -- A whole line is one round of the loop.
  process-line :
      (f : ℕ) (o : Order) (xs rest : Bytes) (t : Tally)
      → IsSendable o
      → xs ≡ line o ++ rest
      → drop (length (line o)) xs ≡ rest
      → process has_metrics clock sent (suc f) xs t
        ≡ joined
            (record {
              consumed = length (line o);
              events = queued (record o { receive_timestamp = clock t.readings }) ∷ [];
              tally = record t { readings = t.readings + 1 };
            })
            (process has_metrics clock sent f rest (record t { readings = t.readings + 1 }))
  unfolding handle
  process-line f o [] rest t v e d =
      absurd (omega (arith, ap length e, length-append (line o) rest, length-line o))
  process-line f o (x ∷ xs) rest t v e d =
      let fr : next_frame (x ∷ xs) ≡ Frame.message (length (line o)) (some o) =
        ap next_frame e ∙ next_frame-line o rest v in
      let z : (length (line o) == 0) ≡ false = ground (arith, length-line o) in
      let p = process_taken has_metrics clock sent f x xs t (rw fr z) in rw (fr, d) at p

  next-Progress :
      (o : Order) (ys : Bytes) (os : List Order) (t : Tally) (out : Processed)
      → Progress ys os (record t { readings = t.readings + 1 }) out
      → Progress ys (o ∷ os) t (
          joined
            (record {
              consumed = length (line o);
              events = queued (record o { receive_timestamp = clock t.readings }) ∷ [];
              tally = record t { readings = t.readings + 1 };
            })
            out)
  next-Progress o ys os t out p = record {
    done = o ∷ p.done;
    left = p.left;
    parts = ap (◌∷◌ o) p.parts;
    same_events =
        ap (◌∷◌ (queued (record o { receive_timestamp = clock t.readings }))) p.same_events;
    same_rest = p.same_rest;
    is_part = p.is_part;
    read = omega (arith, p.read);
  }

  -- Bytes of a stream: the loop queues the orders whose lines are whole, and leaves part of a line.
  pub process-Progress :
      (f : ℕ) (xs ys : Bytes) (os : List Order) (t : Tally)
      → All IsSendable os
      → xs ++ ys ≡ stream os
      → length xs ≤ f
      → Progress ys os t (process has_metrics clock sent f xs t)
  process-Progress f [] ys [] t v e h = rw (process-nil has_metrics clock sent f t) (record {
    done = [];
    left = [];
    parts = refl;
    same_events = refl;
    same_rest = e;
    is_part = refl;
    read = omega arith;
  })
  process-Progress f (x ∷ xs) ys [] t v e h = absurd (omega (arith, ap length e))
  process-Progress zero xs ys (o ∷ os) t v e h =
      process-waiting zero o xs ys os t v.0 e (omega (arith, length-line o))
  process-Progress (suc f) xs ys (o ∷ os) t v e h =
      elim (Bool-cases (ltb (length xs) (length (line o)))) [
        | inl k ↦ process-waiting (suc f) o xs ys os t v.0 e (ground (arith, k))
        | inr k ↦
            let rest = drop (length (line o)) xs in
            let t' = record t { readings = t.readings + 1 } in
            let (a, b) = split_front (line o) xs ys (stream os) e (ground (arith, k)) in
            let ih =
              process-Progress f rest ys os t' v.1 b
                (omega (arith, h, length-drop (length (line o)) xs, length-line o)) in
            rw (process-line f o xs rest t v.0 a refl)
              (next-Progress o ys os t (process has_metrics clock sent f rest t') ih)
      ]
