-- ===== src/Sender/Delivery.antt =====
-- clients/tcp_order_sender.cpp and src/network/tcp_order_gateway.cpp: the client's messages in the gateway.
use mathlib.Core.List.{append_assoc, append-nil}
use hft_orderbook_benchmark.Common.{
  ℕ, ◌≤◌, ◌<◌, ◌≡◌, refl, sym, ap, ◌∙◌, Bool, List, [], ◌∷◌, ◌++◌, some, arith, length,
  length-append, All, All-append_right, subst,
}
use hft_orderbook_benchmark.Core.{Order}
use hft_orderbook_benchmark.Fix.Text.{Bytes}
use hft_orderbook_benchmark.Gateway.{
  Event, process, grow, Session, Recv, again, broken, received, receive, serve, client_handler,
  connected,
}
use hft_orderbook_benchmark.Sender.Lines.{line, IsSendable, length-line, length-line_lt}
use hft_orderbook_benchmark.Gateway.Cutting.{client_handler-received}
use hft_orderbook_benchmark.Sender.Rounds.{
  stream, IsPart, arrivals, Progress, process-Progress, arrivals-append,
}

-- A client that sends its lines: waits, and pieces that are not empty.
abbrev pub IsOpen : Recv → Type 0
IsOpen again = Unit
IsOpen broken = ⊥
IsOpen (received []) = ⊥
IsOpen (received (x ∷ xs)) = Unit

abbrev pub bytes_of : List Recv → Bytes
bytes_of [] = []
bytes_of (again ∷ rs) = bytes_of rs
bytes_of (broken ∷ rs) = bytes_of rs
bytes_of (received xs ∷ rs) = xs ++ bytes_of rs

IsPart-lt : (xs : Bytes) (os : List Order) → IsPart xs os → length xs < 256
IsPart-lt xs [] h = omega (arith, ap length h)
IsPart-lt xs (o ∷ os) h = omega (arith, h, length-line_lt o)

module _ (has_metrics : Bool) (clock : ℕ → ℕ) (sent : ℕ → Bool) where
  -- The buffer is never full.
  grow-IsPart :
      (s : Session) (os : List Order)
      → 4096 ≤ s.size
      → IsPart s.pending os
      → grow s.size (length s.pending) ≡ some s.size
  unfolding grow
  grow-IsPart s os h p = let l = IsPart-lt s.pending os p in ground (arith, l)

  client_handler-again :
      (rs : List Recv) (s : Session)
      → grow s.size (length s.pending) ≡ some s.size
      → client_handler has_metrics clock sent (again ∷ rs) s
        ≡ client_handler has_metrics clock sent rs s
  unfolding client_handler serve
  client_handler-again rs s h = rw (h, client_handler) refl

  -- What the handler has made of bytes in front of a stream: whole lines are queued, in order, each with
  -- its time of receipt, and part of a line is kept.
  pub record Delivered (ys : Bytes) (os : List Order) (s s' : Session) : Type 0 where
    pub done : List Order
    pub left : List Order
    pub parts : done ++ left ≡ os
    pub same_events : s'.events ≡ s.events ++ arrivals clock s.tally.readings done
    pub same_rest : s'.pending ++ ys ≡ stream left
    pub is_part : IsPart s'.pending left

  -- A piece, and then what comes behind it.
  next-Delivered :
      (xs ys zs : Bytes) (os : List Order) (s s' : Session)
      → (g : Progress has_metrics clock sent zs os s.tally
          (process has_metrics clock sent (length (s.pending ++ xs)) (s.pending ++ xs) s.tally))
      → Delivered ys g.left (receive has_metrics clock sent xs s) s'
      → Delivered ys os s s'
  unfolding receive
  next-Delivered xs ys zs os s s' g d =
      let out =
        process has_metrics clock sent (length (s.pending ++ xs)) (s.pending ++ xs) s.tally in
      record {
        done = g.done ++ d.done;
        left = d.left;
        parts =
            append_assoc g.done d.done d.left
            ∙ ap (λ (ps : List Order). g.done ++ ps) d.parts
            ∙ g.parts;
        same_events =
            d.same_events
            ∙ append_assoc s.events out.events (arrivals clock out.tally.readings d.done)
            ∙ ap (λ (es : List Event). s.events ++ es)
                (ap (λ (es : List Event). es ++ arrivals clock out.tally.readings d.done)
                    g.same_events
                  ∙ ap
                      (λ (k : ℕ). arrivals clock s.tally.readings g.done ++ arrivals clock k d.done)
                      g.read
                  ∙ sym (arrivals-append clock s.tally.readings g.done d.done));
        same_rest = d.same_rest;
        is_part = d.is_part;
      }

  -- However the bytes of a client's messages are cut, whatever waits come between, and also when they
  -- break off: the handler queues exactly the orders whose messages have arrived whole, in order, each with
  -- its time of receipt, and keeps what has arrived of the next message.
  pub client_handler-Delivered :
      (rs : List Recv) (s : Session) (ys : Bytes) (os : List Order)
      → All IsSendable os
      → All IsOpen rs
      → 4096 ≤ s.size
      → IsPart s.pending os
      → s.pending ++ (bytes_of rs ++ ys) ≡ stream os
      → Delivered ys os s (client_handler has_metrics clock sent rs s)
  unfolding client_handler receive
  client_handler-Delivered [] s ys os v w h p e = record {
    done = [];
    left = os;
    parts = refl;
    same_events = sym (append-nil s.events);
    same_rest = e;
    is_part = p;
  }
  client_handler-Delivered (again ∷ rs) s ys os v w h p e =
      rw (client_handler-again rs s (grow-IsPart s os h p))
        (client_handler-Delivered rs s ys os v w.1 h p e)
  client_handler-Delivered (broken ∷ rs) s ys os v w h p e = elim w.0 [ ]
  client_handler-Delivered (received [] ∷ rs) s ys os v w h p e = elim w.0 [ ]
  client_handler-Delivered (received (x ∷ xs) ∷ rs) s ys os v w h p e =
      let buffer = s.pending ++ x ∷ xs in
      let zs = bytes_of rs ++ ys in
      let cut : buffer ++ zs ≡ stream os =
        append_assoc s.pending (x ∷ xs) zs
        ∙ ap (λ bs. s.pending ++ x ∷ bs) (sym (append_assoc xs (bytes_of rs) ys))
        ∙ e in
      let g =
        process-Progress has_metrics clock sent (length buffer) buffer zs os s.tally v cut
          (omega arith) in
      let s1 = receive has_metrics clock sent (x ∷ xs) s in
      let v1 = All-append_right IsSendable g.done g.left (subst (All IsSendable) (sym g.parts) v) in
      rw (client_handler-received has_metrics clock sent x xs rs s s.size (grow-IsPart s os h p)) (
        next-Delivered (x ∷ xs) ys zs os s _ g
          (client_handler-Delivered rs s1 ys g.left v1 w.1 h g.is_part g.same_rest))

pub IsPart-nil :
    (xs : Bytes) (os : List Order) → IsPart xs os → xs ++ [] ≡ stream os → (xs ≡ []) × (os ≡ [])
IsPart-nil xs [] p e = (p, refl)
IsPart-nil xs (o ∷ os) p e =
    absurd (omega (arith, p, ap length e, length-append xs [], length-append (line o) (stream os)))

pub IsPart-start : (os : List Order) → IsPart [] os
IsPart-start [] = refl
IsPart-start (o ∷ os) = length-line o

-- When all messages of a client have arrived, however they were cut, the handler has queued exactly its
-- orders, in order, each with its time of receipt, and keeps no bytes.
pub client_handler-arrivals :
    (has_metrics : Bool) (clock : ℕ → ℕ) (sent : ℕ → Bool) (rs : List Recv) (os : List Order)
    → All IsSendable os
    → All IsOpen rs
    → bytes_of rs ≡ stream os
    → (let s = client_handler has_metrics clock sent rs connected in
        (s.events ≡ arrivals clock 0 os) × (s.pending ≡ []))
unfolding connected
client_handler-arrivals has_metrics clock sent rs os v w e =
    let d =
      client_handler-Delivered has_metrics clock sent rs connected [] os v w (omega arith)
        (IsPart-start os) (append-nil (bytes_of rs) ∙ e) in
    let (a, b) = IsPart-nil _ d.left d.is_part d.same_rest in
    (
      d.same_events
          ∙ ap (arrivals clock 0)
              (sym (append-nil d.done) ∙ ap (λ (ps : List Order). d.done ++ ps) (sym b) ∙ d.parts),
      a,
    )
