-- ===== src/Gateway/Cutting.antt =====
-- src/network/tcp_order_gateway.cpp: TCP may cut a client's bytes anywhere; what the handler does is the same.
use mathlib.Core.List.{append_assoc, append-nil}
use hft_orderbook_benchmark.Common.{
  ℕ, ◌≤◌, ◌≡◌, ◌&&◌, refl, sym, ap, ◌∙◌, Bool, true, false, not, List, [], ◌∷◌, ◌++◌, map, none,
  some, arith, Option-cases, inl, inr, length, length-append, length-drop, is_empty,
}
use hft_orderbook_benchmark.Fix.Text.{Bytes}
use hft_orderbook_benchmark.Gateway.{
  next_frame, process, grow, Session, Recv, received, receive, serve, client_handler,
}
use hft_orderbook_benchmark.Gateway.Frames.{consumed_of}
use hft_orderbook_benchmark.Gateway.Stream.{is_typed, process-IsDone, process-append, process_waits}

abbrev pub together : List Bytes → Bytes
together [] = []
together (xs ∷ xss) = xs ++ together xss

module _ (has_metrics : Bool) (clock : ℕ → ℕ) (sent : ℕ → Bool) where
  -- No piece is empty, none finds a full buffer of 1 MB, and every frame that is taken stands in a buffer
  -- that holds a field with tag 35.
  unfoldable pub is_smooth : List Bytes → Session → Bool
  is_smooth [] s = true
  is_smooth (xs ∷ xss) s = elim (grow s.size (length s.pending)) [
    | none ↦ false
    | some size ↦
        not (is_empty xs)
        && is_typed (length (s.pending ++ xs)) (s.pending ++ xs)
        && is_smooth xss (receive has_metrics clock sent xs (record s { size = size }))
  ]

  -- One piece that goes on.
  pub client_handler-received :
      (x : ℕ) (xs : Bytes) (rs : List Recv) (s : Session) (n : ℕ)
      → grow s.size (length s.pending) ≡ some n
      → client_handler has_metrics clock sent (received (x ∷ xs) ∷ rs) s
        ≡ client_handler has_metrics clock sent rs
            (receive has_metrics clock sent (x ∷ xs) (record s { size = n }))
  unfolding client_handler serve
  client_handler-received x xs rs s n h = rw (h, client_handler) refl

  module _ (answers : (n : ℕ) → sent n ≡ true) where
    -- After a piece no whole frame is left.
    receive-waits :
        (xs : Bytes) (s : Session)
        → consumed_of (next_frame (receive has_metrics clock sent xs s).pending) ≡ 0
    unfolding receive
    receive-waits xs s =
        let buffer = s.pending ++ xs in
        let d =
          process-IsDone has_metrics clock sent (length buffer) buffer s.tally (omega arith) in
        elim d.0 [
          | inl e ↦ ap consumed_of e
          | inr (c, e, p, (n, q, r)) ↦ absurd (ground (arith, answers n, q))
        ]

    -- Processing the bytes of a piece, and then what they leave together with the rest, is processing all.
    receive-append :
        (g : ℕ) (xs ys : Bytes) (s : Session)
        → is_typed (length (s.pending ++ xs)) (s.pending ++ xs) ≡ true
        → length (s.pending ++ (xs ++ ys)) ≤ g
        → let s1 = receive has_metrics clock sent xs s in
          let out = process has_metrics clock sent g (s.pending ++ (xs ++ ys)) s.tally in
          let out1 = process has_metrics clock sent g (s1.pending ++ ys) s1.tally in
          (s.events ++ out.events ≡ s1.events ++ out1.events)
          × (out.rest ≡ out1.rest)
          × (length (s1.pending ++ ys) ≤ g)
    unfolding receive
    receive-append g xs ys s v h =
        let buffer = s.pending ++ xs in
        let assoc = append_assoc s.pending xs ys in
        let fits : length (buffer ++ ys) ≤ g = rw assoc h in
        let q = process has_metrics clock sent (length buffer) buffer s.tally in
        let p =
          process-append has_metrics clock sent answers (length buffer) g buffer ys s.tally v
            (omega arith) fits in
        let (d, (k, b, e)) =
          process-IsDone has_metrics clock sent (length buffer) buffer s.tally (omega arith) in
        let p' = rw assoc at p in
        (
          rw p' (sym (append_assoc s.events q.events _)),
          rw p' refl,
          omega (
            arith,
            fits,
            length-append buffer ys,
            length-append q.rest ys,
            ap length e,
            length-drop k buffer,
          ),
        )

    -- When every reply can be sent, from a buffer that holds no whole frame: for pieces that are not empty,
    -- do not fill the buffer without a whole frame, and give every frame a field with tag 35, the orders
    -- queued, the replies and the bytes left are those of the same bytes in one piece.
    pub client_handler-together :
        (g : ℕ) (xss : List Bytes) (s : Session)
        → is_smooth xss s ≡ true
        → consumed_of (next_frame s.pending) ≡ 0
        → length (s.pending ++ together xss) ≤ g
        → let s' = client_handler has_metrics clock sent (map received xss) s in
          let out = process has_metrics clock sent g (s.pending ++ together xss) s.tally in
          (s'.events ≡ s.events ++ out.events) × (s'.pending ≡ out.rest)
    unfolding is_smooth client_handler
    client_handler-together g [] s v w h =
        let e = append-nil s.pending in
        rw (e, process_waits has_metrics clock sent g s.pending s.tally w)
          (sym (append-nil s.events), refl)
    client_handler-together g ([] ∷ xss) s v w h = absurd (ground (arith, v))
    client_handler-together g ((x ∷ xs) ∷ xss) s v w h =
        elim (Option-cases (grow s.size (length s.pending))) [
          | inl e ↦ absurd (ground (arith, v, e))
          | inr (n, e) ↦
              let s0 : Session = record s { size = n } in
              let f = rw (e, is_smooth) at v in
              let s1 = receive has_metrics clock sent (x ∷ xs) s0 in
              let (a, b, c) = receive-append g (x ∷ xs) (together xss) s0 (ground (arith, f)) h in
              let ih =
                client_handler-together g xss s1 (ground (arith, f)) (receive-waits (x ∷ xs) s0)
                  c in
              rw (client_handler-received x xs (map received xss) s n e)
                (ih.0 ∙ sym a, ih.1 ∙ sym b)
        ]
