-- ===== src/Gateway/Sessions.antt =====
-- src/network/tcp_order_gateway.cpp: the buffer of a client, and how its bytes may be cut.
use hft_orderbook_benchmark.Common.{
  ℕ, ◌+◌, ◌*◌, ◌≤◌, ◌<◌, ◌≡◌, ◌⊎◌, ◌&&◌, refl, ap, Bool, true, List, [], ◌∷◌, ◌++◌, none, some, leb,
  ◌==◌, arith, Bool-cases, inl, inr, length, length-append, length-drop, min_of,
}
use hft_orderbook_benchmark.Fix.Text.{Bytes}
use hft_orderbook_benchmark.Gateway.{
  max_buffer_bytes, grow, Session, Recv, again, broken, received, receive, serve, client_handler,
}
use hft_orderbook_benchmark.Gateway.Stream.{process-IsDone}

-- The buffer has a size between 4 KB and 1 MB, and the bytes that are kept fit.
pub record IsBuffer (s : Session) : Type 0 where
  pub at_least : 4096 ≤ s.size
  pub at_most : s.size ≤ max_buffer_bytes
  pub fits : length s.pending ≤ s.size

-- Before every `recv` there is room for a byte, the buffer has not shrunk, and it is no larger than 1 MB; a
-- client is dropped only when 1 MB holds no whole frame.
pub grow-room :
    (s : Session)
    → IsBuffer s
    → ((n : ℕ) × (grow s.size (length s.pending) ≡ some n)
        × (length s.pending < n)
        × (s.size ≤ n)
        × (n ≤ max_buffer_bytes))
      ⊎ ((grow s.size (length s.pending) ≡ none) × (length s.pending ≡ max_buffer_bytes))
unfolding grow
grow-room s v = elim (Bool-cases (length s.pending == s.size)) [
  | inl e ↦ elim (Bool-cases (leb max_buffer_bytes s.size)) [
    | inl h ↦ inr (rw (e, h) refl, ground (arith, e, h, v.at_most))
    | inr h ↦ inl (
      min_of (s.size * 2) max_buffer_bytes,
      rw (e, h) refl,
      ground (arith, v.at_least),
      ground (arith, v.at_least),
      ground arith,
    )
  ]
  | inr e ↦ inl (s.size, rw e refl, ground (arith, v.fits), omega arith, v.at_most)
]

-- How many bytes a result has.
abbrev pub count : Recv → ℕ
count again = 0
count broken = 0
count (received xs) = length xs

module _ (has_metrics : Bool) (clock : ℕ → ℕ) (sent : ℕ → Bool) where
  -- `recv` writes at most as many bytes as there is room for.
  unfoldable pub is_fitting : List Recv → Session → Bool
  is_fitting [] s = true
  is_fitting (r ∷ rs) s = elim (grow s.size (length s.pending)) [
    | none ↦ true
    | some size ↦
        leb (length s.pending + count r) size
        && is_fitting rs (serve has_metrics clock sent r (record s { size = size })).0
  ]

  receive-IsBuffer :
      (xs : Bytes) (s : Session)
      → IsBuffer s
      → length s.pending + length xs ≤ s.size
      → IsBuffer (receive has_metrics clock sent xs s)
  unfolding receive
  receive-IsBuffer xs s v h =
      let buffer = s.pending ++ xs in
      let (d, (k, b, e)) =
        process-IsDone has_metrics clock sent (length buffer) buffer s.tally (omega arith) in
      record {
        at_least = v.at_least;
        at_most = v.at_most;
        fits = omega (arith, ap length e, length-drop k buffer, length-append s.pending xs);
      }

  serve-IsBuffer :
      (r : Recv) (s : Session)
      → IsBuffer s
      → length s.pending + count r ≤ s.size
      → IsBuffer (serve has_metrics clock sent r s).0
  unfolding serve
  serve-IsBuffer again s v h = v
  serve-IsBuffer broken s v h = v
  serve-IsBuffer (received []) s v h = v
  serve-IsBuffer (received (x ∷ xs)) s v h = receive-IsBuffer (x ∷ xs) s v h

  -- Whatever a client sends, in pieces that fit, its buffer stays between 4 KB and 1 MB and holds what is
  -- kept of the bytes.
  pub client_handler-IsBuffer :
      (rs : List Recv) (s : Session)
      → IsBuffer s
      → is_fitting rs s ≡ true
      → IsBuffer (client_handler has_metrics clock sent rs s)
  unfolding client_handler is_fitting
  client_handler-IsBuffer [] s v h = v
  client_handler-IsBuffer (r ∷ rs) s v h = elim (grow-room s v) [
    | inl (n, e, a, b, c) ↦
        let w : IsBuffer (record s { size = n }) = record {
          at_least = omega (arith, v.at_least, b);
          at_most = c;
          fits = omega arith;
        } in
        let s' = serve has_metrics clock sent r (record s { size = n }) in
        let f : (leb (length s.pending + count r) n && is_fitting rs s'.0) ≡ true =
          rw (e, is_fitting) at h in
        let next = serve-IsBuffer r (record s { size = n }) w (ground (arith, f)) in
        rw (e, client_handler)
          (elim (Bool-cases s'.1) [
            | inl m ↦ rw m (client_handler-IsBuffer rs s'.0 next (ground (arith, f)))
            | inr m ↦ rw m next
          ])
    | inr (e, a) ↦ rw (e, client_handler) v
  ]
