-- ===== src/Gateway/Sending.antt =====
-- src/network/tcp_order_gateway.cpp: `sendAll`, on the results that the calls of `send` have in turn.
use hft_orderbook_benchmark.Common.{
  ℕ, ◌+◌, ◌≤◌, ◌<◌, ◌≡◌, inl, inr, Bool, true, false, List, [], ◌∷◌, Option, none, some,
  if◌then◌else◌, ltb, ◌==◌, arith, Bool-cases,
}

-- A result of `send`: interrupted, failed, or how many bytes went out.
pub data Send : Type 0 where
  interrupted failed : Send
  wrote : ℕ → Send

-- `none` when the results run out before the call returns.
unfoldable pub send_all : (length sent : ℕ) → List Send → Option Bool
send_all length sent [] = if ltb sent length then none else some true
send_all length sent (interrupted ∷ rs) =
    if ltb sent length then send_all length sent rs else some true
send_all length sent (failed ∷ rs) = if ltb sent length then some false else some true
send_all length sent (wrote n ∷ rs) =
    if ltb sent length
    then (if n == 0 then some false else send_all length (sent + n) rs)
    else some true

-- What the calls write, if none fails.
unfoldable pub written : List Send → ℕ
written [] = 0
written (interrupted ∷ rs) = written rs
written (failed ∷ rs) = written rs
written (wrote n ∷ rs) = n + written rs

-- No call fails or ends the stream.
abbrev pub IsLive : List Send → Type 0
IsLive [] = Unit
IsLive (interrupted ∷ rs) = IsLive rs
IsLive (failed ∷ rs) = ⊥
IsLive (wrote n ∷ rs) = (0 < n) × IsLive rs

-- `sendAll` returns true only when the calls have written the whole length.
pub send_all-written :
    (length sent : ℕ) (rs : List Send)
    → send_all length sent rs ≡ some true
    → length ≤ sent + written rs
unfolding send_all written
send_all-written length sent [] h = ground arith
send_all-written length sent (interrupted ∷ rs) h = elim (Bool-cases (ltb sent length)) [
  | inl e ↦ send_all-written length sent rs (rw e at h)
  | inr e ↦ ground arith
]
send_all-written length sent (failed ∷ rs) h = ground arith
send_all-written length sent (wrote n ∷ rs) h = elim (Bool-cases (ltb sent length)) [
  | inl e ↦ elim (Bool-cases (n == 0)) [
    | inl z ↦ ground (arith, h, e, z)
    | inr z ↦ omega (arith, send_all-written length (sent + n) rs (ground (arith, h, e, z)))
  ]
  | inr e ↦ ground arith
]

-- It returns true when no call fails and the calls write that much, however they split it.
pub send_all-IsLive :
    (length sent : ℕ) (rs : List Send)
    → IsLive rs
    → length ≤ sent + written rs
    → send_all length sent rs ≡ some true
unfolding send_all written
send_all-IsLive length sent [] v h = ground arith
send_all-IsLive length sent (interrupted ∷ rs) v h =
    ground (arith, send_all-IsLive length sent rs v h)
send_all-IsLive length sent (failed ∷ rs) v h = elim v [ ]
send_all-IsLive length sent (wrote n ∷ rs) v h =
    ground (arith, v.0, send_all-IsLive length (sent + n) rs v.1 (omega arith))
