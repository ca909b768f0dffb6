-- ===== src/Sender/Sending.antt =====
-- clients/tcp_order_sender.cpp: how the client sends its messages, on the results that the calls of `send`
-- have in turn.
use hft_orderbook_benchmark.Common.{
  ℕ, ◌+◌, List, [], ◌∷◌, ◌++◌, if◌then◌else◌, ltb, ◌==◌, length, take, drop,
}
use hft_orderbook_benchmark.Fix.Text.{Bytes}
use hft_orderbook_benchmark.Gateway.Sending.{Send, interrupted, failed, wrote}

-- All is sent, `main` returns 1, or the results ran out before that.
pub data Status : Type 0 where
  complete stopped waiting : Status

-- How it ended, the bytes that went out, and the results that are left.
pub record Transmission : Type 0 where
  pub status : Status
  pub bytes : Bytes
  pub rest : List Send

abbrev pub behind : Bytes → Transmission → Transmission
behind xs t = record t { bytes = xs ++ t.bytes }

-- `while (bytesSent < fixMessage.size())`.
unfoldable pub send_message : Bytes → ℕ → List Send → Transmission
send_message m n [] =
    if ltb n (length m)
    then record { status = waiting; bytes = []; rest = [] }
    else record { status = complete; bytes = []; rest = [] }
send_message m n (interrupted ∷ rs) =
    let again = send_message m n rs in
    if ltb n (length m)
    then again
    else record { status = complete; bytes = []; rest = interrupted ∷ rs }
send_message m n (failed ∷ rs) =
    if ltb n (length m)
    then record { status = stopped; bytes = []; rest = rs }
    else record { status = complete; bytes = []; rest = failed ∷ rs }
send_message m n (wrote k ∷ rs) =
    let more = behind (take k (drop n m)) (send_message m (n + k) rs) in
    if ltb n (length m)
    then (if k == 0 then record { status = stopped; bytes = []; rest = rs } else more)
    else record { status = complete; bytes = []; rest = wrote k ∷ rs }

-- `for (const auto &fixMessage : orders)`.
unfoldable pub send_messages : List Bytes → List Send → Transmission
unfolding send_message
send_messages [] rs = record { status = complete; bytes = []; rest = rs }
send_messages (m ∷ ms) rs =
    let t = send_message m 0 rs in
    elim t.status [
      | complete ↦ behind t.bytes (send_messages ms t.rest)
      | stopped ↦ t
      | waiting ↦ t
    ]
