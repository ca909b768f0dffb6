-- ===== src/Sender/Sent.antt =====
-- clients/tcp_order_sender.cpp: what has gone out when the client has sent, or has stopped.
use mathlib.Core.List.{append_assoc, append-nil}
use hft_orderbook_benchmark.Common.{
  ℕ, zero, suc, ◌+◌, ◌-◌, ◌≤◌, ◌<◌, ◌≡◌, ◌≢◌, ◌⊎◌, subst, refl, sym, ap, ◌∙◌, false, List, [], ◌∷◌,
  ◌++◌, ltb, ◌==◌, arith, Bool-cases, inl, inr, length, length-append, take, drop,
}
use hft_orderbook_benchmark.Fix.Text.{Bytes}
use hft_orderbook_benchmark.Gateway.Sending.{Send, interrupted, failed, wrote, IsLive}
use hft_orderbook_benchmark.Gateway.Cutting.{together}
use hft_orderbook_benchmark.Sender.Sending.{
  Status, complete, stopped, waiting, Transmission, behind, send_message, send_messages,
}

take-drop : (k n : ℕ) (xs : Bytes) → take k (drop n xs) ++ drop (n + k) xs ≡ drop n xs
take-drop zero n xs = let e : n + 0 ≡ n = omega arith in rw e refl
take-drop (suc k) zero [] = let e : 0 + suc k ≡ suc (0 + k) = omega arith in rw e refl
take-drop (suc k) zero (x ∷ xs) =
    let e : 0 + suc k ≡ suc (0 + k) = omega arith in rw e (ap (◌∷◌ x) (take-drop k zero xs))
take-drop (suc k) (suc n) [] = let e : suc n + suc k ≡ suc (n + suc k) = omega arith in rw e refl
take-drop (suc k) (suc n) (x ∷ xs) =
    let e : suc n + suc k ≡ suc (n + suc k) = omega arith in rw e (take-drop (suc k) n xs)

drop-all : (n : ℕ) (xs : Bytes) → length xs ≤ n → drop n xs ≡ []
drop-all zero [] h = refl
drop-all zero (x ∷ xs) h = absurd (omega arith)
drop-all (suc n) [] h = refl
drop-all (suc n) (x ∷ xs) h = drop-all n xs (omega arith)

-- The bytes are the front of those that should go out, and all of them if the status is `complete`.
pub record IsFront (bytes : Bytes) (t : Transmission) : Type 0 where
  pub missing : Bytes
  pub parts : t.bytes ++ missing ≡ bytes
  pub whole : t.status ≡ complete → missing ≡ []

-- The message is out already.
finished :
    (m : Bytes) (n : ℕ) (rs : List Send)
    → ltb n (length m) ≡ false
    → IsFront (drop n m) (record { status = complete; bytes = []; rest = rs })
finished m n rs h = record {
  missing = drop n m;
  parts = refl;
  whole = λ e. drop-all n m (ground (arith, h));
}

unfinished :
    (m : Bytes) (n : ℕ) (rs : List Send) (s : Status)
    → (s ≡ complete → ⊥)
    → IsFront (drop n m) (record { status = s; bytes = []; rest = rs })
unfinished m n rs s h = record { missing = drop n m; parts = refl; whole = λ e. absurd (h e) }

stopped_not : stopped ≡ complete → ⊥
stopped_not e = cc

waiting_not : waiting ≡ complete → ⊥
waiting_not e = cc

behind-IsFront :
    (xs ys : Bytes) (t : Transmission) → IsFront ys t → IsFront (xs ++ ys) (behind xs t)
behind-IsFront xs ys t f = record {
  missing = f.missing;
  parts = append_assoc xs t.bytes f.missing ∙ ap (λ bs. xs ++ bs) f.parts;
  whole = f.whole;
}

send_message-IsFront :
    (m : Bytes) (n : ℕ) (rs : List Send) → IsFront (drop n m) (send_message m n rs)
unfolding send_message
send_message-IsFront m n [] = elim (Bool-cases (ltb n (length m))) [
  | inl e ↦ rw e (unfinished m n [] waiting waiting_not)
  | inr e ↦ rw e (finished m n [] e)
]
send_message-IsFront m n (interrupted ∷ rs) = elim (Bool-cases (ltb n (length m))) [
  | inl e ↦ rw e (send_message-IsFront m n rs)
  | inr e ↦ rw e (finished m n (interrupted ∷ rs) e)
]
send_message-IsFront m n (failed ∷ rs) = elim (Bool-cases (ltb n (length m))) [
  | inl e ↦ rw e (unfinished m n rs stopped stopped_not)
  | inr e ↦ rw e (finished m n (failed ∷ rs) e)
]
send_message-IsFront m n (wrote k ∷ rs) = elim (Bool-cases (ltb n (length m))) [
  | inl e ↦ elim (Bool-cases (k == 0)) [
    | inl z ↦ rw (e, z) (unfinished m n rs stopped stopped_not)
    | inr z ↦
        let f =
          behind-IsFront (take k (drop n m)) (drop (n + k) m) (send_message m (n + k) rs)
            (send_message-IsFront m (n + k) rs) in
        rw (e, z) (rw (take-drop k n m) at f)
  ]
  | inr e ↦ rw e (finished m n (wrote k ∷ rs) e)
]

pub Status-cases : (s : Status) → (s ≡ complete) ⊎ (s ≢ complete)
Status-cases complete = inl refl
Status-cases stopped = inr stopped_not
Status-cases waiting = inr waiting_not

rest_of_cases : (s : Status) → s ≢ complete → (s ≡ stopped) ⊎ (s ≡ waiting)
rest_of_cases complete h = absurd (h refl)
rest_of_cases stopped h = inl refl
rest_of_cases waiting h = inr refl

next_message :
    (m : Bytes) (ms : List Bytes) (rs : List Send)
    → (send_message m 0 rs).status ≡ complete
    → send_messages (m ∷ ms) rs
      ≡ behind (send_message m 0 rs).bytes (send_messages ms (send_message m 0 rs).rest)
unfolding send_messages
next_message m ms rs e = rw (e, send_messages) refl

last_message :
    (m : Bytes) (ms : List Bytes) (rs : List Send)
    → (send_message m 0 rs).status ≢ complete
    → send_messages (m ∷ ms) rs ≡ send_message m 0 rs
unfolding send_messages
last_message m ms rs h = elim (rest_of_cases (send_message m 0 rs).status h) [
  | inl e ↦ rw (e, send_messages) refl
  | inr e ↦ rw (e, send_messages) refl
]

-- Whatever the calls of `send` return: the bytes that go out are a front of the messages' bytes, in order,
-- and all of them when the loop is done.
pub send_messages-IsFront :
    (ms : List Bytes) (rs : List Send) → IsFront (together ms) (send_messages ms rs)
unfolding send_messages
send_messages-IsFront [] rs = record { missing = []; parts = refl; whole = λ e. refl }
send_messages-IsFront (m ∷ ms) rs =
    let t = send_message m 0 rs in
    let f = send_message-IsFront m 0 rs in
    elim (Status-cases t.status) [
      | inl e ↦
          let all : t.bytes ≡ m =
            sym (append-nil t.bytes) ∙ ap (λ bs. t.bytes ++ bs) (sym (f.whole e)) ∙ f.parts in
          let g =
            behind-IsFront t.bytes (together ms) (send_messages ms t.rest)
              (send_messages-IsFront ms t.rest) in
          rw (next_message m ms rs e) (
            subst
              (λ (bs : Bytes).
                IsFront (bs ++ together ms) (behind t.bytes (send_messages ms t.rest)))
              all g)
      | inr e ↦ rw (last_message m ms rs e) (record {
        missing = f.missing ++ together ms;
        parts =
            sym (append_assoc t.bytes f.missing (together ms))
            ∙ ap (λ bs. bs ++ together ms) f.parts;
        whole = λ z. absurd (e z);
      })
    ]

-- The calls that write something.
unfoldable pub writes : List Send → ℕ
writes [] = 0
writes (interrupted ∷ rs) = writes rs
writes (failed ∷ rs) = writes rs
writes (wrote k ∷ rs) = 1 + writes rs

-- Enough calls, none of which fails or ends the stream, send a message, and leave at least as many writes as
-- are not needed for its bytes.
send_message-complete :
    (m : Bytes) (n : ℕ) (rs : List Send)
    → IsLive rs
    → length m ≤ n + writes rs
    → (let t = send_message m n rs in
        (t.status ≡ complete) × IsLive t.rest × (writes rs ≤ (length m - n) + writes t.rest))
unfolding send_message writes
send_message-complete m n [] v h = ground arith
send_message-complete m n (interrupted ∷ rs) v h = elim (Bool-cases (ltb n (length m))) [
  | inl e ↦ rw e (send_message-complete m n rs v h)
  | inr e ↦ rw e (refl, v, omega arith)
]
send_message-complete m n (failed ∷ rs) v h = elim v [ ]
send_message-complete m n (wrote k ∷ rs) v h = elim (Bool-cases (ltb n (length m))) [
  | inl e ↦
      let z : (k == 0) ≡ false = ground (arith, v.0) in
      let r = send_message-complete m (n + k) rs v.1 (omega (arith, h, v.0)) in
      let l : n < length m = ground (arith, e) in rw (e, z) (r.0, r.1, omega (arith, r.2, v.0, l))
  | inr e ↦ rw e (refl, v, omega arith)
]

send_messages_done :
    (ms : List Bytes) (rs : List Send)
    → IsLive rs
    → length (together ms) ≤ writes rs
    → (send_messages ms rs).status ≡ complete
unfolding send_messages
send_messages_done [] rs v h = refl
send_messages_done (m ∷ ms) rs v h =
    let l = length-append m (together ms) in
    let (a, b, c) = send_message-complete m 0 rs v (omega (arith, h, l)) in
    rw (next_message m ms rs a)
      (send_messages_done ms (send_message m 0 rs).rest b (omega (arith, h, l, c)))

-- When no call of `send` fails or ends the stream, and as many of them write something as there are bytes,
-- the loop of the client is done, and what has gone out is the bytes of its messages, each message whole
-- and one after the other.
pub send_messages-complete :
    (ms : List Bytes) (rs : List Send)
    → IsLive rs
    → length (together ms) ≤ writes rs
    → ((send_messages ms rs).status ≡ complete) × ((send_messages ms rs).bytes ≡ together ms)
send_messages-complete ms rs v h =
    let e = send_messages_done ms rs v h in
    let f = send_messages-IsFront ms rs in
    let t = send_messages ms rs in
    (e, sym (append-nil t.bytes) ∙ ap (λ bs. t.bytes ++ bs) (sym (f.whole e)) ∙ f.parts)
