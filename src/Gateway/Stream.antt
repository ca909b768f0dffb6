-- ===== src/Gateway/Stream.antt =====
-- src/network/tcp_order_gateway.cpp: the loop over the frames of the buffer, and how the bytes arrive.
use mathlib.Core.List.{append_assoc}
use hft_orderbook_benchmark.Common.{
  ℕ, zero, suc, ◌+◌, ◌≤◌, ◌<◌, ◌≡◌, ◌⊎◌, inl, inr, refl, sym, ap, ◌∙◌, Bool, true, false, ◌&&◌, [],
  ◌∷◌, ◌++◌, none, some, if◌then◌else◌, ◌==◌, arith, Bool-cases, length, length-append, length-drop,
  drop,
}
use hft_orderbook_benchmark.Fix.{parse}
use hft_orderbook_benchmark.Fix.Text.{Bytes}
use hft_orderbook_benchmark.Gateway.{
  Frame, incomplete, request, message, next_frame, Tally, Taken, Processed, handle, joined, process,
}
use hft_orderbook_benchmark.Gateway.Frames.{
  consumed_of, next_frame-le, next_frame-incomplete, next_frame-append, has_type, drop-append,
}

next_frame-nil : next_frame [] ≡ incomplete
unfolding next_frame parse
next_frame-nil = refl

drop-nil : (n : ℕ) → drop {A = ℕ} n [] ≡ []
drop-nil zero = refl
drop-nil (suc n) = refl

drop-drop : (n k : ℕ) (xs : Bytes) → drop k (drop n xs) ≡ drop (n + k) xs
drop-drop zero k xs = let e : k ≡ 0 + k = omega arith in ap (λ (m : ℕ). drop m xs) e
drop-drop (suc n) k [] = drop-nil k ∙ sym (drop-nil (suc n + k))
drop-drop (suc n) k (x ∷ xs) =
    let e : suc (n + k) ≡ suc n + k = omega arith in
    drop-drop n k xs ∙ ap (λ (m : ℕ). drop m (x ∷ xs)) e

-- Every frame that the loop takes stands in a buffer that holds a field with tag 35.
unfoldable pub is_typed : ℕ → Bytes → Bool
is_typed zero xs = true
is_typed (suc f) xs =
    let c = consumed_of (next_frame xs) in
    let rest = is_typed f (drop c xs) in if c == 0 then true else has_type xs && rest

-- The events of `q` come between those of `r` and those of `m`.
joined_assoc :
    (r : Taken) (q m : Processed)
    → joined r (record m { events = q.events ++ m.events })
      ≡ record m { events = (joined r q).events ++ m.events }
joined_assoc r q m = λ i. record m { events = sym (append_assoc r.events q.events m.events) i }

module _ (has_metrics : Bool) (clock : ℕ → ℕ) (sent : ℕ → Bool) where
  -- A frame is taken whole or not at all.
  handle-le : (x : Frame) (t : Tally) → (handle has_metrics clock sent x t).consumed ≤ consumed_of x
  unfolding handle
  handle-le incomplete t = omega arith
  handle-le (request c e) t = ground arith
  handle-le (message c none) t = omega arith
  handle-le (message c (some o)) t = omega arith

  -- The loop is left at a whole frame only when a reply could not be sent.
  handle-stops :
      (x : Frame) (t : Tally)
      → (handle has_metrics clock sent x t).consumed ≡ 0
      → (consumed_of x ≡ 0)
        ⊎ ((c e : ℕ) × (x ≡ request c e)
            × ((n : ℕ) × (sent n ≡ false)
                × ((handle has_metrics clock sent x t).tally.replies ≡ n + 1)))
  unfolding handle
  handle-stops incomplete t h = inl refl
  handle-stops (request c e) t h = elim (Bool-cases has_metrics) [
    | inl m ↦ elim (Bool-cases (sent t.replies)) [
      | inl s ↦ inl (ground arith)
      | inr s ↦ inr (c, e, refl, (t.replies, s, rw (m, s) refl))
    ]
    | inr m ↦ inl (ground arith)
  ]
  handle-stops (message c none) t h = inl h
  handle-stops (message c (some o)) t h = inl h

  process_left :
      (f x : ℕ) (xs : Bytes) (t : Tally)
      → let r = handle has_metrics clock sent (next_frame (x ∷ xs)) t in
        (r.consumed == 0) ≡ true
        → process has_metrics clock sent (suc f) (x ∷ xs) t
          ≡ record { events = []; rest = x ∷ xs; tally = r.tally }
  unfolding process
  process_left f x xs t e = rw e refl

  pub process_taken :
      (f x : ℕ) (xs : Bytes) (t : Tally)
      → let r = handle has_metrics clock sent (next_frame (x ∷ xs)) t in
        (r.consumed == 0) ≡ false
        → process has_metrics clock sent (suc f) (x ∷ xs) t
          ≡ joined r (process has_metrics clock sent f (drop r.consumed (x ∷ xs)) r.tally)
  unfolding process
  process_taken f x xs t e = rw e refl

  pub process-nil :
      (f : ℕ) (t : Tally)
      → process has_metrics clock sent f [] t ≡ record { events = []; rest = []; tally = t }
  unfolding process
  process-nil zero t = refl
  process-nil (suc f) t = refl

  -- What is left when a frame is taken is shorter.
  drop_taken :
      (f x : ℕ) (xs : Bytes) (n : ℕ)
      → length (x ∷ xs) ≤ suc f
      → (n == 0) ≡ false
      → length (drop n (x ∷ xs)) ≤ f
  drop_taken f x xs n h e = let p : 0 < n = ground arith in omega (arith, length-drop n (x ∷ xs), p)

  -- Fuel for as many rounds as there are bytes is enough: more of it changes nothing.
  pub process-fuel :
      (f g : ℕ) (xs : Bytes) (t : Tally)
      → length xs ≤ f
      → length xs ≤ g
      → process has_metrics clock sent f xs t ≡ process has_metrics clock sent g xs t
  process-fuel f g [] t h k = process-nil f t ∙ sym (process-nil g t)
  process-fuel zero g (x ∷ xs) t h k = absurd (omega arith)
  process-fuel (suc f) zero (x ∷ xs) t h k = absurd (omega arith)
  process-fuel (suc f) (suc g) (x ∷ xs) t h k =
      let r = handle has_metrics clock sent (next_frame (x ∷ xs)) t in
      elim (Bool-cases (r.consumed == 0)) [
        | inl e ↦ process_left f x xs t e ∙ sym (process_left g x xs t e)
        | inr e ↦
            process_taken f x xs t e
            ∙ ap (joined r) (
                process-fuel f g (drop r.consumed (x ∷ xs)) r.tally
                  (drop_taken f x xs r.consumed h e) (drop_taken g x xs r.consumed k e))
            ∙ sym (process_taken g x xs t e)
      ]

  -- How the loop ends: no whole frame is left, or a request is, whose reply could not be sent.
  abbrev pub IsDone : Processed → Type 0
  IsDone out =
      (next_frame out.rest ≡ incomplete)
      ⊎ ((c e : ℕ) × (next_frame out.rest ≡ request c e)
          × ((n : ℕ) × (sent n ≡ false) × (out.tally.replies ≡ n + 1)))

  -- With a round for each byte the loop ends by itself, and what it leaves is an end of the buffer.
  pub process-IsDone :
      (f : ℕ) (xs : Bytes) (t : Tally)
      → length xs ≤ f
      → let out = process has_metrics clock sent f xs t in
        IsDone out × ((k : ℕ) × (k ≤ length xs) × (out.rest ≡ drop k xs))
  process-IsDone f [] t h = rw (process-nil f t) (inl next_frame-nil, (0, omega arith, refl))
  process-IsDone zero (x ∷ xs) t h = absurd (omega arith)
  process-IsDone (suc f) (x ∷ xs) t h =
      let fr = next_frame (x ∷ xs) in
      let r = handle has_metrics clock sent fr t in
      elim (Bool-cases (r.consumed == 0)) [
        | inl e ↦ rw (process_left f x xs t e) (
          elim (handle-stops fr t (ground (arith, e))) [
            | inl z ↦ inl (next_frame-incomplete (x ∷ xs) z)
            | inr s ↦ inr s
          ],
          (0, omega arith, refl),
        )
        | inr e ↦
            let more =
              process-IsDone f (drop r.consumed (x ∷ xs)) r.tally
                (drop_taken f x xs r.consumed h e) in
            let (d, (k, b, s)) = more in
            let n = length-drop r.consumed (x ∷ xs) in
            let c = handle-le fr t in
            rw (process_taken f x xs t e) (
              d,
              (
                r.consumed + k,
                omega (arith, b, n, c, next_frame-le (x ∷ xs)),
                s ∙ drop-drop r.consumed k (x ∷ xs),
              ),
            )
      ]

  -- Nothing happens when no whole frame stands at the front.
  pub process_waits :
      (f : ℕ) (xs : Bytes) (t : Tally)
      → consumed_of (next_frame xs) ≡ 0
      → process has_metrics clock sent f xs t ≡ record { events = []; rest = xs; tally = t }
  unfolding process handle
  process_waits zero xs t h = refl
  process_waits (suc f) [] t h = refl
  process_waits (suc f) (x ∷ xs) t h = rw (next_frame-incomplete (x ∷ xs) h) refl

  module _ (answers : (n : ℕ) → sent n ≡ true) where
    -- Then a frame is taken whenever it is there.
    handle-consumed :
        (x : Frame) (t : Tally) → (handle has_metrics clock sent x t).consumed ≡ consumed_of x
    unfolding handle
    handle-consumed incomplete t = refl
    handle-consumed (request c e) t = ground (arith, answers t.replies)
    handle-consumed (message c none) t = refl
    handle-consumed (message c (some o)) t = refl

    handle-incomplete : (t : Tally) → (handle has_metrics clock sent incomplete t).tally ≡ t
    unfolding handle
    handle-incomplete t = refl

    process_takes :
        (f x : ℕ) (xs : Bytes) (t : Tally)
        → (consumed_of (next_frame (x ∷ xs)) == 0) ≡ false
        → let r = handle has_metrics clock sent (next_frame (x ∷ xs)) t in
          process has_metrics clock sent (suc f) (x ∷ xs) t
          ≡ joined r (
              process has_metrics clock sent f
                (drop (consumed_of (next_frame (x ∷ xs))) (x ∷ xs))
                r.tally)
    process_takes f x xs t h =
        let c = handle-consumed (next_frame (x ∷ xs)) t in rw c at (process_taken f x xs t (rw c h))

    -- Where the bytes are cut makes no difference: processing `xs` and then what it leaves together with
    -- `ys` is processing both at once.
    pub process-append :
        (f g : ℕ) (xs ys : Bytes) (t : Tally)
        → is_typed f xs ≡ true
        → length xs ≤ f
        → length (xs ++ ys) ≤ g
        → let r = process has_metrics clock sent f xs t in
          let m = process has_metrics clock sent g (r.rest ++ ys) r.tally in
          process has_metrics clock sent g (xs ++ ys) t ≡ record m { events = r.events ++ m.events }
    unfolding is_typed
    process-append f g [] ys t v h k = rw (process-nil f t) refl
    process-append zero g (x ∷ xs) ys t v h k = absurd (omega arith)
    process-append (suc f) zero (x ∷ xs) ys t v h k = absurd (omega arith)
    process-append (suc f) (suc g) (x ∷ xs) ys t v h k =
        let c = consumed_of (next_frame (x ∷ xs)) in
        elim (Bool-cases (c == 0)) [
          | inl e ↦ rw (process_waits (suc f) (x ∷ xs) t (ground (arith, e))) refl
          | inr e ↦
              let same = next_frame-append (x ∷ xs) ys (ground (arith, v, e)) (ground (arith, e)) in
              let r = handle has_metrics clock sent (next_frame (x ∷ xs)) t in
              let rest = drop c (x ∷ xs) in
              let behind = drop-append c (x ∷ xs) ys (next_frame-le (x ∷ xs)) in
              let short = drop_taken g x (xs ++ ys) c k e in
              let fits : length (rest ++ ys) ≤ g = rw behind at short in
              let inner = drop_taken f x xs c h e in
              let q = process has_metrics clock sent f rest r.tally in
              let ih = process-append f g rest ys r.tally (ground (arith, v, e)) inner fits in
              let left = process_takes g x (xs ++ ys) t (rw same e) in
              let m = process has_metrics clock sent g (q.rest ++ ys) q.tally in
              let (d, (j, b, u)) = process-IsDone f rest r.tally inner in
              let tail : length (q.rest ++ ys) ≤ g = omega (
                arith,
                length-append q.rest ys,
                ap length u,
                length-drop j rest,
                length-append rest ys,
                fits,
              ) in
              let whole = rw (same, behind) at left in
              rw (process_takes f x xs t e) (
                whole
                ∙ ap (joined r) ih
                ∙ joined_assoc r q m
                ∙ ap (λ (z : Processed). joined (record r { events = (joined r q).events }) z)
                    (process-fuel g (suc g) (q.rest ++ ys) q.tally tail (omega arith)))
        ]
