-- ===== src/Sender/Run.antt =====
-- clients/tcp_order_sender.cpp: a run of the client, from its options to the gateway's events.
use hft_orderbook_benchmark.Common.{
  ℕ, ◌+◌, ◌-◌, ◌^◌, ◌≤◌, ◌<◌, ◌≡◌, ◌≢◌, ◌⊎◌, refl, sym, ap, ◌∙◌, Bool, true, false, List, [], ◌∷◌,
  ◌++◌, map, some, ltb, arith, Bool-cases, inl, inr, All, subst,
}
use hft_orderbook_benchmark.Core.{Order}
use hft_orderbook_benchmark.Fix.Text.{Bytes}
use hft_orderbook_benchmark.Gateway.{Recv, client_handler, connected}
use hft_orderbook_benchmark.Gateway.Sending.{Send}
use hft_orderbook_benchmark.Gateway.Cutting.{together}
use hft_orderbook_benchmark.Sender.{ℤ, pos}
use hft_orderbook_benchmark.Sender.Lines.{line, IsSendable}
use hft_orderbook_benchmark.Sender.Rounds.{stream, arrivals}
use hft_orderbook_benchmark.Sender.Delivery.{
  IsOpen, bytes_of, IsPart-start, IsPart-nil, client_handler-Delivered,
}
use hft_orderbook_benchmark.Sender.Options.{
  Options, Arguments, parsed, usage, unknown, ready, returns, configure, configured, validate,
  parse_arguments, int_lt, defaults,
}
use hft_orderbook_benchmark.Sender.Preparing.{Draws, prepare, messages_from, valid_prices}
use hft_orderbook_benchmark.Sender.Prices.{valid_prices-nth_price}
use hft_orderbook_benchmark.Sender.Draws.{
  IsUniform, orders_from, orders_from-IsSendable, messages_from-line,
}
use hft_orderbook_benchmark.Sender.Sending.{complete, send_messages}
use hft_orderbook_benchmark.Sender.Sent.{send_messages-IsFront, Status-cases}

-- The options `main` goes on with have a price range and a tick.
pub record IsReady (o : Options) : Type 0 where
  pub range : int_lt o.min_price o.max_price ≡ true
  pub tick : int_lt (pos 0) o.tick_size ≡ true

validate-IsReady : (p o : Options) → validate p ≡ ready o → IsReady o
unfolding validate
validate-IsReady p o h = elim (Bool-cases (int_lt p.min_price p.max_price)) [
  | inl e ↦ elim (Bool-cases (int_lt (pos 0) p.tick_size)) [
    | inl f ↦
        let z : ready p ≡ ready o = rw (e, f, validate) at h in
        let same : p ≡ o = ground (arith, z) in subst IsReady same (record { range = e; tick = f })
    | inr f ↦ let z : returns 1 ≡ ready o = rw (e, f, validate) at h in absurd (cc)
  ]
  | inr e ↦ let z : returns 1 ≡ ready o = rw (e, validate) at h in absurd (cc)
]

configured-IsReady : (x : Arguments) (o : Options) → configured x ≡ ready o → IsReady o
configured-IsReady (parsed p) o h = validate-IsReady p o h
configured-IsReady usage o h = absurd (cc)
configured-IsReady (unknown arg) o h = absurd (cc)

pub configure-IsReady :
    (atoi : Bytes → ℤ) (args : List Bytes) (o : Options) → configure atoi args ≡ ready o → IsReady o
unfolding configure
configure-IsReady atoi args o h = configured-IsReady (parse_arguments atoi args defaults) o h

-- Prices and quantities that are positive, with room for a tick above the highest price.
pub record IsPositive (o : Options) (a b t lo hi n : ℕ) : Type 0 where
  pub min_price : o.min_price ≡ pos a
  pub max_price : o.max_price ≡ pos b
  pub tick_size : o.tick_size ≡ pos t
  pub min_qty : o.min_qty ≡ pos lo
  pub max_qty : o.max_qty ≡ pos hi
  pub order_count : o.order_count ≡ pos n
  pub price_pos : 0 < a
  pub price_fits : b + t < 2 ^ 31
  pub quantity_pos : 0 < lo
  pub quantities : lo ≤ hi
  pub quantity_fits : hi < 2 ^ 31
  pub count_fits : n < 2 ^ 31

prepare_prices :
    (draws : Draws) (o : Options) (a b t lo hi n : ℕ) (ps : List ℤ)
    → IsPositive o a b t lo hi n
    → valid_prices ((b - a) + 2) (pos a) (pos b) (pos t) ≡ some ps
    → prepare draws o ≡ messages_from draws o ps 0 n
unfolding prepare
prepare_prices draws o a b t lo hi n ps v h =
    let r : int_lt o.max_qty o.min_qty ≡ false =
      rw (v.max_qty, v.min_qty) (ground (arith, v.quantities)) in
    rw (v.order_count, v.min_price, v.max_price, v.tick_size, prepare, h, r) refl

-- For options that `main` accepts, with a positive lowest price, a highest price and a tick whose sum is an
-- `int`, a quantity range of positive `int`s that is not empty and a count that is an `int` and not
-- negative, and distributions that draw from their ranges: the client prepares one message for each
-- number from 0 on, of that id, of a price a drawn whole number of ticks above the lowest, and of the
-- quantity and the side that were drawn, and each of these orders can be sent.
pub prepare-line :
    (atoi : Bytes → ℤ) (args : List Bytes) (o : Options) (a b t lo hi n : ℕ) (d : Draws)
    (u : IsUniform d)
    → configure atoi args ≡ ready o
    → IsPositive o a b t lo hi n
    → (prepare d o ≡ some (map line (orders_from d u a b t lo hi 0 n)))
      × All IsSendable (orders_from d u a b t lo hi 0 n)
prepare-line atoi args o a b t lo hi n d u r v =
    let ok = configure-IsReady atoi args o r in
    let ht : ltb 0 t ≡ true = rw v.tick_size at ok.tick in
    let hr : ltb a b ≡ true = rw (v.min_price, v.max_price) at ok.range in
    let tick : 0 < t = ground (arith, ht) in
    let range : a ≤ b = ground (arith, hr) in
    let fits : b < 2 ^ 31 = omega (arith, v.price_fits) in
    let (ps, h, g) = valid_prices-nth_price ((b - a) + 2) a b t tick v.price_fits (omega arith) in
    (
      prepare_prices d o a b t lo hi n ps v h
          ∙ messages_from-line d u a b t lo hi range tick v.quantities o ps 0 n v.min_qty v.max_qty
              fits g,
      orders_from-IsSendable d u a b t lo hi range tick v.quantities 0 n v.price_pos fits
          v.quantity_pos v.quantity_fits (omega (arith, v.count_fits)),
    )

together-line : (os : List Order) → together (map line os) ≡ stream os
together-line [] = refl
together-line (o ∷ os) = ap (λ bs. line o ++ bs) (together-line os)

-- For limit orders without times, with 64-bit ids and positive `int` prices and quantities, whatever the
-- calls of `send` return, and however the bytes are cut and delayed on the way: when all that went out has
-- arrived and the connection is open, the gateway has queued the first of the client's orders, in order,
-- each with its time of receipt, and all of them if the client was done.
pub client_handler-send_messages :
    (has_metrics : Bool) (clock : ℕ → ℕ) (replies : ℕ → Bool) (os : List Order)
    (results : List Send) (rs : List Recv)
    → All IsSendable os
    → All IsOpen rs
    → bytes_of rs ≡ (send_messages (map line os) results).bytes
    → (done left : List Order) × (done ++ left ≡ os)
      × ((client_handler has_metrics clock replies rs connected).events ≡ arrivals clock 0 done)
      × ((left ≡ []) ⊎ ((send_messages (map line os) results).status ≢ complete))
unfolding connected
client_handler-send_messages has_metrics clock replies os results rs v w e =
    let x = send_messages (map line os) results in
    let f = send_messages-IsFront (map line os) results in
    let all : bytes_of rs ++ f.missing ≡ stream os =
      ap (λ bs. bs ++ f.missing) e ∙ f.parts ∙ together-line os in
    let g =
      client_handler-Delivered has_metrics clock replies rs connected f.missing os v w (omega arith)
        (IsPart-start os) all in
    let kept = (client_handler has_metrics clock replies rs connected).pending in
    (
      g.done,
      g.left,
      g.parts,
      g.same_events,
      elim (Status-cases x.status) [
        | inl c ↦
            inl
              (IsPart-nil kept g.left g.is_part
                (ap (λ bs. kept ++ bs) (sym (f.whole c)) ∙ g.same_rest)).1
        | inr c ↦ inr c
      ],
    )
