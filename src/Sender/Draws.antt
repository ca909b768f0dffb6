-- ===== src/Sender/Draws.antt =====
-- clients/tcp_order_sender.cpp: the orders of the prepared messages, for distributions that draw from
-- their ranges.
use native.Mathlib.Nat.{mul-le-mul_right, div-add-mod', mod-lt, div-le_self}
use hft_orderbook_benchmark.Common.{
  ℕ, zero, suc, ◌+◌, ◌-◌, ◌*◌, ◌/◌, ◌%◌, ◌^◌, ◌≤◌, ◌<◌, ◌≡◌, refl, ap, ◌∙◌, false, true, Bool-cases,
  inl, inr, List, [], ◌∷◌, map, none, some, if◌then◌else◌, ltb, leb, ◌==◌, length, get_elem?, All,
  max_u64, arith,
}
use hft_orderbook_benchmark.Core.{Order, Side, buy, sell}
use hft_orderbook_benchmark.Sender.{ℤ, pos, negsuc, create_fix_message}
use hft_orderbook_benchmark.Sender.Message.{sent}
use hft_orderbook_benchmark.Sender.Parsing.{side_number}
use hft_orderbook_benchmark.Sender.Lines.{line, IsSendable}
use hft_orderbook_benchmark.Sender.Options.{Options, int_lt}
use hft_orderbook_benchmark.Sender.Preparing.{Draws, messages_from}
use hft_orderbook_benchmark.Sender.Prices.{nth_price}

-- What `std::uniform_int_distribution` documents: a draw from `low` to `high`.
pub record IsUniform (d : Draws) : Type 0 where
  pub price_index :
      (low high i : ℕ)
      → low ≤ high
      → (low ≤ d.price_index low high i) × (d.price_index low high i ≤ high)
  pub quantity :
      (low high : ℤ) (i : ℕ)
      → int_lt high low ≡ false
      → (int_lt (d.quantity low high i) low ≡ false) × (int_lt high (d.quantity low high i) ≡ false)
  pub side :
      (low high : ℤ) (i : ℕ)
      → int_lt high low ≡ false
      → (int_lt (d.side low high i) low ≡ false) × (int_lt high (d.side low high i) ≡ false)

-- A number that is not negative, and the side of a number.
abbrev pub size : ℤ → ℕ
size (pos n) = n
size (negsuc n) = 0

abbrev pub side_of : ℤ → Side
side_of (pos n) = if n == 1 then buy else sell
side_of (negsuc n) = sell

-- A draw between two numbers that are not negative.
between :
    (lo hi : ℕ) (x : ℤ)
    → int_lt x (pos lo) ≡ false
    → int_lt (pos hi) x ≡ false
    → (x ≡ pos (size x)) × (lo ≤ size x) × (size x ≤ hi)
between lo hi (pos n) h g = (refl, ground arith, ground arith)
between lo hi (negsuc n) h g = absurd (cc)

side_drawn :
    (x : ℤ)
    → int_lt x (pos 1) ≡ false
    → int_lt (pos 2) x ≡ false
    → x ≡ pos (side_number (side_of x))
side_drawn (pos n) h g = elim (Bool-cases (n == 1)) [
  | inl e ↦ let one : n ≡ 1 = ground arith in rw (e, one) refl
  | inr e ↦ let two : n ≡ 2 = ground (arith, h, g, e) in rw (e, two) refl
]
side_drawn (negsuc n) h g = absurd (cc)

-- The last element of a list is the one before the first index that has none.
length_of {ℓ} :
    {A : Type ℓ} (xs : List A) (k : ℕ) (x : A)
    → get_elem? xs k ≡ some x
    → get_elem? xs (suc k) ≡ none
    → length xs ≡ suc k
length_of [] k x e h = absurd (cc)
length_of (y ∷ []) zero x e h = refl
length_of (y ∷ z ∷ xs) zero x e h = absurd (cc)
length_of (y ∷ xs) (suc k) x e h = ap suc (length_of xs k x e h)

-- The number of whole ticks in the range.
ticks : (a b t : ℕ) → a ≤ b → 0 < t → (a + (b - a) / t * t ≤ b) × (b < a + suc ((b - a) / t) * t)
ticks a b t h ht =
    let e = div-add-mod' (b - a) t in
    let m = mod-lt (b - a) ht in
    let s : suc ((b - a) / t) * t ≡ (b - a) / t * t + t = grind arith in
    (omega (arith, e, h), omega (arith, e, m, s, h))

-- A list of the prices of the range ends with the one `(b - a) / t` ticks above the lowest.
pub length-nth_price :
    (a b t : ℕ) (ps : List ℤ)
    → a ≤ b
    → 0 < t
    → ((k : ℕ) → get_elem? ps k ≡ nth_price a b t k)
    → length ps ≡ suc ((b - a) / t)
length-nth_price a b t ps h ht g =
    let w = ticks a b t h ht in
    let e : leb (a + (b - a) / t * t) b ≡ true = ground (arith, w.0) in
    let f : leb (a + suc ((b - a) / t) * t) b ≡ false = ground (arith, w.1) in
    length_of ps ((b - a) / t) (pos (a + (b - a) / t * t)) (rw (g ((b - a) / t), e) refl)
      (rw (g (suc ((b - a) / t)), f) refl)

module _ (d : Draws) (u : IsUniform d) (a b t lo hi : ℕ) where
  -- The order with the number `i`: a price a drawn number of ticks above the lowest, a quantity from the
  -- range of the options, and a side.
  abbrev pub order_of : ℕ → Order
  order_of i =
      sent i (a + d.price_index 0 ((b - a) / t) i * t) (size (d.quantity (pos lo) (pos hi) i))
        (side_of (d.side (pos 1) (pos 2) i))

  -- The orders from the number `i` on.
  abbrev pub orders_from : (i n : ℕ) → List Order
  orders_from i zero = []
  orders_from i (suc n) = order_of i ∷ orders_from (i + 1) n

  module _ (range : a ≤ b) (tick : 0 < t) (quantities : lo ≤ hi) where
    price_inside : (i : ℕ) → a + d.price_index 0 ((b - a) / t) i * t ≤ b
    price_inside i =
        let c = (u.price_index 0 ((b - a) / t) i (omega arith)).1 in
        let m : d.price_index 0 ((b - a) / t) i * t ≤ (b - a) / t * t = mul-le-mul_right t c in
        omega (arith, m, (ticks a b t range tick).0)

    ordered : ltb hi lo ≡ false
    ordered = ground (arith, quantities)

    quantity_inside :
        (i : ℕ)
        → let q = d.quantity (pos lo) (pos hi) i in
          (q ≡ pos (size q)) × (lo ≤ size q) × (size q ≤ hi)
    quantity_inside i =
        let c = u.quantity (pos lo) (pos hi) i ordered in
        between lo hi (d.quantity (pos lo) (pos hi) i) c.0 c.1

    side_inside : (i : ℕ) → let s = d.side (pos 1) (pos 2) i in s ≡ pos (side_number (side_of s))
    side_inside i =
        let c = u.side (pos 1) (pos 2) i refl in side_drawn (d.side (pos 1) (pos 2) i) c.0 c.1

    message_of :
        (i : ℕ)
        → create_fix_message i
            (pos (a + d.price_index 0 ((b - a) / t) i * t))
            (d.quantity (pos lo) (pos hi) i)
            (d.side (pos 1) (pos 2) i)
          ≡ line (order_of i)
    message_of i =
        let p = pos (a + d.price_index 0 ((b - a) / t) i * t) in
        let q = pos (size (d.quantity (pos lo) (pos hi) i)) in
        ap (λ q'. create_fix_message i p q' (d.side (pos 1) (pos 2) i)) (quantity_inside i).0
        ∙ ap (λ s. create_fix_message i p q s) (side_inside i)

    pub orders_from-IsSendable :
        (i n : ℕ)
        → 0 < a
        → b < 2 ^ 31
        → 0 < lo
        → hi < 2 ^ 31
        → i + n ≤ max_u64
        → All IsSendable (orders_from i n)
    orders_from-IsSendable i zero ha hb hl hh hi' = tt
    orders_from-IsSendable i (suc n) ha hb hl hh hi' =
        let q = quantity_inside i in
        (
          record {
            id_fits = omega arith;
            price_fits = (omega arith, omega (arith, price_inside i));
            quantity_fits = (omega (arith, q.1), omega (arith, q.2));
            is_plain = refl;
          },
          orders_from-IsSendable (i + 1) n ha hb hl hh (omega arith),
        )

    pub messages_from-line :
        (o : Options) (ps : List ℤ) (i n : ℕ)
        → o.min_qty ≡ pos lo
        → o.max_qty ≡ pos hi
        → b < 2 ^ 31
        → ((k : ℕ) → get_elem? ps k ≡ nth_price a b t k)
        → messages_from d o ps i n ≡ some (map line (orders_from i n))
    unfolding messages_from
    messages_from-line o ps i zero ml mh hb g = refl
    messages_from-line o ps i (suc n) ml mh hb g =
        let e : leb (a + d.price_index 0 ((b - a) / t) i * t) b ≡ true =
          ground (arith, price_inside i) in
        let last : (length ps + 2 ^ 64 - 1) % 2 ^ 64 ≡ (b - a) / t =
          omega (arith, length-nth_price a b t ps range tick g, div-le_self (b - a) t) in
        rw
          (
            last,
            g (d.price_index 0 ((b - a) / t) i),
            e,
            messages_from-line o ps (i + 1) n ml mh hb g,
            ml,
            mh,
          )
          (ap (λ m. some (m ∷ map line (orders_from (i + 1) n))) (message_of i))
