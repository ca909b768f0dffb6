-- ===== src/LockFreeQueue/Window.antt =====
-- The items between the two cursors, counted without wrap-around, in a buffer of 2^k slots.
use native.Mathlib.Nat.{div-add-mod, mod-mod_of_dvd, pow-suc, dvd-mul_right, mul-le-mul_left}
use Prim.Native.Nat.{◌∣◌}
use native.Mathlib.Decide.{dec_lt}
use hft_orderbook_benchmark.Common.{
  ℕ, zero, suc, ◌+◌, ◌-◌, ◌*◌, ◌/◌, ◌%◌, ◌^◌, ◌≤◌, ◌<◌, ◌≡◌, ◌≢◌, refl, sym, ap, ◌∙◌, subst, List,
  [], ◌∷◌, ◌++◌, some, arith, get_elem?, set, length,
}
use hft_orderbook_benchmark.Common.Bits.{bit_and_mask, one-le-two_pow, two_pow-add}
use hft_orderbook_benchmark.LockFreeQueue.{word, slot}

-- Two cursors less than a round apart fall into different slots.
pub mod-ne : (cap n j : ℕ) → n < j → j < n + cap → n % cap ≢ j % cap
mod-ne cap n j h k e = elim (dec_lt (n / cap) (j / cap)) [
  | yes p ↦
      let far : cap * suc (n / cap) ≤ cap * (j / cap) = grind arith in
      absurd (omega (arith, div-add-mod n cap, div-add-mod j cap, far))
  | no p ↦
      let near : cap * (j / cap) ≤ cap * (n / cap) = grind arith in
      absurd (omega (arith, div-add-mod n cap, div-add-mod j cap, near))
]

module _ {A : Type 0} where
  pub get_elem?-set_self :
      (xs : List A) (i : ℕ) (v : A) → i < length xs → get_elem? (set xs i v) i ≡ some v
  get_elem?-set_self [] i v h = absurd (omega arith)
  get_elem?-set_self (x ∷ xs) zero v h = refl
  get_elem?-set_self (x ∷ xs) (suc i) v h = get_elem?-set_self xs i v (omega arith)

  pub get_elem?-set_ne :
      (xs : List A) (i j : ℕ) (v : A) → i ≢ j → get_elem? (set xs i v) j ≡ get_elem? xs j
  get_elem?-set_ne [] i j v h = refl
  get_elem?-set_ne (x ∷ xs) zero zero v h = absurd (h refl)
  get_elem?-set_ne (x ∷ xs) zero (suc j) v h = refl
  get_elem?-set_ne (x ∷ xs) (suc i) zero v h = refl
  get_elem?-set_ne (x ∷ xs) (suc i) (suc j) v h = get_elem?-set_ne xs i j v (λ e. h (ap suc e))

  pub length-set : (xs : List A) (i : ℕ) (v : A) → length (set xs i v) ≡ length xs
  length-set [] i v = refl
  length-set (x ∷ xs) zero v = refl
  length-set (x ∷ xs) (suc i) v = ap suc (length-set xs i v)

  -- The items stand in the slots from the cursor `n` on.
  abbrev pub Slots : ℕ → List A → ℕ → List A → Type 0
  Slots cap buffer n [] = Unit
  Slots cap buffer n (x ∷ xs) = (get_elem? buffer (n % cap) ≡ some x) × Slots cap buffer (n + 1) xs

  -- A write at a cursor behind them, less than a round away, leaves them alone.
  pub set-Slots :
      (cap : ℕ) (buffer : List A) (n j : ℕ) (v : A) (xs : List A)
      → n + length xs ≤ j
      → j < n + cap
      → Slots cap buffer n xs
      → Slots cap (set buffer (j % cap) v) n xs
  set-Slots cap buffer n j v [] h k s = tt
  set-Slots cap buffer n j v (x ∷ xs) h k s = (
    get_elem?-set_ne buffer (j % cap) (n % cap) v (λ e. mod-ne cap n j (omega arith) k (sym e))
        ∙ s.0,
    set-Slots cap buffer (n + 1) j v xs (omega arith) (omega arith) s.1,
  )

  pub append-Slots :
      (cap : ℕ) (buffer : List A) (n j : ℕ) (v : A) (xs : List A)
      → n + length xs ≡ j
      → get_elem? buffer (j % cap) ≡ some v
      → Slots cap buffer n xs
      → Slots cap buffer n (xs ++ v ∷ [])
  append-Slots cap buffer n j v [] h g s = let e : n ≡ j = omega arith in (rw e g, tt)
  append-Slots cap buffer n j v (x ∷ xs) h g s =
      (s.0, append-Slots cap buffer (n + 1) j v xs (omega arith) g s.1)

-- `QueueCapacity` is a power of two that `size_t` holds.
abbrev pub IsCapacity : ℕ → Type 0
IsCapacity capacity = (k : ℕ) × (k < 64) × (capacity ≡ 2 ^ k)

capacity_divides : (k d : ℕ) → k + d ≡ 64 → 2 ^ k * 2 ^ d ≡ word
capacity_divides k d h = sym (two_pow-add k d) ∙ ap (λ (e : ℕ). 2 ^ e) h

pub capacity_bounds :
    (capacity : ℕ) → IsCapacity capacity → (0 < capacity) × (capacity + capacity ≤ word)
capacity_bounds c (k, h, e) =
    let d = 63 - k in
    let whole = capacity_divides k (suc d) (omega arith) in
    let twice : 2 ^ suc d ≡ 2 * 2 ^ d = omega (arith, pow-suc 2 d) in
    let one : 2 ^ k * 1 ≤ 2 ^ k * 2 ^ d = mul-le-mul_left (2 ^ k) (one-le-two_pow d) in
    let w : 2 ^ k * (2 * 2 ^ d) ≡ word = rw twice at whole in
    (omega (arith, one-le-two_pow k), omega (arith, one, w))

-- A wrapped cursor falls into the slot of the cursor that it stands for.
pub slot-wrapped : (capacity n : ℕ) → IsCapacity capacity → slot capacity (n % word) ≡ n % capacity
slot-wrapped c n (k, h, e) = rw e (
    bit_and_mask k (n % word)
    ∙ mod-mod_of_dvd (2 ^ k) n (
        subst (λ w. 2 ^ k ∣ w) (capacity_divides k (64 - k) (omega arith))
          (dvd-mul_right (2 ^ k) (2 ^ (64 - k)))))
