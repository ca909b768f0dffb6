-- ===== src/Containers/Ladder.antt =====
-- `std::map<Price, T, std::greater<Price>>` for bids and `std::map<Price, T, std::less<Price>>` for
-- asks: the entries in the order of their keys.
use hft_orderbook_benchmark.Common.{
  ℕ, Bool, true, false, List, [], ◌∷◌, Option, none, some, if◌then◌else◌, ltb, ◌==◌,
}

-- The comparator: `std::greater` on the buy side, `std::less` on the sell side.
abbrev pub before : Bool → ℕ → ℕ → Bool
before true p q = ltb q p
before false p q = ltb p q

abbrev pub Ladder : Type 0 → Type 0
Ladder A = List (ℕ × A)

module _ {A : Type 0} where
  -- `find(p)`.
  unfoldable pub find : ℕ → Ladder A → Option A
  find p [] = none
  find p ((q, a) ∷ m) = if p == q then some a else find p m

  -- `f(m[p])`: the entry of `p`, made with the value `d` if it is missing, is changed by `f`.
  unfoldable pub update : Bool → ℕ → A → (A → A) → Ladder A → Ladder A
  update b p d f [] = (p, f d) ∷ []
  update b p d f ((q, a) ∷ m) =
      if p == q
      then (q, f a) ∷ m
      else if before b p q
      then (p, f d) ∷ (q, a) ∷ m
      else (q, a) ∷ update b p d f m

  -- `erase(p)`.
  unfoldable pub erase : ℕ → Ladder A → Ladder A
  erase p [] = []
  erase p ((q, a) ∷ m) = if p == q then m else (q, a) ∷ erase p m
