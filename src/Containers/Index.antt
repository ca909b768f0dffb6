-- ===== src/Containers/Index.antt =====
-- `std::unordered_map<OrderId, T>`: a finite map with the number of its entries.
use hft_orderbook_benchmark.Common.{
  ℕ, ◌+◌, ◌-◌, ◌≡◌, Bool, true, false, Option, none, some, if◌then◌else◌, ◌==◌, arith, refl,
}

pub record Index (A : Type 0) : Type 0 where
  pub find : ℕ → Option A
  pub size : ℕ

abbrev pub is_some {ℓ} : {A : Type ℓ} → Option A → Bool
is_some none = false
is_some (some a) = true

module _ {A : Type 0} where
  unfoldable pub empty : Index A
  empty = record { find = λ k. none; size = 0 }

  -- `m[k] = a`.
  unfoldable pub insert : ℕ → A → Index A → Index A
  insert k a m = record {
    find = λ j. if j == k then some a else m.find j;
    size = if is_some (m.find k) then m.size else m.size + 1;
  }

  -- `erase(k)`.
  unfoldable pub erase : ℕ → Index A → Index A
  erase k m = record {
    find = λ j. if j == k then none else m.find j;
    size = if is_some (m.find k) then m.size - 1 else m.size;
  }

  pub find-insert :
      (k j : ℕ) (a : A) (m : Index A)
      → (insert k a m).find j ≡ (if j == k then some a else m.find j)
  unfolding insert
  find-insert k j a m = refl

  pub find-erase :
      (k j : ℕ) (m : Index A) → (erase k m).find j ≡ (if j == k then none else m.find j)
  unfolding erase
  find-erase k j m = refl

  pub size-insert :
      (k : ℕ) (a : A) (m : Index A) → m.find k ≡ none → (insert k a m).size ≡ m.size + 1
  unfolding insert
  size-insert k a m h = ground arith

  pub size-erase : (k : ℕ) {a : A} (m : Index A) → m.find k ≡ some a → (erase k m).size ≡ m.size - 1
  unfolding erase
  size-erase k m h = ground arith
