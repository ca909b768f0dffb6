-- ===== src/ArrayBook/Clearing.antt =====
-- src/orderbooks/array_order_book.cpp: a flag that is cleared, and the scans for the best active level.
use hft_orderbook_benchmark.Common.{
  ℕ, zero, suc, ◌+◌, ◌≡◌, ◌≢◌, refl, sym, ap, Bool, true, false, List, [], ◌∷◌, some, Bool-cases,
  inl, inr, get_or, set,
}
use hft_orderbook_benchmark.ArrayBook.{last_active, first_active}
use hft_orderbook_benchmark.ArrayBook.Scans.{scan}

get_or-set_other :
    (fs : List Bool) (i j : ℕ) (a : Bool) → i ≢ j → get_or (set fs i a) j false ≡ get_or fs j false
get_or-set_other [] i j a h = refl
get_or-set_other (f ∷ fs) zero zero a h = absurd (h refl)
get_or-set_other (f ∷ fs) zero (suc j) a h = refl
get_or-set_other (f ∷ fs) (suc i) zero a h = refl
get_or-set_other (f ∷ fs) (suc i) (suc j) a h = get_or-set_other fs i j a (λ e. h (ap suc e))

get_or-set-false :
    (fs : List Bool) (i j : ℕ) → get_or fs j false ≡ false → get_or (set fs i false) j false ≡ false
get_or-set-false [] i j h = refl
get_or-set-false (f ∷ fs) zero zero h = refl
get_or-set-false (f ∷ fs) zero (suc j) h = h
get_or-set-false (f ∷ fs) (suc i) zero h = h
get_or-set-false (f ∷ fs) (suc i) (suc j) h = get_or-set-false fs i j h

-- A level that a scan does not find may be cleared.
last_active-set :
    (n i : ℕ) (fs : List Bool)
    → last_active n fs ≢ some i
    → last_active n (set fs i false) ≡ last_active n fs
unfolding last_active
last_active-set zero i fs h = refl
last_active-set (suc n) i fs h = elim (Bool-cases (get_or fs n false)) [
  | inl k ↦
      let g = get_or-set_other fs i n false (λ e. h (rw (k, last_active) (ap some (sym e)))) in
      rw (g, k, last_active) refl
  | inr k ↦
      rw (get_or-set-false fs i n k, k, last_active)
        (last_active-set n i fs (λ w. h (rw (k, last_active) w)))
]

first_active-set :
    (n j i : ℕ) (fs : List Bool)
    → first_active n j fs ≢ some i
    → first_active n j (set fs i false) ≡ first_active n j fs
unfolding first_active
first_active-set zero j i fs h = refl
first_active-set (suc n) j i fs h = elim (Bool-cases (get_or fs j false)) [
  | inl k ↦
      let g = get_or-set_other fs i j false (λ e. h (rw (k, first_active) (ap some (sym e)))) in
      rw (g, k, first_active) refl
  | inr k ↦
      rw (get_or-set-false fs i j k, k, first_active)
        (first_active-set n (j + 1) i fs (λ w. h (rw (k, first_active) w)))
]

pub scan-set :
    (b : Bool) (n i : ℕ) (fs : List Bool)
    → scan b n fs ≢ some i
    → scan b n (set fs i false) ≡ scan b n fs
scan-set true n i fs h = last_active-set n i fs h
scan-set false n i fs h = first_active-set n 0 i fs h
