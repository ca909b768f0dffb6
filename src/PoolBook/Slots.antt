-- ===== src/PoolBook/Slots.antt =====
-- src/orderbooks/pool_order_book.cpp: the list of the slots that are not used, `allocateSlot` and
-- `freeSlot`.
use hft_orderbook_benchmark.Common.{
  ℕ, zero, suc, ◌<◌, ◌≡◌, ◌≢◌, refl, ap, List, [], ◌∷◌, some, All, get_elem?, set,
}
use hft_orderbook_benchmark.PoolBook.{
  OrderNode, PoolBook, ok, out_of_memory, allocate_slot, free_slot, null_idx,
}

-- The links from the slot `i` on lead through `js` to the end.
abbrev pub IsChain : List OrderNode → ℕ → List ℕ → Type 0
IsChain ns i [] = i ≡ null_idx
IsChain ns i (j ∷ js) =
    (i ≡ j)
    × (j < null_idx)
    × (n : OrderNode) × (get_elem? ns j ≡ some n)
    × IsChain ns n.next_free js

abbrev pub IsApart : List ℕ → Type 0
IsApart [] = Unit
IsApart (j ∷ js) = All (λ i. j ≢ i) js × IsApart js

-- The free list of a book: its slots in turn, none of them twice.
pub record IsFree (k : PoolBook) (js : List ℕ) : Type 0 where
  pub linked : IsChain k.orders k.free_head js
  pub apart : IsApart js

pub get_elem-set_same :
    (ns : List OrderNode) (j : ℕ) (m n : OrderNode)
    → get_elem? ns j ≡ some m
    → get_elem? (set ns j n) j ≡ some n
get_elem-set_same [] j m n h = absurd (cc)
get_elem-set_same (x ∷ ns) zero m n h = refl
get_elem-set_same (x ∷ ns) (suc j) m n h = get_elem-set_same ns j m n h

pub get_elem-set_other :
    (ns : List OrderNode) (j i : ℕ) (n : OrderNode)
    → j ≢ i
    → get_elem? (set ns j n) i ≡ get_elem? ns i
get_elem-set_other [] j i n h = refl
get_elem-set_other (x ∷ ns) zero zero n h = absurd (h refl)
get_elem-set_other (x ∷ ns) zero (suc i) n h = refl
get_elem-set_other (x ∷ ns) (suc j) zero n h = refl
get_elem-set_other (x ∷ ns) (suc j) (suc i) n h = get_elem-set_other ns j i n (λ e. h (ap suc e))

-- A slot that is not in the list may be written.
pub IsChain-set :
    (ns : List OrderNode) (j i : ℕ) (n : OrderNode) (js : List ℕ)
    → All (λ l. j ≢ l) js
    → IsChain ns i js
    → IsChain (set ns j n) i js
IsChain-set ns j i n [] a v = v
IsChain-set ns j i n (l ∷ js) a v =
    let (e, b, m, g, w) = v in
    (e, b, m, rw (get_elem-set_other ns j l n a.0) g, IsChain-set ns j m.next_free n js a.1 w)

-- An empty free list makes `allocateSlot` throw.
pub allocate_slot-empty : (k : PoolBook) → IsFree k [] → allocate_slot k ≡ out_of_memory
unfolding allocate_slot
allocate_slot-empty k v = rw (v.linked, allocate_slot) refl

-- `freeSlot` puts a slot that is not in the free list at its front.
pub free_slot-puts :
    (k : PoolBook) (j : ℕ) (js : List ℕ) (n : OrderNode)
    → IsFree k js
    → All (λ i. j ≢ i) js
    → j < null_idx
    → get_elem? k.orders j ≡ some n
    → (k' : PoolBook) × (free_slot j k ≡ ok k') × IsFree k' (j ∷ js)
unfolding free_slot
free_slot-puts k j js n v a b g =
    let freed = record n { next_free = k.free_head } in
    (
      record k { orders = set k.orders j freed; free_head = j },
      rw (free_slot, g) refl,
      record {
        linked = (
          refl,
          b,
          freed,
          get_elem-set_same k.orders j n freed g,
          IsChain-set k.orders j k.free_head freed js a v.linked,
        );
        apart = (a, v.apart);
      },
    )
