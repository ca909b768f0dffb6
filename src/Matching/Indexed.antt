-- ===== src/Matching/Indexed.antt =====
-- The order lookup against the nodes: `orderLookup_` holds the place of each resting order, and
-- nothing else.
pub mod Sides
pub mod Removal
pub mod Iterators
pub mod Absent
pub mod Books
use hft_orderbook_benchmark.Common.{
  ℕ, ◌+◌, ◌<◌, ◌≡◌, Bool, true, false, ◌&&◌, List, [], ◌∷◌, some, ◌==◌, All, length,
}
use hft_orderbook_benchmark.Containers.OrderList.{Node}
use hft_orderbook_benchmark.Containers.Index.{Index}
use hft_orderbook_benchmark.Contract.{holds}
use hft_orderbook_benchmark.Resting.{orders}
use hft_orderbook_benchmark.Matching.{Location}

abbrev pub place : Bool → Node → Location
place b n = record { is_buy = b; price = n.order.price; iterator = n.cell }

abbrev pub IsIndexed : Bool → Index Location → Node → Type 0
IsIndexed b ix n = ix.find n.order.id ≡ some (place b n)

-- No two nodes of a side hold orders with one id.
abbrev pub IsDistinct : List Node → Type 0
IsDistinct [] = Unit
IsDistinct (n ∷ ns) = All (λ m. (m.order.id == n.order.id) ≡ false) ns × IsDistinct ns

-- The lookup against one side.
pub record Half (b : Bool) (ns : List Node) (ix : Index Location) : Type 0 where
  pub indexed : All (IsIndexed b ix) ns
  pub distinct : IsDistinct ns
  pub covered :
      (id : ℕ) (l : Location) → ix.find id ≡ some l → l.is_buy ≡ b → holds id (orders ns) ≡ true

-- The iterators of the lookup: allocated, and each to a node of its own.
pub record Cells (ix : Index Location) (next : ℕ) : Type 0 where
  pub fresh : (id : ℕ) (l : Location) → ix.find id ≡ some l → l.iterator < next
  pub injective :
      (id jd : ℕ) (l k : Location)
      → ix.find id ≡ some l
      → ix.find jd ≡ some k
      → l.iterator ≡ k.iterator
      → id ≡ jd

pub record Indexed (xs ys : List Node) (ix : Index Location) (next : ℕ) : Type 0 where
  pub bids : Half true xs ix
  pub asks : Half false ys ix
  pub cells : Cells ix next
  pub counted : ix.size ≡ length xs + length ys

-- The nodes at the place `l` are those with the id.
abbrev pub Marks : ℕ → Location → List Node → Type 0
Marks id l = All (λ n. (n.order.price == l.price && n.cell == l.iterator) ≡ (n.order.id == id))
