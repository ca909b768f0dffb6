-- ===== src/Resting.antt =====
-- One side of a book as the one list of its nodes, level after level, and the price levels of
-- the map and vector books over which that list is read.
pub mod Levels
pub mod Orders
pub mod Places
pub mod Keyed
use hft_orderbook_benchmark.Common.{
  ℕ, ◌≡◌, ◌≢◌, Bool, true, false, ◌&&◌, List, [], ◌∷◌, ◌++◌, map, if◌then◌else◌, ◌==◌, All,
}
use hft_orderbook_benchmark.Core.{Order}
use hft_orderbook_benchmark.Containers.OrderList.{Node, OrderList}
use hft_orderbook_benchmark.Containers.Ladder.{Ladder, before}

abbrev pub orders : List Node → List Order
orders [] = []
orders (n ∷ ns) = n.order ∷ orders ns

-- The nodes of all levels in turn.
abbrev pub flat : Ladder OrderList → List Node
flat [] = []
flat ((p, ns) ∷ m) = ns ++ flat m

-- The keys rise in the comparator's order, and a level is not empty and holds its own price.
abbrev pub IsLadder : Bool → Ladder OrderList → Type 0
IsLadder b [] = Unit
IsLadder b ((p, ns) ∷ m) =
    (ns ≢ []) × All (λ n. n.order.price ≡ p) ns × All (λ l. before b p l.0 ≡ true) m × IsLadder b m

unfoldable pub insert_node : Bool → Node → List Node → List Node
insert_node b n [] = n ∷ []
insert_node b n (m ∷ ms) =
    if before b n.order.price m.order.price then n ∷ m ∷ ms else m ∷ insert_node b n ms

-- The node that an iterator into the level of the price `p` stands for leaves.
unfoldable pub erase_at : ℕ → ℕ → List Node → List Node
erase_at p c [] = []
erase_at p c (n ∷ ns) = if n.order.price == p && n.cell == c then ns else n ∷ erase_at p c ns

unfoldable pub set_at : ℕ → ℕ → ℕ → List Node → List Node
set_at p c q [] = []
set_at p c q (n ∷ ns) =
    if n.order.price == p && n.cell == c
    then record n { order = record (n.order) { quantity = q } } ∷ ns
    else n ∷ set_at p c q ns
