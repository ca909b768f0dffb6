-- ===== src/Containers/OrderList.antt =====
-- `std::list<Order>` (`OrderList` in the order books). A node keeps its place in memory until it is
-- erased, so an iterator is the number of the cell that was allocated for the node.
use hft_orderbook_benchmark.Common.{ℕ, List, [], ◌∷◌, ◌++◌, Option, none, some, if◌then◌else◌, ◌==◌}
use hft_orderbook_benchmark.Core.{Order}

pub record Node : Type 0 where
  pub cell : ℕ
  pub order : Order

abbrev pub OrderList : Type 0
OrderList = List Node

-- `push_back`.
abbrev pub push_back : Node → OrderList → OrderList
push_back n ns = ns ++ n ∷ []

-- `erase(iterator)`.
unfoldable pub erase : ℕ → OrderList → OrderList
erase c [] = []
erase c (n ∷ ns) = if n.cell == c then ns else n ∷ erase c ns

-- `iterator->quantity = q`.
unfoldable pub set_quantity : ℕ → ℕ → OrderList → OrderList
set_quantity c q [] = []
set_quantity c q (n ∷ ns) =
    if n.cell == c
    then record n { order = record (n.order) { quantity = q } } ∷ ns
    else n ∷ set_quantity c q ns

-- `*iterator`, if the list has a node at the cell.
unfoldable pub at : ℕ → OrderList → Option Order
at c [] = none
at c (n ∷ ns) = if n.cell == c then some n.order else at c ns
