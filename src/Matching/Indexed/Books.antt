-- ===== src/Matching/Indexed/Books.antt =====
-- Both sides and the lookup, for each change that an order book makes to them.
use hft_orderbook_benchmark.Common.{
  ℕ, ◌+◌, ◌≡◌, refl, Bool, true, false, List, ◌∷◌, none, some, arith,
}
use hft_orderbook_benchmark.Containers.OrderList.{Node}
use hft_orderbook_benchmark.Containers.Index
use hft_orderbook_benchmark.Containers.Index.{Index, size-insert, size-erase}
use hft_orderbook_benchmark.Contract.{holds}
use hft_orderbook_benchmark.Resting.{insert_node, erase_at, set_at}
use hft_orderbook_benchmark.Resting.Orders.{length-insert_node}
use hft_orderbook_benchmark.Matching.{Location, less}
use hft_orderbook_benchmark.Matching.Indexed.{place, Half, Indexed, Marks}
use hft_orderbook_benchmark.Matching.Indexed.Sides.{insert-Half, insert-Half_other}
use hft_orderbook_benchmark.Matching.Indexed.Removal.{
  Half-Marks, erase-Half, erase-Half_other, length-erase_at, set_at-Half, length-set_at,
}
use hft_orderbook_benchmark.Matching.Indexed.Iterators.{insert-Cells, erase-Cells}

module _ {xs ys : List Node} {ix : Index Location} {next : ℕ} (v : Indexed xs ys ix next) where
  pub insert_bid-Indexed :
      (n : Node)
      → ix.find n.order.id ≡ none
      → n.cell ≡ next
      → Indexed (insert_node true n xs) ys (Index.insert n.order.id (place true n) ix) (next + 1)
  insert_bid-Indexed n h e = record {
    bids = insert-Half true n xs ix h v.bids;
    asks = insert-Half_other false n.order.id (place true n) ys ix h (λ e. cc) v.asks;
    cells = insert-Cells n.order.id (place true n) ix next e v.cells;
    counted = ground (
      arith,
      v.counted,
      size-insert n.order.id (place true n) ix h,
      length-insert_node true n xs,
    );
  }

  pub insert_ask-Indexed :
      (n : Node)
      → ix.find n.order.id ≡ none
      → n.cell ≡ next
      → Indexed xs (insert_node false n ys) (Index.insert n.order.id (place false n) ix) (next + 1)
  insert_ask-Indexed n h e = record {
    bids = insert-Half_other true n.order.id (place false n) xs ix h (λ e. cc) v.bids;
    asks = insert-Half false n ys ix h v.asks;
    cells = insert-Cells n.order.id (place false n) ix next e v.cells;
    counted = ground (
      arith,
      v.counted,
      size-insert n.order.id (place false n) ix h,
      length-insert_node false n ys,
    );
  }

  module _ (id : ℕ) (l : Location) (h : ix.find id ≡ some l) where
    pub Marks-bids : l.is_buy ≡ true → Marks id l xs
    Marks-bids s = Half-Marks true id l xs ix next h s v.bids.indexed v.cells

    pub Marks-asks : l.is_buy ≡ false → Marks id l ys
    Marks-asks s = Half-Marks false id l ys ix next h s v.asks.indexed v.cells

    pub erase_bid-Indexed :
        l.is_buy ≡ true → Indexed (erase_at l.price l.iterator xs) ys (Index.erase id ix) next
    erase_bid-Indexed s = record {
      bids = erase-Half true id l xs ix (Marks-bids s) v.bids;
      asks = erase-Half_other false id l ys ix h (λ e. cc) v.asks;
      cells = erase-Cells id ix next v.cells;
      counted = ground (
        arith,
        v.counted,
        size-erase id ix h,
        length-erase_at id l xs (Marks-bids s) (v.bids.covered id l h s),
      );
    }

    pub erase_ask-Indexed :
        l.is_buy ≡ false → Indexed xs (erase_at l.price l.iterator ys) (Index.erase id ix) next
    erase_ask-Indexed s = record {
      bids = erase-Half_other true id l xs ix h (λ e. cc) v.bids;
      asks = erase-Half false id l ys ix (Marks-asks s) v.asks;
      cells = erase-Cells id ix next v.cells;
      counted = ground (
        arith,
        v.counted,
        size-erase id ix h,
        length-erase_at id l ys (Marks-asks s) (v.asks.covered id l h s),
      );
    }

  pub set_bid-Indexed : (p c q : ℕ) → Indexed (set_at p c q xs) ys ix next
  set_bid-Indexed p c q = record {
    bids = set_at-Half true p c q xs ix v.bids;
    asks = v.asks;
    cells = v.cells;
    counted = rw length-set_at v.counted;
  }

  pub set_ask-Indexed : (p c q : ℕ) → Indexed xs (set_at p c q ys) ix next
  set_ask-Indexed p c q = record {
    bids = v.bids;
    asks = set_at-Half false p c q ys ix v.asks;
    cells = v.cells;
    counted = rw length-set_at v.counted;
  }

-- The first order of a side leaves, or stays with less.
erase_at_head : (n : Node) (ns : List Node) → erase_at n.order.price n.cell (n ∷ ns) ≡ ns
unfolding erase_at
erase_at_head n ns = ground arith

less-Half :
    (b : Bool) (q : ℕ) (n : Node) (ns : List Node) (ix : Index Location)
    → Half b (n ∷ ns) ix
    → Half b (less q n ∷ ns) ix
unfolding holds
less-Half b q n ns ix v = record { indexed = v.indexed; distinct = v.distinct; covered = v.covered }

module _ {ix : Index Location} {next : ℕ} where
  pub pop_bid-Indexed :
      (n : Node) (xs ys : List Node)
      → Indexed (n ∷ xs) ys ix next
      → Indexed xs ys (Index.erase n.order.id ix) next
  pop_bid-Indexed n xs ys v =
      rw erase_at_head at (erase_bid-Indexed v n.order.id (place true n) v.bids.indexed.0 refl)

  pub pop_ask-Indexed :
      (n : Node) (xs ys : List Node)
      → Indexed xs (n ∷ ys) ix next
      → Indexed xs ys (Index.erase n.order.id ix) next
  pop_ask-Indexed n xs ys v =
      rw erase_at_head at (erase_ask-Indexed v n.order.id (place false n) v.asks.indexed.0 refl)

  pub less_bid-Indexed :
      (q : ℕ) (n : Node) (xs ys : List Node)
      → Indexed (n ∷ xs) ys ix next
      → Indexed (less q n ∷ xs) ys ix next
  less_bid-Indexed q n xs ys v = record {
    bids = less-Half true q n xs ix v.bids;
    asks = v.asks;
    cells = v.cells;
    counted = v.counted;
  }

  pub less_ask-Indexed :
      (q : ℕ) (n : Node) (xs ys : List Node)
      → Indexed xs (n ∷ ys) ix next
      → Indexed xs (less q n ∷ ys) ix next
  less_ask-Indexed q n xs ys v = record {
    bids = v.bids;
    asks = less-Half false q n ys ix v.asks;
    cells = v.cells;
    counted = v.counted;
  }
