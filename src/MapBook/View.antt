-- ===== src/MapBook/View.antt =====
-- What a client sees of a map book, and the representation invariant.
use hft_orderbook_benchmark.Common.{ℕ, ◌≡◌, true, false, ◌||◌, List, some, arith}
use hft_orderbook_benchmark.Core.{Order}
use hft_orderbook_benchmark.Containers.OrderList.{Node}
use hft_orderbook_benchmark.Containers.Index.{Index}
use hft_orderbook_benchmark.Contract.{Book, holds}
use hft_orderbook_benchmark.Resting.{orders, flat, IsLadder}
use hft_orderbook_benchmark.Matching.{Location}
use hft_orderbook_benchmark.Matching.Indexed.{Indexed}
use hft_orderbook_benchmark.MapBook.{MapBook}

-- The resting orders, without cells, levels and lookup.
abbrev pub view : MapBook → Book
view k = record { bids = orders (flat k.bids); asks = orders (flat k.asks) }

pub record IsValid (k : MapBook) : Type 0 where
  pub bid_ladder : IsLadder true k.bids
  pub ask_ladder : IsLadder false k.asks
  pub lookup : Indexed (flat k.bids) (flat k.asks) k.order_lookup k.next_cell

-- What an operation of the book must do: keep the representation, and act as the contract says.
pub record Refines (k : MapBook) (b : Book) : Type 0 where
  pub valid : IsValid k
  pub seen : view k ≡ b

pub Book_path :
    (xs ys us vs : List Order)
    → xs ≡ us
    → ys ≡ vs
    → ◌≡◌ {A = Book} (record { bids = xs; asks = ys }) (record { bids = us; asks = vs })
Book_path xs ys us vs e f = λ i. record { bids = e i; asks = f i }

-- The lookup knows an id exactly when one of the sides holds it.
pub known :
    {xs ys : List Node} {ix : Index Location} {next : ℕ} (id : ℕ) (l : Location)
    → Indexed xs ys ix next
    → ix.find id ≡ some l
    → (holds id (orders xs) || holds id (orders ys)) ≡ true
known id l v h = ground (arith, v.bids.covered id l h, v.asks.covered id l h)
