-- ===== src/Factory.antt =====
-- src/core/order_book_factory.hpp, `OrderBookFactory`: the book that a name selects, behind
-- src/core/i_order_book.hpp.
pub mod Fresh
mod Tests
use hft_orderbook_benchmark.Common.{ℕ, Bool, true, false, ◌||◌, List, [], ◌∷◌, if◌then◌else◌}
use hft_orderbook_benchmark.Fix.Text.{Bytes, same}
use hft_orderbook_benchmark.MapBook
use hft_orderbook_benchmark.MapBook.{MapBook}
use hft_orderbook_benchmark.VectorBook
use hft_orderbook_benchmark.VectorBook.{VectorBook}
use hft_orderbook_benchmark.ArrayBook
use hft_orderbook_benchmark.ArrayBook.{ArrayBook, InvalidArgument}
use hft_orderbook_benchmark.HybridBook
use hft_orderbook_benchmark.HybridBook.{HybridBook}
use hft_orderbook_benchmark.PoolBook
use hft_orderbook_benchmark.PoolBook.{PoolBook}

-- The classes behind `IOrderBook`.
pub data AnyBook : Type 0 where
  map_book : MapBook → AnyBook
  vector_book : VectorBook → AnyBook
  array_book : ArrayBook → AnyBook
  hybrid_book : HybridBook → AnyBook
  pool_book : PoolBook → AnyBook

unfoldable pub get_order_count : AnyBook → ℕ
unfolding MapBook.get_order_count VectorBook.get_order_count ArrayBook.get_order_count
    HybridBook.get_order_count PoolBook.get_order_count
get_order_count (map_book k) = MapBook.get_order_count k
get_order_count (vector_book k) = VectorBook.get_order_count k
get_order_count (array_book k) = ArrayBook.get_order_count k
get_order_count (hybrid_book k) = HybridBook.get_order_count k
get_order_count (pool_book k) = PoolBook.get_order_count k

unfoldable pub get_best_bid : AnyBook → ℕ
unfolding MapBook.get_best_bid VectorBook.get_best_bid ArrayBook.get_best_bid
    HybridBook.get_best_bid PoolBook.get_best_bid
get_best_bid (map_book k) = MapBook.get_best_bid k
get_best_bid (vector_book k) = VectorBook.get_best_bid k
get_best_bid (array_book k) = ArrayBook.get_best_bid k
get_best_bid (hybrid_book k) = HybridBook.get_best_bid k
get_best_bid (pool_book k) = PoolBook.get_best_bid k

unfoldable pub get_best_ask : AnyBook → ℕ
unfolding MapBook.get_best_ask VectorBook.get_best_ask ArrayBook.get_best_ask
    HybridBook.get_best_ask PoolBook.get_best_ask
get_best_ask (map_book k) = MapBook.get_best_ask k
get_best_ask (vector_book k) = VectorBook.get_best_ask k
get_best_ask (array_book k) = ArrayBook.get_best_ask k
get_best_ask (hybrid_book k) = HybridBook.get_best_ask k
get_best_ask (pool_book k) = PoolBook.get_best_ask k

-- What `create` comes to: a book, the exception of the factory, or what a constructor does otherwise.
pub data Made : Type 0 where
  book : AnyBook → Made
  unknown_type : Made
  throws : InvalidArgument → Made
  out_of_memory : Made
  undefined : Made

abbrev pub array_made : ArrayBook.Created → Made
array_made (ArrayBook.ok k) = book (array_book k)
array_made (ArrayBook.throws e) = throws e

abbrev pub pool_made : PoolBook.Outcome PoolBook → Made
pool_made (PoolBook.ok k) = book (pool_book k)
pool_made PoolBook.out_of_memory = out_of_memory
pool_made PoolBook.undefined = undefined
pool_made PoolBook.out_of_fuel = undefined

-- The names of the types.
abbrev pub name_map : Bytes
name_map = b'm' ∷ b'a' ∷ b'p' ∷ []

abbrev pub name_vector : Bytes
name_vector = b'v' ∷ b'e' ∷ b'c' ∷ b't' ∷ b'o' ∷ b'r' ∷ []

abbrev pub name_array : Bytes
name_array = b'a' ∷ b'r' ∷ b'r' ∷ b'a' ∷ b'y' ∷ []

abbrev pub name_hybrid : Bytes
name_hybrid = b'h' ∷ b'y' ∷ b'b' ∷ b'r' ∷ b'i' ∷ b'd' ∷ []

abbrev pub name_pool : Bytes
name_pool = b'p' ∷ b'o' ∷ b'o' ∷ b'l' ∷ []

-- `getSupportedTypes`.
abbrev pub supported_types : List Bytes
supported_types = name_map ∷ name_vector ∷ name_array ∷ name_hybrid ∷ name_pool ∷ []

-- The default arguments of the constructors of the hybrid and the pool book.
abbrev pub default_hot_levels : ℕ
default_hot_levels = 20

unfoldable pub default_max_orders : ℕ
default_max_orders = 1000000

unfoldable pub create : Bytes → Made
unfolding same MapBook.empty VectorBook.empty ArrayBook.create HybridBook.create PoolBook.create
create type =
    if same type name_map
    then book (map_book MapBook.empty)
    else if same type name_vector
    then book (vector_book VectorBook.empty)
    else if same type name_array
    then array_made (ArrayBook.create 100 200 1)
    else if same type name_hybrid
    then book (hybrid_book (HybridBook.create default_hot_levels))
    else if same type name_pool
    then pool_made (PoolBook.create default_max_orders)
    else unknown_type
