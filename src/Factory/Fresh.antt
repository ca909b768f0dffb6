-- ===== src/Factory/Fresh.antt =====
-- src/core/order_book_factory.hpp: the class of the book that the factory makes, and what the book stands
-- for.
use hft_orderbook_benchmark.Common.{
  ◌≡◌, refl, Bool, true, false, ◌||◌, List, [], ◌∷◌, arith, Bool-cases, inl, inr, max_u64,
}
use hft_orderbook_benchmark.Fix.Text.{Bytes, same}
use hft_orderbook_benchmark.Containers.Index
use hft_orderbook_benchmark.MapBook
use hft_orderbook_benchmark.MapBook.View as MapView
use hft_orderbook_benchmark.MapBook.Refine.{empty-IsValid}
use hft_orderbook_benchmark.VectorBook.Equivalence.{to_map}
use hft_orderbook_benchmark.ArrayBook.View as ArrayView
use hft_orderbook_benchmark.ArrayBook.New.{fresh, create-IsValid}
use hft_orderbook_benchmark.PoolBook.View.{Stands}
use hft_orderbook_benchmark.PoolBook.Filling.{nothing, fresh_pool-Stands}
use hft_orderbook_benchmark.VectorBook
use hft_orderbook_benchmark.ArrayBook
use hft_orderbook_benchmark.HybridBook
use hft_orderbook_benchmark.PoolBook
use hft_orderbook_benchmark.Factory.{
  AnyBook, map_book, vector_book, array_book, hybrid_book, pool_book, Made, book, unknown_type,
  array_made, pool_made, create, get_order_count, get_best_bid, get_best_ask, supported_types,
  default_max_orders, default_hot_levels, name_map, name_vector, name_array, name_hybrid, name_pool,
}

-- What a new book of each class comes with: the name that selects the class, the representation invariant
-- of the class, and the abstract book that it stands for, in which nothing rests. The array book lists
-- the prices 100 to 200, the hybrid book has 20 hot levels, and the pool book has 1000000 slots.
abbrev pub IsNew : Bytes → AnyBook → Type 0
IsNew type (map_book k) =
    (same type name_map ≡ true) × MapView.IsValid k × (MapView.view k ≡ nothing)
IsNew type (vector_book k) =
    (same type name_vector ≡ true)
    × MapView.IsValid (to_map k)
    × (MapView.view (to_map k) ≡ nothing)
IsNew type (array_book k) =
    (same type name_array ≡ true)
    × ArrayView.IsValid k
    × (ArrayView.view k ≡ nothing)
    × (k.min_price ≡ 100)
    × (k.max_price ≡ 200)
    × (k.tick_size ≡ 1)
IsNew type (hybrid_book k) =
    (same type name_hybrid ≡ true)
    × (k.max_hot_levels ≡ 20)
    × (k.bids ≡ record { hot = []; cold = [] })
    × (k.asks ≡ record { hot = []; cold = [] })
IsNew type (pool_book k) = (same type name_pool ≡ true) × Stands k nothing 1000000

-- The factory returns a new book of the class of that name, whose getters say that it holds no order.
pub record IsFresh (type : Bytes) (m : Made) : Type 0 where
  made : AnyBook
  returns : m ≡ book made
  is_new : IsNew type made
  no_orders : get_order_count made ≡ 0
  no_bid : get_best_bid made ≡ 0
  no_ask : get_best_ask made ≡ max_u64

abbrev pub is_one_of : Bytes → List Bytes → Bool
is_one_of type [] = false
is_one_of type (name ∷ names) = same type name || is_one_of type names

abbrev made_of : Made → AnyBook
made_of (book k) = k
made_of m = map_book MapBook.empty

map-IsFresh :
    (type : Bytes) → same type name_map ≡ true → IsFresh type (book (map_book MapBook.empty))
unfolding get_order_count get_best_bid get_best_ask MapBook.empty Index.empty
    MapBook.get_order_count MapBook.get_best_bid MapBook.get_best_ask MapBook.best_price
map-IsFresh type h = record {
  made = map_book MapBook.empty;
  returns = refl;
  is_new = (h, empty-IsValid, refl);
  no_orders = refl;
  no_bid = refl;
  no_ask = refl;
}

vector-IsFresh :
    (type : Bytes)
    → same type name_vector ≡ true
    → IsFresh type (book (vector_book VectorBook.empty))
unfolding get_order_count get_best_bid get_best_ask VectorBook.empty Index.empty
    VectorBook.get_order_count VectorBook.get_best_bid VectorBook.get_best_ask MapBook.empty
vector-IsFresh type h = record {
  made = vector_book VectorBook.empty;
  returns = refl;
  is_new = (h, empty-IsValid, refl);
  no_orders = refl;
  no_bid = refl;
  no_ask = refl;
}

hybrid-IsFresh :
    (type : Bytes)
    → same type name_hybrid ≡ true
    → IsFresh type (book (hybrid_book (HybridBook.create default_hot_levels)))
unfolding get_order_count get_best_bid get_best_ask HybridBook.create Index.empty
    HybridBook.get_order_count HybridBook.get_best_bid HybridBook.get_best_ask
    HybridBook.best_of_side
hybrid-IsFresh type h = record {
  made = hybrid_book (HybridBook.create default_hot_levels);
  returns = refl;
  is_new = (h, refl, refl, refl);
  no_orders = refl;
  no_bid = refl;
  no_ask = refl;
}

abbrev new_array : ArrayBook.ArrayBook
new_array = fresh 100 200 1

array_new : ArrayView.IsValid new_array × (ArrayView.view new_array ≡ nothing)
unfolding ArrayBook.create
array_new = create-IsValid 100 200 1 (omega arith) (omega arith) refl

array-IsFresh :
    (type : Bytes)
    → same type name_array ≡ true
    → IsFresh type (array_made (ArrayBook.create 100 200 1))
unfolding get_order_count get_best_bid get_best_ask ArrayBook.create Index.empty
    ArrayBook.get_order_count ArrayBook.get_best_bid ArrayBook.get_best_ask
array-IsFresh type h = record {
  made = made_of (array_made (ArrayBook.create 100 200 1));
  returns = refl;
  is_new = (h, array_new.0, array_new.1, refl, refl, refl);
  no_orders = refl;
  no_bid = refl;
  no_ask = refl;
}

pool-IsFresh :
    (type : Bytes)
    → same type name_pool ≡ true
    → IsFresh type (pool_made (PoolBook.create default_max_orders))
unfolding get_order_count get_best_bid get_best_ask PoolBook.create Index.empty
    PoolBook.get_order_count PoolBook.get_best_bid PoolBook.get_best_ask MapBook.best_price
    default_max_orders
pool-IsFresh type h = record {
  made = made_of (pool_made (PoolBook.create 1000000));
  returns = refl;
  is_new = (h, fresh_pool-Stands 999999 (omega arith));
  no_orders = refl;
  no_bid = refl;
  no_ask = refl;
}

supported : (type : Bytes) → is_one_of type supported_types ≡ true → IsFresh type (create type)
unfolding create
supported type h = elim (Bool-cases (same type name_map)) [
  | inl e ↦ rw (e, create) (map-IsFresh type e)
  | inr e ↦ elim (Bool-cases (same type name_vector)) [
    | inl f ↦ rw (e, f, create) (vector-IsFresh type f)
    | inr f ↦ elim (Bool-cases (same type name_array)) [
      | inl g ↦ rw (e, f, g, create) (array-IsFresh type g)
      | inr g ↦ elim (Bool-cases (same type name_hybrid)) [
        | inl i ↦ rw (e, f, g, i, create) (hybrid-IsFresh type i)
        | inr i ↦ elim (Bool-cases (same type name_pool)) [
          | inl j ↦ rw (e, f, g, i, j, create) (pool-IsFresh type j)
          | inr j ↦ absurd (ground (arith, e, f, g, i, j, h))
        ]
      ]
    ]
  ]
]

-- For each type that `getSupportedTypes` lists, `create` returns a book of the class of that name, which is
-- in order where its class has an invariant here, stands for the abstract book in which nothing rests, and
-- reports no order and the best prices of an empty book; for any other type it throws. The array book
-- lists the prices 100 to 200, the hybrid book has 20 hot levels and the pool book 1000000 free slots.
pub create-IsFresh :
    (type : Bytes)
    → (is_one_of type supported_types ≡ true → IsFresh type (create type))
      × (is_one_of type supported_types ≡ false → create type ≡ unknown_type)
unfolding create
create-IsFresh type = (supported type, λ h. ground (arith, h))
