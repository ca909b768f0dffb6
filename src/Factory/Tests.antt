-- ===== src/Factory/Tests.antt =====
-- The books of the factory.
use hft_orderbook_benchmark.Common.{◌≡◌, true, false}
use hft_orderbook_benchmark.Factory.{create, supported_types, unknown_type, name_array}
use hft_orderbook_benchmark.Factory.Fresh.{IsFresh, is_one_of, create-IsFresh}

create-IsFresh_example :
    (is_one_of name_array supported_types ≡ true → IsFresh name_array (create name_array))
    × (is_one_of name_array supported_types ≡ false → create name_array ≡ unknown_type)
create-IsFresh_example = create-IsFresh name_array
