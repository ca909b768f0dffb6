-- ===== src/Containers.antt =====
-- What the order books use of the standard containers: `std::list<Order>` with its stable
-- iterators, `std::map<Price, T>` under a comparator, and `std::unordered_map<OrderId, T>`.
pub mod OrderList
pub mod Ladder
pub mod Index
