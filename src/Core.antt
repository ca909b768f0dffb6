-- ===== src/Core.antt =====
-- src/core/Types.hpp, src/core/Order.hpp and src/core/Trade.hpp. Every number is an unsigned 64-bit
-- integer.
use hft_orderbook_benchmark.Common.{ℕ, Bool, true, false}

pub data Side : Type 0 where
  buy sell : Side

pub data OrderType : Type 0 where
  limit market : OrderType

pub record Order : Type 0 where
  pub id : ℕ
  pub price : ℕ
  pub quantity : ℕ
  pub side : Side
  pub type : OrderType
  pub timestamp : ℕ
  pub receive_timestamp : ℕ
  pub send_timestamp : ℕ

pub record Trade : Type 0 where
  pub buy_order_id : ℕ
  pub sell_order_id : ℕ
  pub price : ℕ
  pub quantity : ℕ

-- `order.side == Side::Buy`.
abbrev pub is_buy : Side → Bool
is_buy buy = true
is_buy sell = false
