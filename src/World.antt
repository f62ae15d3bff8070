-- ===== src/World.antt =====
-- src/models/impl/Order.cpp and src/models/impl/Trade.cpp: the two static id counters, and the
-- readings of the steady clock. What the constructors read and change besides their own object.
use velocore.Base.{ℕ, ◌+◌, ◌%◌, ◌^◌}

-- `ticks` counts the readings of the clock so far; the clock itself is a function from the number
-- of a reading to the time that it gives.
pub record World : Type 0 where
  pub order_counter : ℕ
  pub trade_counter : ℕ
  pub ticks : ℕ

-- The counters' initial values.
abbrev pub start : World
start = record { order_counter = 1; trade_counter = 1; ticks = 0 }

-- `fetch_add(1)` on a `std::atomic<uint64_t>`.
abbrev pub fetch_add_one : ℕ → ℕ
fetch_add_one c = (c + 1) % 2 ^ 64

-- `Order::generate_id` and `Trade::generate_id`.
unfoldable pub generate_order_id : World → ℕ × World
generate_order_id w = (w.order_counter, record w { order_counter = fetch_add_one w.order_counter })

unfoldable pub generate_trade_id : World → ℕ × World
generate_trade_id w = (w.trade_counter, record w { trade_counter = fetch_add_one w.trade_counter })

-- `std::chrono::steady_clock::now()`.
unfoldable pub now : (ℕ → ℕ) → World → ℕ × World
now clock w = (clock w.ticks, record w { ticks = w.ticks + 1 })
