-- ===== src/Service.antt =====
-- src/main.cpp: the global state, the checks on orders, and the handlers of the HTTP routes. A handler
-- takes the state and gives the response with the new state; each access to the book or to the ticks
-- is under its lock.
pub mod Orders
pub mod Views
pub mod Ticks
pub mod Market
pub mod Accepted
pub mod Books
pub mod Cancelling
pub mod Load
pub mod Constants
use velocore.Base.{
  ℕ, ◌^◌, ◌-◌, ◌%◌, ◌+◌, Bool, true, false, ◌&&◌, List, [], ◌∷◌, Option, none, some, String, ℤ, pos,
  negsuc, leb_ℤ, if◌then◌else◌,
}
use text.Mathlib.Text.{◌==◌ as str_eq}
use velocore.Double.{Double}
use velocore.World.{World}
use velocore.Types.{Side, OrderType}
use velocore.Tick.{MarketTick}
use velocore.Trade.{TradeStatistics}
use velocore.Json.{Json}
use velocore.OrderBook.Engine.{OrderBook}

-- The global instances, and the counters and clock that the models use.
pub record Service (D : Type 0) : Type 0 where
  pub order_book : OrderBook D
  pub stats : TradeStatistics D
  pub latest_ticks : List (String × MarketTick D)
  pub world : World

pub data Body (D : Type 0) : Type 0 where
  plain : String → Body D
  json : Json D → Body D

-- `crow::response`.
pub record Response (D : Type 0) : Type 0 where
  pub code : ℕ
  pub body : Body D

abbrev pub response : {D : Type 0} → ℕ → Body D → Response D
response code body = record { code = code; body = body }

module _ {D : Type 0} ⦃d : Double D⦄ where
  -- `validateOrder`: the message of the first check that fails. The side is not looked at.
  unfoldable pub validate_order : String → Side → OrderType → D → ℤ → Option String
  validate_order symbol side type price quantity =
      if leb_ℤ quantity (pos 0)
      then some "Quantity must be greater than 0"
      else if is_limit type && d.le price d.nought
      then some "Price must be greater than 0 for limit orders"
      else if str_eq symbol ""
      then some "Symbol cannot be empty"
      else none
    where
      is_limit : OrderType → Bool
      is_limit OrderType.limit = true
      is_limit OrderType.market = false

-- `static_cast<uint64_t>` of an `int`.
abbrev pub to_uint64 : ℤ → ℕ
to_uint64 (pos n) = n
to_uint64 (negsuc n) = 2 ^ 64 - 1 - n
