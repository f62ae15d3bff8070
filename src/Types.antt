-- ===== src/Types.antt =====
-- src/models/include/Types.h and src/models/impl/Types.cpp: the enums and their texts.
pub mod Text
use Prim.Native.String.{◌++◌ as concat}
use text.Mathlib.Text.{◌==◌ as str_eq}
use velocore.Base.{◌||◌, String, Result, ok, throws, if◌then◌else◌}

pub data Side : Type 0 where
  buy sell : Side

pub data OrderType : Type 0 where
  limit market : OrderType

pub data OrderStatus : Type 0 where
  active filled cancelled partially_filled : OrderStatus

pub data MarketDataType : Type 0 where
  trade quote bar : MarketDataType

unfoldable pub side_to_string : Side → String
side_to_string Side.buy = "BUY"
side_to_string Side.sell = "SELL"

unfoldable pub order_type_to_string : OrderType → String
order_type_to_string OrderType.limit = "LIMIT"
order_type_to_string OrderType.market = "MARKET"

unfoldable pub order_status_to_string : OrderStatus → String
order_status_to_string OrderStatus.active = "ACTIVE"
order_status_to_string OrderStatus.filled = "FILLED"
order_status_to_string OrderStatus.cancelled = "CANCELLED"
order_status_to_string OrderStatus.partially_filled = "PARTIALLY_FILLED"

unfoldable pub market_data_type_to_string : MarketDataType → String
market_data_type_to_string MarketDataType.trade = "TRADE"
market_data_type_to_string MarketDataType.quote = "QUOTE"
market_data_type_to_string MarketDataType.bar = "BAR"

unfoldable pub side_from_string : String → Result Side
side_from_string str =
    if str_eq str "BUY" || str_eq str "buy"
    then ok Side.buy
    else if str_eq str "SELL" || str_eq str "sell"
    then ok Side.sell
    else throws (concat "Invalid side: " str)

unfoldable pub order_type_from_string : String → Result OrderType
order_type_from_string str =
    if str_eq str "LIMIT" || str_eq str "limit"
    then ok OrderType.limit
    else if str_eq str "MARKET" || str_eq str "market"
    then ok OrderType.market
    else throws (concat "Invalid order type: " str)

unfoldable pub market_data_type_from_string : String → Result MarketDataType
market_data_type_from_string str =
    if str_eq str "TRADE" || str_eq str "trade" || str_eq str "t"
    then ok MarketDataType.trade
    else if str_eq str "QUOTE" || str_eq str "quote" || str_eq str "q"
    then ok MarketDataType.quote
    else if str_eq str "BAR" || str_eq str "bar" || str_eq str "b"
    then ok MarketDataType.bar
    else throws (concat "Invalid market data type: " str)
