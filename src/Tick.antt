-- ===== src/Tick.antt =====
-- `MarketTick` of src/models/include/Types.h and src/models/impl/Types.cpp.
use velocore.Base.{ℕ, List, [], ◌∷◌, ◌++◌, String, ℤ, pos}
use velocore.Double.{Double}
use velocore.World.{World, now}
use velocore.Types.{
  Side, OrderType, OrderStatus, MarketDataType, side_to_string, order_type_to_string,
  order_status_to_string, market_data_type_to_string,
}
use velocore.Json.{Json, text, int, number, obj, millis}

pub record MarketTick (D : Type 0) : Type 0 where
  pub symbol : String
  pub type : MarketDataType
  pub timestamp : ℕ
  pub trade_price : D
  pub trade_size : ℤ
  pub bid_price : D
  pub ask_price : D
  pub bid_size : ℤ
  pub ask_size : ℤ
  pub open_price : D
  pub high : D
  pub low : D
  pub close : D
  pub volume : ℤ

module _ {D : Type 0} ⦃d : Double D⦄ where
  -- The members' initial values, with a symbol, a type and a time.
  abbrev pub blank_tick : String → MarketDataType → ℕ → MarketTick D
  blank_tick symbol type time = record {
    symbol = symbol;
    type = type;
    timestamp = time;
    trade_price = d.nought;
    trade_size = pos 0;
    bid_price = d.nought;
    ask_price = d.nought;
    bid_size = pos 0;
    ask_size = pos 0;
    open_price = d.nought;
    high = d.nought;
    low = d.nought;
    close = d.nought;
    volume = pos 0;
  }

  -- The constructor.
  unfoldable pub new_tick : (ℕ → ℕ) → String → MarketDataType → World → MarketTick D × World
  unfolding now
  new_tick clock symbol type w = let (time, w') = now clock w in (blank_tick symbol type time, w')

module _ {D : Type 0} where
  -- `to_json` of the four enums.
  abbrev pub side_to_json : Side → Json D
  unfolding side_to_string
  side_to_json side = text (side_to_string side)

  abbrev pub order_type_to_json : OrderType → Json D
  unfolding order_type_to_string
  order_type_to_json type = text (order_type_to_string type)

  abbrev pub order_status_to_json : OrderStatus → Json D
  unfolding order_status_to_string
  order_status_to_json status = text (order_status_to_string status)

  abbrev pub market_data_type_to_json : MarketDataType → Json D
  unfolding market_data_type_to_string
  market_data_type_to_json type = text (market_data_type_to_string type)

  -- The members that a tick of each type shows.
  tick_members : MarketDataType → MarketTick D → List (String × Json D)
  tick_members MarketDataType.trade t =
      ("trade_price", number t.trade_price) ∷ ("trade_size", int t.trade_size) ∷ []
  tick_members MarketDataType.quote t =
      ("bid_price", number t.bid_price)
      ∷ ("ask_price", number t.ask_price)
      ∷ ("bid_size", int t.bid_size)
      ∷ ("ask_size", int t.ask_size)
      ∷ []
  tick_members MarketDataType.bar t =
      ("open", number t.open_price)
      ∷ ("high", number t.high)
      ∷ ("low", number t.low)
      ∷ ("close", number t.close)
      ∷ ("volume", int t.volume)
      ∷ []

  unfoldable pub tick_to_json : MarketTick D → Json D
  unfolding tick_members market_data_type_to_string
  tick_to_json t = obj (
      (("symbol", text t.symbol)
        ∷ ("type", text (market_data_type_to_string t.type))
        ∷ ("timestamp", int (millis t.timestamp))
        ∷ [])
      ++ tick_members t.type t)
