-- ===== src/Trade.antt =====
-- src/models/include/Trade.h and src/models/impl/Trade.cpp: `Trade` and `TradeStatistics`.
pub mod Totals
pub mod Accesses
use velocore.Base.{
  ℕ, ◌≡◌, Bool, List, [], ◌∷◌, String, Result, ok, throws, ◌>>=◌, ℤ, pos, add32, wrap32, ltb,
  if◌then◌else◌,
}
use velocore.Double.{Double}
use velocore.World.{World, generate_trade_id, now}
use velocore.Json.{Json, text, int, number, obj, to_int64, millis, Reader}

pub record Trade (D : Type 0) : Type 0 where
  pub trade_id : ℕ
  pub buy_order_id : ℕ
  pub sell_order_id : ℕ
  pub symbol : String
  pub price : D
  pub quantity : ℤ
  pub timestamp : ℕ

-- `last_trade_time` has no value before the first trade: the model takes the epoch there.
pub record TradeStatistics (D : Type 0) : Type 0 where
  pub total_trades : ℤ
  pub total_volume : ℤ
  pub total_value : D
  pub avg_price : D
  pub min_price : D
  pub max_price : D
  pub last_trade_time : ℕ

module _ {D : Type 0} where
  -- The constructor: the next id and the time of the call.
  unfoldable pub new_trade : (ℕ → ℕ) → ℕ → ℕ → String → D → ℤ → World → Trade D × World
  unfolding generate_trade_id now
  new_trade clock buy_order_id sell_order_id symbol price quantity w =
      let (id, w') = generate_trade_id w in
      let (time, w'') = now clock w' in
      (
        record {
          trade_id = id;
          buy_order_id = buy_order_id;
          sell_order_id = sell_order_id;
          symbol = symbol;
          price = price;
          quantity = quantity;
          timestamp = time;
        },
        w'',
      )

  -- `operator<` on trades.
  unfoldable pub trade_lt : Trade D → Trade D → Bool
  trade_lt lhs rhs = ltb lhs.timestamp rhs.timestamp

module _ {J D : Type 0} ⦃r : Reader J D⦄ where
  -- The accesses of `Trade::from_json`. The member is an `int`, and `.i()` gives an `int64_t`.
  read_trade : ℕ → ℕ → J → Result (Trade D)
  read_trade id time json = do
    buy_order_id ← r.at json "buy_order_id" >>= r.as_uint
    sell_order_id ← r.at json "sell_order_id" >>= r.as_uint
    symbol ← r.at json "symbol" >>= r.as_text
    price ← r.at json "price" >>= r.as_double
    quantity ← r.at json "quantity" >>= r.as_int
    ok (record {
      trade_id = id;
      buy_order_id = buy_order_id;
      sell_order_id = sell_order_id;
      symbol = symbol;
      price = price;
      quantity = wrap32 quantity;
      timestamp = time;
    })

  -- `Trade::from_json`. The id is drawn first, so an access that throws uses it up; the clock is
  -- read after the accesses.
  unfoldable pub trade_from_json : (ℕ → ℕ) → J → World → Result (Trade D) × World
  unfolding read_trade generate_trade_id now
  trade_from_json clock json w =
      let (id, w') = generate_trade_id w in
      let (time, w'') = now clock w' in
      elim (read_trade id time json) [ ok t ↦ (ok t, w'') | throws e ↦ (throws e, w') ]

module _ {D : Type 0} ⦃d : Double D⦄ where
  -- `Trade::total_value`.
  unfoldable pub trade_value : Trade D → D
  trade_value t = d.mul t.price (d.of_int t.quantity)

  unfoldable pub trade_to_json : Trade D → Json D
  unfolding trade_value
  trade_to_json t = obj (
      ("trade_id", int (to_int64 t.trade_id))
      ∷ ("buy_order_id", int (to_int64 t.buy_order_id))
      ∷ ("sell_order_id", int (to_int64 t.sell_order_id))
      ∷ ("symbol", text t.symbol)
      ∷ ("price", number t.price)
      ∷ ("quantity", int t.quantity)
      ∷ ("total_value", number (trade_value t))
      ∷ ("timestamp", int (millis t.timestamp))
      ∷ [])

  -- `TradeStatistics::TradeStatistics`.
  unfoldable pub no_trades : TradeStatistics D
  no_trades = record {
    total_trades = pos 0;
    total_volume = pos 0;
    total_value = d.nought;
    avg_price = d.nought;
    min_price = d.max_value;
    max_price = d.lowest;
    last_trade_time = 0;
  }

  -- `TradeStatistics::update`. The two counters are of type `int`.
  unfoldable pub update : TradeStatistics D → Trade D → TradeStatistics D
  unfolding trade_value
  update s t =
      let volume = add32 s.total_volume t.quantity in
      let value = d.add s.total_value (trade_value t) in
      record {
        total_trades = add32 s.total_trades (pos 1);
        total_volume = volume;
        total_value = value;
        avg_price = d.div value (d.of_int volume);
        min_price = if d.lt t.price s.min_price then t.price else s.min_price;
        max_price = if d.lt s.max_price t.price then t.price else s.max_price;
        last_trade_time = t.timestamp;
      }

  -- The loop of the handlers: `for (const auto& trade : trades) stats.update(trade);`.
  unfoldable pub update_all : TradeStatistics D → List (Trade D) → TradeStatistics D
  update_all s [] = s
  update_all s (t ∷ ts) = update_all (update s t) ts

  unfoldable pub statistics_to_json : TradeStatistics D → Json D
  statistics_to_json s = obj (
      ("total_trades", int s.total_trades)
      ∷ ("total_volume", int s.total_volume)
      ∷ ("total_value", number s.total_value)
      ∷ ("avg_price", number s.avg_price)
      ∷ ("min_price", number (if d.eq s.min_price d.max_value then d.nought else s.min_price))
      ∷ ("max_price", number (if d.eq s.max_price d.lowest then d.nought else s.max_price))
      ∷ ("last_trade_time", int (millis s.last_trade_time))
      ∷ [])
