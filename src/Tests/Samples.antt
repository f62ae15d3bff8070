-- ===== src/Tests/Samples.antt =====
-- Sample orders and books, with prices in whole cents.
use velocore.Base.{ℕ, ◌+◌, List, [], ◌∷◌, some, pos}
use velocore.Double.{Cents}
use velocore.Types.{Side, OrderType, OrderStatus}
use velocore.Order.{Order}
use velocore.Trade.{Trade}
use velocore.OrderBook.Engine.{OrderBook, Call, adds, cancels}

-- A clock that ticks once for each reading.
abbrev pub ticking : ℕ → ℕ
ticking n = n + 1

abbrev pub order : ℕ → Side → OrderType → ℕ → ℕ → Order Cents
order id side type price quantity = record {
  id = id;
  client_id = 7;
  symbol = "SIM";
  side = side;
  type = type;
  price = some price;
  quantity = pos quantity;
  remaining_quantity = pos quantity;
  status = OrderStatus.active;
  timestamp = 5;
}

abbrev pub bid : ℕ → ℕ → ℕ → Order Cents
bid id price quantity = order id Side.buy OrderType.limit price quantity

abbrev pub ask : ℕ → ℕ → ℕ → Order Cents
ask id price quantity = order id Side.sell OrderType.limit price quantity

-- Two asks at 101, one at 102, and a bid at 99.
abbrev pub small_book : OrderBook Cents
small_book = record {
  buy_book = record { price = some 99; orders = bid 1 99 10 ∷ [] } ∷ [];
  sell_book =
      record { price = some 101; orders = ask 2 101 4 ∷ ask 3 101 6 ∷ [] }
      ∷ record { price = some 102; orders = ask 4 102 8 ∷ [] }
      ∷ [];
  next_trade_id = 1;
  trade_log = [];
}

abbrev pub history : List (Call Cents)
history =
    adds (bid 1 99 10)
    ∷ adds (ask 2 101 4)
    ∷ adds (ask 3 101 6)
    ∷ adds (bid 4 101 7)
    ∷ cancels 1
    ∷ []

abbrev pub sale : ℕ → ℕ → Trade Cents
sale price quantity = record {
  trade_id = 1;
  buy_order_id = 1;
  sell_order_id = 2;
  symbol = "SIM";
  price = some price;
  quantity = pos quantity;
  timestamp = 9;
}
