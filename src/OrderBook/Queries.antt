-- ===== src/OrderBook/Queries.antt =====
-- The operations of `class OrderBook` that only read it (src/models/impl/OrderBook.cpp). The sizes of
-- containers do not wrap: they are bounded by the memory.
pub mod Summary
use velocore.Base.{
  ℕ, ◌+◌, Bool, true, false, ◌&&◌, ◌||◌, List, [], ◌∷◌, ℤ, pos, ◌+ℤ◌, wrap32, add32, leb, length,
  if◌then◌else◌,
}
use velocore.Double.{Double}
use velocore.Trade.{Trade}
use velocore.Json.{Json, int, number, obj, arr}
use velocore.OrderBook.Levels.{Level, total_from, count_orders}
use velocore.OrderBook.Engine.{OrderBook}

-- A level as the snapshot shows it.
pub record Row (D : Type 0) : Type 0 where
  pub price : D
  pub quantity : ℤ
  pub orders : ℤ

module _ {D : Type 0} where
  abbrev pub is_empty_side : List (Level D) → Bool
  is_empty_side [] = true
  is_empty_side (l ∷ ls) = false

  unfoldable pub row : Level D → Row D
  row l = record {
    price = l.price;
    quantity = total_from (pos 0) l.orders;
    orders = wrap32 (pos (length l.orders));
  }

  -- The loop over one side: it stops when `levels` rows are made.
  unfoldable pub rows : ℕ → ℕ → List (Level D) → List (Row D)
  unfolding row
  rows count levels [] = []
  rows count levels (l ∷ ls) =
      let rest = rows (count + 1) levels ls in if leb levels count then [] else row l ∷ rest

  -- `totalBidOrders += orders.size()` over one side, in an `int`.
  unfoldable pub int_orders : ℤ → List (Level D) → ℤ
  int_orders total [] = total
  int_orders total (l ∷ ls) = int_orders (add32 total (pos (length l.orders))) ls

  unfoldable pub get_trade_log : OrderBook D → List (Trade D)
  get_trade_log b = b.trade_log

  unfoldable pub get_total_orders : OrderBook D → ℕ
  get_total_orders b = count_orders b.buy_book + count_orders b.sell_book

  unfoldable pub is_empty : OrderBook D → Bool
  is_empty b = is_empty_side b.buy_book && is_empty_side b.sell_book

  unfoldable pub get_trade_count : OrderBook D → ℕ
  get_trade_count b = length b.trade_log

module _ {D : Type 0} ⦃d : Double D⦄ where
  -- The price of the first level, or 0.0.
  abbrev pub best_price : List (Level D) → D
  best_price [] = d.nought
  best_price (l ∷ ls) = l.price

  unfoldable pub get_best_bid : OrderBook D → D
  get_best_bid b = best_price b.buy_book

  unfoldable pub get_best_ask : OrderBook D → D
  get_best_ask b = best_price b.sell_book

  unfoldable pub get_spread : OrderBook D → D
  unfolding get_best_bid get_best_ask
  get_spread b =
      if d.eq (get_best_bid b) d.nought || d.eq (get_best_ask b) d.nought
      then d.nought
      else d.sub (get_best_ask b) (get_best_bid b)

  row_to_json : Row D → Json D
  row_to_json r =
      obj (("price", number r.price) ∷ ("quantity", int r.quantity) ∷ ("orders", int r.orders) ∷ [])

  unfoldable pub get_book_snapshot : ℕ → OrderBook D → Json D
  unfolding rows row_to_json get_spread
  get_book_snapshot levels b = obj (
      ("bids", arr row_to_json (rows 0 levels b.buy_book))
      ∷ ("asks", arr row_to_json (rows 0 levels b.sell_book))
      ∷ ("spread", number (get_spread b))
      ∷ ("best_bid", number (get_best_bid b))
      ∷ ("best_ask", number (get_best_ask b))
      ∷ [])

-- The six counts, each an `int`.
pub record BookStatistics : Type 0 where
  pub bid_levels : ℤ
  pub ask_levels : ℤ
  pub bid_orders : ℤ
  pub ask_orders : ℤ
  pub total_orders : ℤ
  pub total_trades : ℤ

module _ {D : Type 0} where
  unfoldable pub book_statistics : OrderBook D → BookStatistics
  unfolding int_orders
  book_statistics b =
      let bid_orders = int_orders (pos 0) b.buy_book in
      let ask_orders = int_orders (pos 0) b.sell_book in
      record {
        bid_levels = wrap32 (pos (length b.buy_book));
        ask_levels = wrap32 (pos (length b.sell_book));
        bid_orders = bid_orders;
        ask_orders = ask_orders;
        total_orders = add32 bid_orders ask_orders;
        total_trades = wrap32 (pos (length b.trade_log));
      }

  unfoldable pub get_book_statistics : OrderBook D → Json D
  unfolding book_statistics
  get_book_statistics b =
      let s = book_statistics b in
      obj (
        ("bid_levels", int s.bid_levels)
        ∷ ("ask_levels", int s.ask_levels)
        ∷ ("bid_orders", int s.bid_orders)
        ∷ ("ask_orders", int s.ask_orders)
        ∷ ("total_orders", int s.total_orders)
        ∷ ("total_trades", int s.total_trades)
        ∷ [])
