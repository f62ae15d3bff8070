-- ===== src/Service/Views.antt =====
-- The routes of src/main.cpp that only read the state.
use velocore.Base.{
  ℕ, ◌≡◌, List, [], ◌∷◌, Option, none, some, String, Result, ok, throws, ◌>>=◌, ℤ, pos, pos_part,
  wrap32, length, min_ℤ, max_ℤ, ◌==◌, if◌then◌else◌, arith, ◌≤ℤ◌,
}
use velocore.Double.{Double}
use velocore.Trade.{Trade, trade_to_json, statistics_to_json}
use velocore.Json.{text, int, number, obj, arr}
use velocore.Chars.{stoi}
use velocore.OrderBook.Queries.{
  get_trade_log, get_total_orders, get_trade_count, get_best_bid, get_best_ask, get_spread,
  get_book_snapshot, get_book_statistics,
}
use velocore.Service.{Service, Response, response, json, to_uint64}

-- The number of levels that `GET /orderbook` shows, from the URL's parameter: 5 without one, else a
-- number that is brought into the range from 1 to 20.
unfoldable pub levels_of : Option String → Result ℤ
levels_of none = ok (pos 5)
levels_of (some param) = do levels ← stoi param; ok (max_ℤ (pos 1) (min_ℤ levels (pos 20)))

module _ {D : Type 0} where
  abbrev pub find_trade : ℕ → List (Trade D) → Option (Trade D)
  find_trade id [] = none
  find_trade id (t ∷ ts) = if t.trade_id == id then some t else find_trade id ts

module _ {D : Type 0} ⦃d : Double D⦄ where
  -- `GET /orders`.
  unfoldable pub get_orders : Service D → Response D
  unfolding get_total_orders get_book_statistics
  get_orders s = response 200 (
      json (
        obj (
          ("message", text "Use /orderbook for current order book state")
          ∷ ("active_orders", int (wrap32 (pos (get_total_orders s.order_book))))
          ∷ ("book_statistics", get_book_statistics s.order_book)
          ∷ [])))

  -- `GET /orderbook`. An exception of `stoi` leaves the handler.
  unfoldable pub get_orderbook : Option String → Service D → Result (Response D)
  unfolding levels_of get_book_snapshot get_book_statistics
  get_orderbook param s = do
    levels ← levels_of param
    ok (
        response 200 (
          json (
            obj (
              ("orderbook", get_book_snapshot (pos_part levels) s.order_book)
              ∷ ("statistics", get_book_statistics s.order_book)
              ∷ []))))

  -- `POST /trades`.
  unfoldable pub post_trades : Service D → Response D
  post_trades s = response 405 (
      json (
        obj (
          ("error", text "Manual trade creation not allowed")
          ∷ (
            "message",
            text "Trades are automatically created by the matching engine when orders are matched",
          )
          ∷ [])))

  -- `GET /trades`.
  unfoldable pub get_trades : Service D → Response D
  unfolding get_trade_log trade_to_json statistics_to_json
  get_trades s = response 200 (
      json (
        obj (
          ("trades", arr (λ t. trade_to_json t) (get_trade_log s.order_book))
          ∷ ("total_trades", int (wrap32 (pos (length (get_trade_log s.order_book)))))
          ∷ ("statistics", statistics_to_json s.stats)
          ∷ [])))

  -- `GET /trades/<int>`.
  unfoldable pub get_trade : ℤ → Service D → Response D
  unfolding get_trade_log trade_to_json
  get_trade trade_id s = elim (find_trade (to_uint64 trade_id) (get_trade_log s.order_book)) [
    | some t ↦ response 200 (json (trade_to_json t))
    | none ↦ response 404 (json (obj (("error", text "Trade not found") ∷ [])))
  ]

  -- `GET /statistics`.
  unfoldable pub get_statistics : Service D → Response D
  unfolding get_book_statistics get_best_bid get_best_ask get_spread statistics_to_json
  get_statistics s = response 200 (
      json (
        obj (
          ("orderbook", get_book_statistics s.order_book)
          ∷ (
            "market_data",
            obj (
                ("best_bid", number (get_best_bid s.order_book))
                ∷ ("best_ask", number (get_best_ask s.order_book))
                ∷ ("spread", number (get_spread s.order_book))
                ∷ []),
          )
          ∷ ("trades", statistics_to_json s.stats)
          ∷ [])))

  -- `GET /market`.
  unfoldable pub get_market : Service D → Response D
  unfolding get_best_bid get_best_ask get_spread get_total_orders get_trade_count statistics_to_json
  get_market s = response 200 (
      json (
        obj (
          ("symbol", text "SIM")
          ∷ ("best_bid", number (get_best_bid s.order_book))
          ∷ ("best_ask", number (get_best_ask s.order_book))
          ∷ ("spread", number (get_spread s.order_book))
          ∷ ("total_active_orders", int (wrap32 (pos (get_total_orders s.order_book))))
          ∷ ("total_trades", int (wrap32 (pos (get_trade_count s.order_book))))
          ∷ ("last_trade_stats", statistics_to_json s.stats)
          ∷ [])))

-- The levels that `GET /orderbook` asks the book for are from 1 to 20 whatever the parameter says; a
-- number in that range is taken as it is; and a parameter that is no number throws.
pub levels_of_lem :
    (param : Option String)
    → ((n : ℤ) → levels_of param ≡ ok n → (pos 1 ≤ℤ n) × (n ≤ℤ pos 20))
      × ((s : String) (n : ℤ)
          → param ≡ some s
          → stoi s ≡ ok n
          → pos 1 ≤ℤ n
          → n ≤ℤ pos 20
          → levels_of param ≡ ok n)
      × ((s e : String) → param ≡ some s → stoi s ≡ throws e → levels_of param ≡ throws e)
unfolding levels_of
levels_of_lem none = (ground arith, ground arith, ground arith)
levels_of_lem (some t) = (ground arith, ground arith, ground arith)
