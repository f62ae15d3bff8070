-- ===== src/Service/Constants.antt =====
-- The routes of src/main.cpp that show constants, the platform, and samples of the models.
use velocore.Base.{ℕ, List, [], ◌∷◌, String, ℤ, pos, wrap32}
use velocore.Double.{Double}
use velocore.Types.{Side, OrderType}
use velocore.Order.{new_order, order_to_json}
use velocore.Trade.{new_trade, trade_to_json}
use velocore.Json.{Json, text, int, obj, arr}
use velocore.Service.{Service, Response, response, json}

module _ {D : Type 0} where
  -- `GET /ping`.
  unfoldable pub ping : Response D
  ping = response 200 (json (obj (("message", text "pong") ∷ [])))

  -- `GET /health`. What `hardware_concurrency` and `time` answer are arguments.
  unfoldable pub health : ℕ → ℤ → Response D
  health threads time = response 200 (
      json (
        obj (
          ("status", text "healthy")
          ∷ ("service", text "velocore")
          ∷ ("threads", int (wrap32 (pos threads)))
          ∷ ("timestamp", int time)
          ∷ [])))

  -- A list of texts.
  abbrev texts : List String → Json D
  texts = arr text

  -- `GET /architecture`.
  unfoldable pub architecture : Response D
  architecture = response 200 (
      json (
        obj (
          ("system", text "Velocore Trading Simulator")
          ∷ (
            "components",
            texts (
                "Data Models (Order, Trade structs)"
                ∷ "Matching Engine (Order book with price-time priority)"
                ∷ "API Endpoints (REST API via Crow)"
                ∷ "Concurrency & Safety (Thread-safe operations)"
                ∷ "Latency Simulation (Network/processing delays)" ∷ []),
          )
          ∷ (
            "separation_of_concerns",
            obj (
                ("api_layer", text "HTTP handling via Crow")
                ∷ ("business_logic", text "Matching engine operations")
                ∷ ("data_layer", text "Order and Trade data models")
                ∷ []),
          )
          ∷ [])))

module _ {D : Type 0} ⦃d : Double D⦄ where
  -- A quotient of whole numbers. Those of the samples are exact.
  abbrev quotient : ℕ → ℕ → D
  quotient m n = d.div (d.of_int (pos m)) (d.of_int (pos n))

  -- `GET /models/demo`: two orders, at 100.50 and 101.00, and a trade at 100.75. They use up ids.
  unfoldable pub models_demo : (ℕ → ℕ) → Service D → Service D × Response D
  unfolding new_order new_trade order_to_json trade_to_json
  models_demo clock s =
      let (buy, w) =
        new_order clock 1 "SIM" Side.buy OrderType.limit (quotient 201 2) (pos 100) s.world in
      let (sell, w') =
        new_order clock 2 "SIM" Side.sell OrderType.limit (d.of_int (pos 101)) (pos 50) w in
      let (trade, w'') = new_trade clock buy.id sell.id "SIM" (quotient 403 4) (pos 50) w' in
      (
        record s { world = w'' },
        response 200 (
            json (
              obj (
                ("message", text "Data Models Demonstration")
                ∷ ("sample_buy_order", order_to_json buy)
                ∷ ("sample_sell_order", order_to_json sell)
                ∷ ("sample_trade", trade_to_json trade)
                ∷ (
                  "enums",
                  obj (
                      ("sides", texts ("BUY" ∷ "SELL" ∷ []))
                      ∷ ("order_types", texts ("LIMIT" ∷ "MARKET" ∷ []))
                      ∷ (
                        "order_statuses",
                        texts ("ACTIVE" ∷ "FILLED" ∷ "CANCELLED" ∷ "PARTIALLY_FILLED" ∷ []),
                      )
                      ∷ []),
                )
                ∷ []))),
      )
