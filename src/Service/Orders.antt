-- ===== src/Service/Orders.antt =====
-- The routes of src/main.cpp that submit and cancel orders.
use velocore.Base.{
  ℕ, Bool, true, false, List, [], ◌∷◌, ◌++◌, none, some, String, Result, ok, throws, ◌>>=◌, ℤ, pos,
  wrap32, length,
}
use velocore.Double.{Double}
use velocore.World.{World}
use velocore.Types.{Side, OrderType, side_from_string, order_type_from_string}
use velocore.Order.{Order, order_to_json, order_from_json}
use velocore.Trade.{Trade, update_all, trade_to_json}
use velocore.Json.{Json, text, int, obj, arr, Reader}
use velocore.OrderBook.Engine.{add_order, cancel_order}
use velocore.Service.{Service, Response, response, plain, json, validate_order, to_uint64}

module _ {D : Type 0} where
  -- `{{"error", message}}`.
  abbrev pub error_json : String → Json D
  error_json message = obj (("error", text message) ∷ [])

-- The members that the handler reads before it makes the order.
pub record Request (D : Type 0) : Type 0 where
  pub symbol : String
  pub side : Side
  pub type : OrderType
  pub price : D
  pub quantity : ℤ

module _ {J D : Type 0} ⦃r : Reader J D⦄ where
  unfoldable pub read_request : J → Result (Request D)
  unfolding side_from_string order_type_from_string
  read_request body = do
    symbol ← r.at body "symbol" >>= r.as_text
    side ← r.at body "side" >>= r.as_text >>= side_from_string
    type ← r.at body "type" >>= r.as_text >>= order_type_from_string
    price ← r.at body "price" >>= r.as_double
    quantity ← r.at body "quantity" >>= r.as_int
    ok (record {
      symbol = symbol;
      side = side;
      type = type;
      price = price;
      quantity = wrap32 quantity;
    })

module _ {D : Type 0} ⦃d : Double D⦄ where
  -- The member `trades` is there if there are any.
  abbrev trades_member : List (Trade D) → List (String × Json D)
  trades_member [] = []
  trades_member (t ∷ ts) = ("trades", arr (λ t. trade_to_json t) (t ∷ ts)) ∷ []

  -- The response shows the handler's own order: `addOrder` works on a copy of it.
  unfoldable pub submitted : Order D → List (Trade D) → Response D
  unfolding order_to_json trade_to_json
  submitted order trades = response 201 (
      json (
        obj (
          (("order", order_to_json order)
            ∷ ("immediate_executions", int (wrap32 (pos (length trades))))
            ∷ [])
          ++ trades_member trades)))

  -- An order that is made goes through the matching engine, and its trades into the statistics.
  unfoldable pub submit : (ℕ → ℕ) → Order D → World → Service D → Service D × Response D
  unfolding add_order update_all submitted
  submit clock order w s =
      let added = add_order clock order s.order_book w in
      (
        record s {
          order_book = added.book;
          stats = update_all s.stats added.trades;
          world = added.world;
        },
        submitted order added.trades,
      )

module _ {J D : Type 0} ⦃d : Double D⦄ (r : Reader J D) where
  -- The checks of a body that is JSON, and the order that is made from it.
  unfoldable pub accept : (ℕ → ℕ) → J → World → Result (Order D × World)
  unfolding read_request validate_order order_from_json
  accept clock body w = do
    q ← read_request ⦃r = r⦄ body
    u ← elim (validate_order q.symbol q.side q.type q.price q.quantity) [
      | some message ↦ throws message
      | none ↦ ok (tt {0})
    ]
    order_from_json ⦃r = r⦄ clock body w

  -- `POST /orders`. A check that fails and an access that throws give the same response, with the
  -- message.
  unfoldable pub post_orders : (ℕ → ℕ) → String → Service D → Service D × Response D
  unfolding accept submit
  post_orders clock body s = elim (r.load body) [
    | none ↦ (s, response 400 (plain "Invalid JSON"))
    | some parsed ↦ elim (accept clock parsed s.world) [
      | throws message ↦ (s, response 400 (json (error_json message)))
      | ok (order, w) ↦ submit clock order w s
    ]
  ]

module _ {D : Type 0} where
  -- `POST /orders/<int>/cancel`.
  unfoldable pub cancel_route : ℤ → Service D → Service D × Response D
  unfolding cancel_order
  cancel_route order_id s =
      let (cancelled, book) = cancel_order (to_uint64 order_id) s.order_book in
      (record s { order_book = book }, answer cancelled)
    where
      answer : Bool → Response D
      answer true = response 200 (
          json (
            obj
              (("message", text "Order cancelled successfully") ∷ ("order_id", int order_id) ∷ [])))
      answer false = response 404 (
          json (
            obj (
              ("error", text "Order not found or already executed")
              ∷ ("order_id", int order_id)
              ∷ [])))
