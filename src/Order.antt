-- ===== src/Order.antt =====
-- src/models/include/Order.h and src/models/impl/Order.cpp.
pub mod Lifecycle
pub mod Priority
use velocore.Base.{
  ℕ, ◌≡◌, Bool, true, false, not, ◌&&◌, ◌||◌, List, [], ◌∷◌, String, Result, ok, throws, ◌>>=◌, ℤ,
  pos, ◌-ℤ◌, ltb, ltb_ℤ, leb_ℤ, eqb_ℤ, wrap32, if◌then◌else◌,
}
use velocore.Double.{Double}
use velocore.World.{World, generate_order_id, now}
use velocore.Types.{
  Side, OrderType, OrderStatus, side_to_string, order_type_to_string, order_status_to_string,
  side_from_string, order_type_from_string,
}
use velocore.Json.{Json, text, int, number, obj, to_int64, millis, Reader}

-- `struct Order`. An `int` is an integer, a time point is its nanoseconds.
pub record Order (D : Type 0) : Type 0 where
  pub id : ℕ
  pub client_id : ℕ
  pub symbol : String
  pub side : Side
  pub type : OrderType
  pub price : D
  pub quantity : ℤ
  pub remaining_quantity : ℤ
  pub status : OrderStatus
  pub timestamp : ℕ

module _ {D : Type 0} where
  -- The constructor: the next id and the time of the call.
  unfoldable pub new_order :
      (ℕ → ℕ) → ℕ → String → Side → OrderType → D → ℤ → World → Order D × World
  new_order clock client_id symbol side type price quantity w =
      let (id, w') = generate_order_id w in
      let (time, w'') = now clock w' in
      (
        record {
          id = id;
          client_id = client_id;
          symbol = symbol;
          side = side;
          type = type;
          price = price;
          quantity = quantity;
          remaining_quantity = quantity;
          status = OrderStatus.active;
          timestamp = time;
        },
        w'',
      )

  abbrev pub is_buy : Order D → Bool
  is_buy o = elim o.side [ Side.buy ↦ true | _ ↦ false ]

  abbrev pub is_sell : Order D → Bool
  is_sell o = elim o.side [ Side.sell ↦ true | _ ↦ false ]

  abbrev pub is_limit : Order D → Bool
  is_limit o = elim o.type [ OrderType.limit ↦ true | _ ↦ false ]

  abbrev pub is_market : Order D → Bool
  is_market o = elim o.type [ OrderType.market ↦ true | _ ↦ false ]

  abbrev pub is_active : Order D → Bool
  is_active o = elim o.status [ OrderStatus.active ↦ true | _ ↦ false ]

  abbrev pub is_filled : Order D → Bool
  is_filled o = elim o.status [ OrderStatus.filled ↦ true | _ ↦ false ]

  abbrev pub is_cancelled : Order D → Bool
  is_cancelled o = elim o.status [ OrderStatus.cancelled ↦ true | _ ↦ false ]

  abbrev pub is_partially_filled : Order D → Bool
  is_partially_filled o = elim o.status [ OrderStatus.partially_filled ↦ true | _ ↦ false ]

  unfoldable pub filled_quantity : Order D → ℤ
  filled_quantity o = o.quantity -ℤ o.remaining_quantity

  -- `Order::fill`.
  unfoldable pub fill : Order D → ℤ → Result (Order D)
  fill o fill_qty =
      if leb_ℤ fill_qty (pos 0) || ltb_ℤ o.remaining_quantity fill_qty
      then throws "Invalid fill quantity"
      else ok (record o {
        remaining_quantity = left;
        status = if eqb_ℤ left (pos 0) then OrderStatus.filled else OrderStatus.partially_filled;
      })
    where
      left : ℤ
      left = o.remaining_quantity -ℤ fill_qty

  -- `Order::cancel`.
  unfoldable pub cancel : Order D → Order D
  cancel o =
      if is_active o || is_partially_filled o
      then record o { status = OrderStatus.cancelled }
      else o

module _ {D : Type 0} ⦃d : Double D⦄ where
  unfoldable pub fill_percentage : Order D → D
  unfolding filled_quantity
  fill_percentage o =
      if ltb_ℤ (pos 0) o.quantity
      then d.mul (d.div (d.of_int (filled_quantity o)) (d.of_int o.quantity)) (d.of_int (pos 100))
      else d.nought

  unfoldable pub order_to_json : Order D → Json D
  unfolding filled_quantity fill_percentage side_to_string order_type_to_string
      order_status_to_string
  order_to_json o = obj (
      ("id", int (to_int64 o.id))
      ∷ ("client_id", int (to_int64 o.client_id))
      ∷ ("symbol", text o.symbol)
      ∷ ("side", text (side_to_string o.side))
      ∷ ("type", text (order_type_to_string o.type))
      ∷ ("price", number o.price)
      ∷ ("quantity", int o.quantity)
      ∷ ("remaining_quantity", int o.remaining_quantity)
      ∷ ("filled_quantity", int (filled_quantity o))
      ∷ ("fill_percentage", number (fill_percentage o))
      ∷ ("status", text (order_status_to_string o.status))
      ∷ ("timestamp", int (millis o.timestamp))
      ∷ [])

  before_on_side : Side → Side → Order D → Order D → Bool
  before_on_side Side.buy Side.sell lhs rhs = true
  before_on_side Side.sell Side.buy lhs rhs = false
  before_on_side Side.buy Side.buy lhs rhs =
      if not (d.eq lhs.price rhs.price)
      then d.lt rhs.price lhs.price
      else ltb lhs.timestamp rhs.timestamp
  before_on_side Side.sell Side.sell lhs rhs =
      if not (d.eq lhs.price rhs.price)
      then d.lt lhs.price rhs.price
      else ltb lhs.timestamp rhs.timestamp

  -- `operator<`: buys before sells; the better price first; at one price the older order first.
  unfoldable pub order_lt : Order D → Order D → Bool
  unfolding before_on_side
  order_lt lhs rhs = before_on_side lhs.side rhs.side lhs rhs

module _ {J D : Type 0} ⦃r : Reader J D⦄ where
  -- `Order::from_json`. The member is an `int`, and `.i()` gives an `int64_t`.
  unfoldable pub order_from_json : (ℕ → ℕ) → J → World → Result (Order D × World)
  unfolding side_from_string order_type_from_string
  order_from_json clock json w = do
    client_id ← r.at json "client_id" >>= r.as_uint
    symbol ← r.at json "symbol" >>= r.as_text
    side ← r.at json "side" >>= r.as_text >>= side_from_string
    type ← r.at json "type" >>= r.as_text >>= order_type_from_string
    price ← r.at json "price" >>= r.as_double
    quantity ← r.at json "quantity" >>= r.as_int
    ok (new_order clock client_id symbol side type price (wrap32 quantity) w)
