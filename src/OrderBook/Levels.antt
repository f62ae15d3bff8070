-- ===== src/OrderBook/Levels.antt =====
-- One side of the book: `std::map<double, std::deque<Order>>` of src/models/include/OrderBook.h, as
-- the list of its price levels in the order of the map's comparator.
pub mod Valid
pub mod Removal
pub mod Cancelled
use mathlib.Core.Option
use velocore.Base.{
  ℕ, ◌+◌, Bool, ◌||◌, List, [], ◌∷◌, ◌++◌, Option, none, some, ℤ, add32, ◌==◌, length,
  if◌then◌else◌,
}
use velocore.Double.{Double}
use velocore.Types.{Side}
use velocore.Order.{Order}

pub record Level (D : Type 0) : Type 0 where
  pub price : D
  pub orders : List (Order D)

abbrev pub level : {D : Type 0} → D → List (Order D) → Level D
level price orders = record { price = price; orders = orders }

module _ {D : Type 0} ⦃d : Double D⦄ where
  -- The comparators: `std::greater<double>` for bids, `std::less<double>` for asks.
  abbrev pub before : Side → D → D → Bool
  before Side.buy p q = d.lt q p
  before Side.sell p q = d.lt p q

  -- `book[price].push_back(order)`: the map creates a missing level in its place.
  unfoldable pub push_back : Side → D → Order D → List (Level D) → List (Level D)
  push_back side price o [] = level price (o ∷ []) ∷ []
  push_back side price o (l ∷ ls) =
      if before side price l.price
      then level price (o ∷ []) ∷ l ∷ ls
      else if before side l.price price
      then l ∷ push_back side price o ls
      else level l.price (l.orders ++ o ∷ []) ∷ ls

module _ {D : Type 0} where
  -- A level whose queue has become empty leaves the book.
  abbrev pub keep_level : D → List (Order D) → List (Level D) → List (Level D)
  keep_level price [] ls = ls
  keep_level price (o ∷ os) ls = level price (o ∷ os) ∷ ls

  -- `pop_front`. No level has an empty queue; there the call would be undefined.
  abbrev pop_front : List (Order D) → List (Order D)
  pop_front [] = []
  pop_front (o ∷ os) = os

module _ {D : Type 0} ⦃d : Double D⦄ where
  -- `removeFromPriceLevel`, which nothing calls. `find` looks for the level that the comparator puts
  -- neither before nor after the price.
  unfoldable pub remove_from_price_level : Side → D → List (Level D) → List (Level D)
  remove_from_price_level side price [] = []
  remove_from_price_level side price (l ∷ ls) =
      let rest = remove_from_price_level side price ls in
      if before side price l.price || before side l.price price
      then l ∷ rest
      else keep_level l.price (pop_front l.orders) ls

module _ {D : Type 0} where
  -- The inner loop of `cancelOrder`: the queue without the first order of the id, if there is one.
  unfoldable pub remove_order : ℕ → List (Order D) → Option (List (Order D))
  remove_order id [] = none
  remove_order id (o ∷ os) = if o.id == id then some os else Option.map (◌∷◌ o) (remove_order id os)

  -- The outer loop, over one side of the book. The order that it cancels is erased with its new
  -- status.
  unfoldable pub cancel_in : ℕ → List (Level D) → Option (List (Level D))
  unfolding remove_order
  cancel_in id [] = none
  cancel_in id (l ∷ ls) =
      let rest = cancel_in id ls in
      elim (remove_order id l.orders) [
        | some os ↦ some (keep_level l.price os ls)
        | none ↦ Option.map (◌∷◌ l) rest
      ]

  -- The sum of the sizes of the queues.
  abbrev pub count_orders : List (Level D) → ℕ
  count_orders [] = 0
  count_orders (l ∷ ls) = length l.orders + count_orders ls

  -- `totalQty += order.remaining_quantity` over a queue, from an `int` of 0.
  abbrev pub total_from : ℤ → List (Order D) → ℤ
  total_from total [] = total
  total_from total (o ∷ os) = total_from (add32 total o.remaining_quantity) os

  -- All the orders of the side with their levels' prices, in the order in which they are served.
  abbrev pub at_price : D → List (Order D) → List (D × Order D)
  at_price p [] = []
  at_price p (o ∷ os) = (p, o) ∷ at_price p os

  abbrev pub entries : List (Level D) → List (D × Order D)
  entries [] = []
  entries (l ∷ ls) = at_price l.price l.orders ++ entries ls
