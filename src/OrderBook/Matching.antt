-- ===== src/OrderBook/Matching.antt =====
-- `matchBuyOrder`, `matchSellOrder`, `executeTrade` and `pricesCross` of
-- src/models/impl/OrderBook.cpp: the loop of an incoming order against the opposite side.
pub mod Rounds
pub mod Queue
pub mod Keeps
pub mod Fills
use velocore.Base.{
  ℕ, zero, suc, Bool, ◌||◌, List, [], ◌∷◌, ◌++◌, Option, none, some, ℤ, pos, ◌-ℤ◌, ltb_ℤ, eqb_ℤ,
  min_ℤ, if◌then◌else◌,
}
use velocore.Double.{Double}
use velocore.World.{World}
use velocore.Types.{OrderStatus}
use velocore.Order.{Order, is_market}
use velocore.Trade.{Trade, new_trade}
use velocore.OrderBook.Levels.{Level, level, keep_level, count_orders}

-- The variables of the loop: the incoming order, the opposite side of the book, the trades of this
-- call, the log of the book, and the counters that a trade's constructor uses.
pub record MatchState (D : Type 0) : Type 0 where
  pub incoming : Order D
  pub levels : List (Level D)
  pub trades : List (Trade D)
  pub trade_log : List (Trade D)
  pub world : World

-- What the two loops differ in: the test of the incoming order's price against a level's, and which
-- of the incoming and the resting order is the buy order of a trade.
pub record Rules (D : Type 0) : Type 0 where
  pub crosses : D → D → Bool
  pub execute : Order D → Order D → D → ℤ → World → Trade D × World

module _ {D : Type 0} ⦃d : Double D⦄ where
  -- `buyPrice >= sellPrice`.
  unfoldable pub prices_cross : D → D → Bool
  prices_cross buy_price sell_price = d.le sell_price buy_price

module _ {D : Type 0} where
  -- The trade takes the symbol of the buy order.
  unfoldable pub execute_trade : (ℕ → ℕ) → Order D → Order D → D → ℤ → World → Trade D × World
  execute_trade clock buy_order sell_order price quantity w =
      new_trade clock buy_order.id sell_order.id buy_order.symbol price quantity w

  -- What a trade does to the incoming order, and to the order at the front of the queue.
  unfoldable pub settle_incoming : Order D → ℤ → Order D
  settle_incoming o qty = record o {
    remaining_quantity = left;
    status =
        if eqb_ℤ left (pos 0)
        then OrderStatus.filled
        else if ltb_ℤ left o.quantity
        then OrderStatus.partially_filled
        else o.status;
  }
    where
      left : ℤ
      left = o.remaining_quantity -ℤ qty

  unfoldable pub settle_resting : Order D → ℤ → Order D
  settle_resting o qty = record o {
    remaining_quantity = left;
    status = if eqb_ℤ left (pos 0) then OrderStatus.filled else OrderStatus.partially_filled;
  }
    where
      left : ℤ
      left = o.remaining_quantity -ℤ qty

  -- A filled order leaves the front of the queue, and an empty queue leaves the book.
  unfoldable pub after_trade : D → Order D → List (Order D) → List (Level D) → List (Level D)
  after_trade price o os ls =
      if eqb_ℤ o.remaining_quantity (pos 0)
      then keep_level price os ls
      else level price (o ∷ os) ∷ ls

  -- The trade with the order at the front of the best level.
  unfoldable pub trade_with :
      Rules D → D → Order D → List (Order D) → List (Level D) → MatchState D → MatchState D
  trade_with rules price o os ls s =
      let qty = min_ℤ s.incoming.remaining_quantity o.remaining_quantity in
      let (t, w) = rules.execute s.incoming o price qty s.world in
      record {
        incoming = settle_incoming s.incoming qty;
        levels = after_trade price (settle_resting o qty) os ls;
        trades = s.trades ++ t ∷ [];
        trade_log = s.trade_log ++ t ∷ [];
        world = w;
      }

  -- `askQueue.front()`. No level of the book has an empty queue; there the call would be undefined.
  unfoldable pub front :
      Rules D → D → List (Order D) → List (Level D) → MatchState D → Option (MatchState D)
  front rules price [] ls s = none
  front rules price (o ∷ os) ls s = some (trade_with rules price o os ls s)

  -- The best level: `break` if the prices do not cross.
  unfoldable pub best_level : Rules D → List (Level D) → MatchState D → Option (MatchState D)
  unfolding front
  best_level rules [] s = none
  best_level rules (l ∷ ls) s =
      if is_market s.incoming || rules.crosses s.incoming.price l.price
      then front rules l.price l.orders ls s
      else none

  -- One round of the loop; `none` when it ends.
  unfoldable pub round : Rules D → MatchState D → Option (MatchState D)
  unfolding best_level
  round rules s =
      if ltb_ℤ (pos 0) s.incoming.remaining_quantity then best_level rules s.levels s else none

  unfoldable pub match_loop : ℕ → Rules D → MatchState D → MatchState D
  match_loop zero rules s = s
  match_loop (suc fuel) rules s = elim (round rules s) [
    | none ↦ s
    | some s' ↦ match_loop fuel rules s'
  ]

  -- A round takes an order off the book or ends the incoming one, so these rounds are enough.
  abbrev pub rounds : List (Level D) → ℕ
  rounds levels = suc (count_orders levels)

module _ {D : Type 0} ⦃d : Double D⦄ (clock : ℕ → ℕ) where
  abbrev pub buy_rules : Rules D
  buy_rules = record {
    crosses = λ buy_price ask_price. prices_cross buy_price ask_price;
    execute = λ buy_order sell_order. execute_trade clock buy_order sell_order;
  }

  abbrev pub sell_rules : Rules D
  sell_rules = record {
    crosses = λ sell_price bid_price. prices_cross bid_price sell_price;
    execute = λ sell_order buy_order. execute_trade clock buy_order sell_order;
  }

  unfoldable pub match_buy_order : MatchState D → MatchState D
  match_buy_order s = match_loop (rounds s.levels) buy_rules s

  unfoldable pub match_sell_order : MatchState D → MatchState D
  match_sell_order s = match_loop (rounds s.levels) sell_rules s
