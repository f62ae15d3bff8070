-- ===== src/OrderBook/Abstract.antt =====
-- What `class OrderBook` (src/models/include/OrderBook.h) promises its clients, with no price levels
-- in it: each side is one queue of orders in price-time priority, and the trades are one log.
pub mod Insertion
pub mod Refines
use mathlib.Core.Option
use velocore.Base.{
  ℕ, Bool, true, false, ◌&&◌, List, [], ◌∷◌, ◌++◌, Option, none, some, pos, ltb_ℤ, ◌==◌,
  if◌then◌else◌,
}
use velocore.Double.{Double}
use velocore.World.{World}
use velocore.Types.{Side}
use velocore.Order.{Order, is_buy, is_limit}
use velocore.Trade.{Trade}
use velocore.OrderBook.Levels.{before, entries}
use velocore.OrderBook.Matching.{Rules, buy_rules, sell_rules}
use velocore.OrderBook.Matching.Queue.{Swept, sweep}
use velocore.OrderBook.Engine.{
  OrderBook, stamp, add_order, cancel_order, Call, adds, cancels, clears, call,
}

pub record Queues (D : Type 0) : Type 0 where
  pub bids : List (D × Order D)
  pub asks : List (D × Order D)
  pub trade_log : List (Trade D)

-- What a client is told by a call.
pub data Answer (D : Type 0) : Type 0 where
  traded : List (Trade D) → Answer D
  cancelled : Bool → Answer D
  cleared : Answer D

-- What clients are told, and the book behind it.
pub record Told (A D : Type 0) : Type 0 where
  pub answer : A
  pub book : Queues D
  pub world : World

abbrev pub told : {A D : Type 0} → A → Queues D → World → Told A D
told answer book world = record { answer = answer; book = book; world = world }

module _ {D : Type 0} where
  -- The book as its clients see it.
  abbrev pub queues : OrderBook D → Queues D
  queues b = record {
    bids = entries b.buy_book;
    asks = entries b.sell_book;
    trade_log = b.trade_log;
  }

  -- The queue without the first order of the id.
  unfoldable pub without : ℕ → List (D × Order D) → Option (List (D × Order D))
  without id [] = none
  without id (e ∷ queue) =
      if e.1.id == id then some queue else Option.map (◌∷◌ e) (without id queue)

module _ {D : Type 0} ⦃d : Double D⦄ where
  -- An order stands behind all that are better or as good. It is served at the price of the orders
  -- that are as good: 0.0 and -0.0 are one price.
  unfoldable pub enqueue : Side → D → Order D → List (D × Order D) → List (D × Order D)
  enqueue side p o [] = (p, o) ∷ []
  enqueue side p o (e ∷ queue) =
      if before side p e.0
      then (p, o) ∷ e ∷ queue
      else e ∷ enqueue side (if before side e.0 p then p else e.0) o queue

  -- What is left of a limit order waits on its own side.
  unfoldable pub wait : Side → Order D → List (D × Order D) → List (D × Order D)
  wait side o queue =
      if is_limit o && ltb_ℤ (pos 0) o.remaining_quantity
      then enqueue side o.price o queue
      else queue

  module _ (clock : ℕ → ℕ) where
    -- A buy order sweeps the asks and then waits with the bids; a sell order the other way round.
    unfoldable pub trade : Order D → Queues D → World → Told (Answer D) D
    trade order q w =
        let bought = sweep (buy_rules clock) order q.asks w in
        let sold = sweep (sell_rules clock) order q.bids w in
        if is_buy order
        then told (traded bought.fresh)
            (record {
              bids = wait Side.buy bought.incoming q.bids;
              asks = bought.queue;
              trade_log = q.trade_log ++ bought.fresh;
            })
            bought.world
        else told (traded sold.fresh)
            (record {
              bids = sold.queue;
              asks = wait Side.sell sold.incoming q.asks;
              trade_log = q.trade_log ++ sold.fresh;
            })
            sold.world

    -- The first order of the id among the bids, and if there is none, among the asks.
    unfoldable pub withdraw : ℕ → Queues D → World → Told (Answer D) D
    withdraw id q w = elim (without id q.bids) [
      | some bids ↦ told (cancelled true) (record q { bids = bids }) w
      | none ↦ elim (without id q.asks) [
        | some asks ↦ told (cancelled true) (record q { asks = asks }) w
        | none ↦ told (cancelled false) q w
      ]
    ]

    unfoldable pub promised : Call D → Queues D → World → Told (Answer D) D
    promised (adds order) q w = let (stamped, w') = stamp clock order w in trade stamped q w'
    promised (cancels id) q w = withdraw id q w
    promised clears q w = told cleared (record { bids = []; asks = []; trade_log = [] }) w

    -- All that a history of calls tells, and the book in the end.
    unfoldable pub promise : List (Call D) → Queues D → World → Told (List (Answer D)) D
    promise [] q w = told [] q w
    promise (c ∷ cs) q w =
        let first = promised c q w in
        let rest = promise cs first.book first.world in
        told (first.answer ∷ rest.answer) rest.book rest.world

    -- What the code tells its clients, call by call, and the book in the end.
    unfoldable pub answer : Call D → OrderBook D × World → Answer D
    answer (adds order) (b, w) = traded (add_order clock order b w).trades
    answer (cancels id) (b, w) = cancelled (cancel_order id b).0
    answer clears (b, w) = cleared

    unfoldable pub observe : List (Call D) → OrderBook D × World → Told (List (Answer D)) D
    observe [] (b, w) = told [] (queues b) w
    observe (c ∷ cs) state =
        let rest = observe cs (call clock c state) in
        told (answer c state ∷ rest.answer) rest.book rest.world
