-- ===== src/OrderBook/Engine.antt =====
-- The operations of `class OrderBook` that change it (src/models/impl/OrderBook.cpp). Each holds the
-- exclusive lock from its first line to its last, so each is one step.
pub mod Valid
pub mod History
pub mod Sides
pub mod Trades
pub mod Settled
use velocore.Base.{
  ℕ, Bool, true, false, ◌&&◌, List, [], ◌∷◌, none, some, pos, ltb_ℤ, ◌==◌, if◌then◌else◌,
}
use velocore.Double.{Double}
use velocore.World.{World, now}
use velocore.Types.{Side}
use velocore.Order.{Order, is_buy, is_limit}
use velocore.Trade.{Trade}
use velocore.OrderBook.Levels.{Level, push_back, cancel_in}
use velocore.OrderBook.Matching.{MatchState, match_buy_order, match_sell_order}

-- `nextTradeId` is set and never read: a trade's id comes from the counter of `Trade`.
pub record OrderBook (D : Type 0) : Type 0 where
  pub buy_book : List (Level D)
  pub sell_book : List (Level D)
  pub next_trade_id : ℕ
  pub trade_log : List (Trade D)

-- What `addOrder` returns and leaves.
pub record Added (D : Type 0) : Type 0 where
  pub trades : List (Trade D)
  pub book : OrderBook D
  pub world : World

module _ {D : Type 0} where
  -- The constructor.
  unfoldable pub empty_book : OrderBook D
  empty_book = record { buy_book = []; sell_book = []; next_trade_id = 1; trade_log = [] }

  -- The loop starts with no trades, at the side of the book that it takes from.
  abbrev pub match_start : Order D → List (Level D) → OrderBook D → World → MatchState D
  match_start order levels b w = record {
    incoming = order;
    levels = levels;
    trades = [];
    trade_log = b.trade_log;
    world = w;
  }

  -- The timestamp is set if it is the epoch.
  unfoldable pub stamp : (ℕ → ℕ) → Order D → World → Order D × World
  unfolding now
  stamp clock order w =
      let (time, w') = now clock w in
      if order.timestamp == 0 then (record order { timestamp = time }, w') else (order, w)

module _ {D : Type 0} ⦃d : Double D⦄ where
  unfoldable pub add_to_book : Order D → OrderBook D → OrderBook D
  add_to_book order b =
      if is_buy order
      then record b { buy_book = push_back Side.buy order.price order b.buy_book }
      else record b { sell_book = push_back Side.sell order.price order b.sell_book }

  -- The order, the opposite side and the log that the loop leaves.
  unfoldable pub match_order : (ℕ → ℕ) → Order D → OrderBook D → World → MatchState D
  match_order clock order b w =
      if is_buy order
      then match_buy_order clock (match_start order b.sell_book b w)
      else match_sell_order clock (match_start order b.buy_book b w)

  -- The book with the side that the loop has taken from, and its log.
  abbrev pub after_match : Order D → MatchState D → OrderBook D → OrderBook D
  after_match order s b =
      if is_buy order
      then record b { sell_book = s.levels; trade_log = s.trade_log }
      else record b { buy_book = s.levels; trade_log = s.trade_log }

  -- What is left of a limit order rests in the book.
  unfoldable pub keep_rest : Order D → OrderBook D → OrderBook D
  keep_rest order b =
      if is_limit order && ltb_ℤ (pos 0) order.remaining_quantity then add_to_book order b else b

  -- `addOrder` behind the setting of the timestamp.
  unfoldable pub process : (ℕ → ℕ) → Order D → OrderBook D → World → Added D
  process clock order b w =
      let s = match_order clock order b w in
      record {
        trades = s.trades;
        book = keep_rest s.incoming (after_match order s b);
        world = s.world;
      }

  unfoldable pub add_order : (ℕ → ℕ) → Order D → OrderBook D → World → Added D
  unfolding stamp process
  add_order clock order b w = let (stamped, w') = stamp clock order w in process clock stamped b w'

module _ {D : Type 0} where
  -- `cancelOrder`: the buy side first, then the sell side.
  unfoldable pub cancel_order : ℕ → OrderBook D → Bool × OrderBook D
  cancel_order id b = elim (cancel_in id b.buy_book) [
    | some bids ↦ (true, record b { buy_book = bids })
    | none ↦ elim (cancel_in id b.sell_book) [
      | some asks ↦ (true, record b { sell_book = asks })
      | none ↦ (false, b)
    ]
  ]

  unfoldable pub clear : OrderBook D → OrderBook D
  clear b = record b { buy_book = []; sell_book = []; trade_log = []; next_trade_id = 1 }

-- The calls that clients make. The lock makes every interleaving of them a sequence.
pub data Call (D : Type 0) : Type 0 where
  adds : Order D → Call D
  cancels : ℕ → Call D
  clears : Call D

module _ {D : Type 0} ⦃d : Double D⦄ (clock : ℕ → ℕ) where
  unfoldable pub call : Call D → OrderBook D × World → OrderBook D × World
  call (adds order) (b, w) = let added = add_order clock order b w in (added.book, added.world)
  call (cancels id) (b, w) = ((cancel_order id b).1, w)
  call clears (b, w) = (clear b, w)

  unfoldable pub run : List (Call D) → OrderBook D × World → OrderBook D × World
  run [] state = state
  run (c ∷ cs) state = run cs (call c state)
