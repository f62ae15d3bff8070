-- ===== src/Service/Load.antt =====
-- `POST /test/concurrency` of src/main.cpp: worker threads that submit orders side by side. A step is
-- one shared access of one thread, and any thread may make the next one. The trades of one call of
-- `addOrder` take their ids and times within its step, as it holds the book's lock. `stats.update`
-- holds no lock, so that each read and each write of a member of the statistics is a step.
pub mod Request
pub mod Counting
pub mod Balance
pub mod Kept
pub mod Running
pub mod Done
pub mod Weights
pub mod Outcome
use velocore.Base.{
  ℕ, zero, suc, ◌+◌, ◌≤◌, ◌<◌, ◌%◌, ◌≡◌, Bool, List, [], ◌∷◌, ◌++◌, Option, none, some, String, ℤ,
  pos, add32, length, ◌==◌, if◌then◌else◌,
}
use velocore.Double.{Double}
use velocore.World.{World, generate_order_id, now}
use velocore.Types.{Side, OrderType, OrderStatus}
use velocore.Order.{Order}
use velocore.Trade.{Trade, TradeStatistics}
use velocore.Trade.Accesses.{Stage, reads_trades, touch}
use velocore.OrderBook.Engine.{Added, add_order}
use velocore.Service.{Service}

-- What the threads share: the global instances and the two atomic counters of the handler.
pub record Load (D : Type 0) : Type 0 where
  pub service : Service D
  pub completed_orders : ℤ
  pub total_trades : ℤ

-- Where a worker stands, with the local variables that are live there.
pub data Pc (D : Type 0) : Type 0 where
  head : (i : ℕ) → Pc D  -- the test of the loop
  drawn : (i id : ℕ) → Pc D  -- in the constructor of the order, with its id
  made : (i : ℕ) (order : Order D) → Pc D
  added : (i : ℕ) (trades : List (Trade D)) → Pc D
  completed : (i : ℕ) (trades : List (Trade D)) → Pc D
  reporting : (i : ℕ) (trades : List (Trade D)) → Pc D  -- the inner loop, with the trades to come
  -- in `stats.update`, with the trades after this one
  updating : (i : ℕ) (trade : Trade D) (trades : List (Trade D)) (stage : Stage D) → Pc D
  finished : Pc D

-- The side of the i-th order.
abbrev pub side_of : ℕ → Side
side_of i = if i % 2 == 0 then Side.buy else Side.sell

module _ {D : Type 0} ⦃d : Double D⦄ where
  -- 99.0 and more for a buy order, 101.0 and more for a sell order.
  unfoldable pub price_of : ℕ → D
  price_of i = d.add (d.of_int (pos (if i % 2 == 0 then 99 else 101))) (d.of_int (pos (i % 10)))

  -- The i-th order, with the id and the time that its constructor takes.
  unfoldable pub load_order : ℕ → ℕ → ℕ → Order D
  unfolding price_of
  load_order i id time = record {
    id = id;
    client_id = i + 1000;
    symbol = "SIM";
    side = side_of i;
    type = OrderType.limit;
    price = price_of i;
    quantity = pos (10 + i % 40);
    remaining_quantity = pos (10 + i % 40);
    status = OrderStatus.active;
    timestamp = time;
  }

module _ {D : Type 0} where
  -- Changes of one part of the shared state.
  abbrev pub with_world : World → Load D → Load D
  with_world w m = record m { service = record (m.service) { world = w } }

  abbrev pub with_added : Added D → Load D → Load D
  with_added a m = record m {
    service = record (m.service) { order_book = a.book; world = a.world };
  }

  abbrev pub with_stats : TradeStatistics D → Load D → Load D
  with_stats stats m = record m { service = record (m.service) { stats = stats } }

  -- Where a worker goes on after an access of the statistics.
  abbrev pub resumed : ℕ → Trade D → List (Trade D) → Option (Stage D) → Pc D
  resumed i trade trades none = reporting i trades
  resumed i trade trades (some stage) = updating i trade trades stage

module _ {D : Type 0} ⦃d : Double D⦄ (clock : ℕ → ℕ) where
  -- The call of `addOrder`.
  abbrev pub send : Load D → Order D → Added D
  send m order = add_order clock order m.service.order_book m.service.world

module _ {D : Type 0} ⦃d : Double D⦄ (clock : ℕ → ℕ) (num_orders num_threads : ℕ) where
  -- One access of one worker.
  pub data Move (m : Load D) : Pc D → Load D → Pc D → Type 0 where
    ends : (i : ℕ) → num_orders ≤ i → Move m (head i) m finished
    draws :
        (i : ℕ)
        → i < num_orders
        → Move m
            (head i)
            (with_world (generate_order_id m.service.world).1 m)
            (drawn i (generate_order_id m.service.world).0)
    makes :
        (i id : ℕ)
        → Move m
            (drawn i id)
            (with_world (now clock m.service.world).1 m)
            (made i (load_order i id (now clock m.service.world).0))
    adds :
        (i : ℕ) (order : Order D)
        → Move m
            (made i order)
            (with_added (send clock m order) m)
            (added i (send clock m order).trades)
    completes :
        (i : ℕ) (trades : List (Trade D))
        → Move m
            (added i trades)
            (record m { completed_orders = add32 m.completed_orders (pos 1) })
            (completed i trades)
    counts :
        (i : ℕ) (trades : List (Trade D))
        → Move m
            (completed i trades)
            (record m { total_trades = add32 m.total_trades (pos (length trades)) })
            (reporting i trades)
    reports :
        (i : ℕ) (trade : Trade D) (trades : List (Trade D))
        → Move m (reporting i (trade ∷ trades)) m (updating i trade trades reads_trades)
    touches :
        (i : ℕ) (trade : Trade D) (trades : List (Trade D)) (stage : Stage D)
        → Move m
            (updating i trade trades stage)
            (with_stats (touch stage trade m.service.stats).0 m)
            (resumed i trade trades (touch stage trade m.service.stats).1)
    goes_on : (i : ℕ) → Move m (reporting i []) m (head (i + num_threads))

  -- One of the workers moves.
  pub data Step (m : Load D) : List (Pc D) → Load D → List (Pc D) → Type 0 where
    picks :
        (ahead : List (Pc D)) (p : Pc D) (behind : List (Pc D)) (m' : Load D) (p' : Pc D)
        → Move m p m' p'
        → Step m (ahead ++ p ∷ behind) m' (ahead ++ p' ∷ behind)

  -- The moves one after the other.
  pub data Steps : Load D → List (Pc D) → Load D → List (Pc D) → Type 0 where
    stay : (m : Load D) (ps : List (Pc D)) → Steps m ps m ps
    next :
        (m : Load D) (ps : List (Pc D)) (m₁ : Load D) (ps₁ : List (Pc D)) (m₂ : Load D)
        (ps₂ : List (Pc D))
        → Step m ps m₁ ps₁
        → Steps m₁ ps₁ m₂ ps₂
        → Steps m ps m₂ ps₂

module _ {D : Type 0} where
  -- The threads that the loop makes from number `t` on: thread `t` begins with order `t`.
  unfoldable pub spawn : ℕ → ℕ → List (Pc D)
  spawn zero t = []
  spawn (suc n) t = head t ∷ spawn n (t + 1)

  -- The state before the first thread starts.
  unfoldable pub open_load : Service D → Load D
  open_load s = record { service = s; completed_orders = pos 0; total_trades = pos 0 }
