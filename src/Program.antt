-- ===== src/Program.antt =====
-- `main` of src/main.cpp: how the program starts and ends, and its two halves in one state: the server
-- and the market data feed, whose ticks the server keeps.
pub mod Told
pub mod Reached
pub mod Ends
use velocore.Base.{
  Bool, true, false, ◌||◌, List, Option, none, some, String, Result, ok, throws, ℕ, ℤ, pos, ◌<ℤ◌,
  ◌≡◌, drop, length,
}
use velocore.Double.{Double}
use velocore.World.{World}
use velocore.Tick.{MarketTick}
use velocore.Json.{Reader}
use velocore.Config.{Configuration, defaults, configure}
use velocore.Service.{Service}
use velocore.Service.Orders.{post_orders, cancel_route}
use velocore.Service.Ticks.{receive_all}
use velocore.Service.Market.{market_subscribe}
use velocore.Service.Books.{initial}
use velocore.Service.Constants.{models_demo}
use velocore.Service.Load.{Load, Pc, Steps, open_load, spawn}
use velocore.Service.Load.Request.{LoadRequest, opened, test_concurrency}
use velocore.Service.Load.Done.{AreFinished}
use velocore.Service.Load.Outcome.{num_orders_of, num_threads_of}
use velocore.Feed.{Feed}
use velocore.Feed.Subscriptions.{JsonReader}
use velocore.Feed.Connection.{
  new_feed, on_tick, on_connection, on_error, start_feed, stop_feed, destroy,
}
use velocore.Feed.Session as Session
use velocore.Feed.Session.Stopped.{told_ticks}

-- The feed is there if the configuration did not fail.
pub record Program (D : Type 0) : Type 0 where
  pub config : Configuration
  pub service : Service D
  pub feed : Option (Feed D)

module _ {D : Type 0} where
  -- A new feed with the three callbacks, started.
  unfoldable pub start_new_feed : World → Option (Feed D)
  unfolding new_feed on_tick on_connection on_error start_feed
  start_new_feed w = start_feed (on_error (on_connection (on_tick (new_feed w))))

  unfoldable pub make_feed : Result (Unit {0}) → World → Option (Feed D)
  unfolding start_new_feed
  make_feed (ok u) w = start_new_feed w
  make_feed (throws e) w = none

  -- The end of `main`: `stop`, and the destructor. The answer false is the end of the program by
  -- `std::terminate`.
  unfoldable pub shutdown : Option (Feed D) → Bool
  unfolding stop_feed destroy
  shutdown none = true
  shutdown (some f) = destroy (stop_feed f)

  -- The ticks that a step of the feed tells.
  abbrev pub told_since : Feed D → Feed D → List (MarketTick D)
  told_since f g = drop (length (told_ticks f.effects)) (told_ticks g.effects)

module _ {D : Type 0} ⦃d : Double D⦄ where
  -- The start of `main`: the feed is made if the environment gives a complete configuration.
  unfoldable pub boot : (String → Option String) → World → World → Program D
  unfolding configure initial make_feed
  boot env w feed_world =
      let (config, r) = configure env defaults in
      record { config = config; service = initial w; feed = make_feed r feed_world }

module _ {J K D : Type 0} ⦃d : Double D⦄ (r : Reader J D) (json : JsonReader K D)
    (clock feed_clock : ℕ → ℕ) where
  -- The requests that change something, and the steps of the feed. A test of concurrency counts from
  -- its first thread to the last one's end; without threads it changes nothing. Requests are handled one
  -- after the other. `onMarketTick` is called for each tick that a step tells.
  pub data Step : Program D → Program D → Type 0 where
    posts_order :
        (body : String) (p : Program D)
        → Step p (record p { service = (post_orders r clock body p.service).0 })
    cancels_order :
        (id : ℤ) (p : Program D) → Step p (record p { service = (cancel_route id p.service).0 })
    asks_for :
        (body : String) (p : Program D)
        → Step p (record p { feed = (market_subscribe r body p.feed).0 })
    shows_models : (p : Program D) → Step p (record p { service = (models_demo clock p.service).0 })
    tests_load :
        (body : String) (q : LoadRequest) (m : Load D) (ps : List (Pc D)) (p : Program D)
        → test_concurrency {D = D} r body ≡ opened q
        → pos 0 <ℤ q.num_threads
        → Steps clock
            (num_orders_of q)
            (num_threads_of q)
            (open_load p.service)
            (spawn (num_threads_of q) 0)
            m
            ps
        → AreFinished ps
        → Step p (record p { service = m.service })
    runs_feed :
        (f g : Feed D) (p : Program D)
        → p.feed ≡ some f
        → Session.Step json feed_clock p.config f g
        → Step p (record p { service = receive_all (told_since f g) p.service; feed = some g })

  -- The states that a program reaches.
  pub data Reach (env : String → Option String) (w feed_world : World) : Program D → Type 0 where
    starts : Reach env w feed_world (boot env w feed_world)
    later : {p q : Program D} → Reach env w feed_world p → Step p q → Reach env w feed_world q

  -- Whether a test of concurrency was among the steps.
  abbrev pub is_test : {p q : Program D} → Step p q → Bool
  is_test (tests_load body q m ps p e some_thread steps over) = true
  is_test step = false

  abbrev pub tested :
      {env : String → Option String} {w feed_world : World} {p : Program D}
      → Reach env w feed_world p
      → Bool
  tested starts = false
  tested (later reached step) = is_test step || tested reached
