-- ===== src/Program/Reached.antt =====
-- What holds in every state that the program of src/main.cpp reaches.
use velocore.Base.{ℕ, ◌≡◌, false, Option, none, some, String, ok}
use Prim.Native.String.{◌++◌ as concat}
use velocore.Double.{Double, IsIeee}
use velocore.World.{World}
use velocore.Tick.{MarketTick, tick_to_json}
use velocore.Json.{Reader}
use velocore.OrderBook.Engine.Valid.{IsBook}
use velocore.Service.{Service, Response, response, plain, json}
use velocore.Service.Ticks.{find_tick, last_of}
use velocore.Feed.{Feed}
use velocore.Feed.Subscriptions.{JsonReader}
use velocore.Feed.Session as Session
use velocore.Feed.Session.Handlers.{IsFeed, feed}
use velocore.Program.Told.{told_by}
use velocore.Program.{Program}

module _ {D : Type 0} where
  -- What holds of the feed, if there is one.
  abbrev pub OfFeed {κ} : (Feed D → Type κ) → Option (Feed D) → Type κ
  OfFeed P none = Unit
  OfFeed P (some f) = P f

  -- `GET /market/data/<symbol>`, from the last tick of the symbol.
  unfoldable pub shown : String → Option (MarketTick D) → Response D
  shown symbol none = response 404 (plain (concat "No data available for symbol: " symbol))
  shown symbol (some tick) = response 200 (json (tick_to_json tick))

module _ {J K D : Type 0} ⦃d : Double D⦄ (ieee : IsIeee D) (r : Reader J D) (js : JsonReader K D)
    (clock feed_clock : ℕ → ℕ)
    (reads : (j : J) (x : D) → r.as_double j ≡ ok x → ieee.is_nan x ≡ false) where
  -- The book and the feed are right, and the server keeps the last tick of each symbol.
  record Sound (p : Program D) : Type 0 where
    book : IsBook ieee p.service.order_book
    feed : OfFeed (IsFeed js feed_clock p.config) p.feed
    ticks :
        (symbol : String)
        → find_tick symbol p.service.latest_ticks ≡ last_of symbol (told_by p.feed) none
