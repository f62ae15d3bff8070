-- ===== src/Feed.antt =====
-- `class MarketDataFeed` of src/MarketDataFeed.h and src/MarketDataFeed.cpp: its state, and the
-- operations that the others share. What the network library is asked to do, and what the callbacks
-- are told, are effects, kept in the order in which they happen.
pub mod Subscriptions
pub mod Messages
pub mod Connection
pub mod Session
use velocore.Base.{
  ℕ, suc, ◌*◌, ◌-◌, Bool, true, false, not, List, [], ◌∷◌, ◌++◌, String, ℤ, pos, negsuc, pos_part,
  leb_ℤ, Option, none, some, if◌then◌else◌,
}
use velocore.World.{World, now}
use velocore.Tick.{MarketTick}
use velocore.Json.{Json}
use velocore.Config.{Configuration}
use velocore.Url.{Url}

-- `MarketSubscription`.
pub record MarketSubscription : Type 0 where
  pub symbol : String
  pub trades : Bool
  pub quotes : Bool
  pub bars : Bool

-- What is posted to the strand.
pub data Task (D : Type 0) : Type 0 where
  send_subscription : Task D
  send_unsubscription : String → Task D
  write : Json D → Task D

pub data Effect (D : Type 0) : Type 0 where
  -- The three callbacks.
  ticked : MarketTick D → Effect D
  connection_told : Bool → Effect D
  error_told : String → Effect D
  -- Asynchronous operations that are begun.
  posts : Task D → Effect D
  connects : Effect D
  shakes_hands : Effect D
  upgrades : Effect D
  reads : Effect D
  writes : Json D → Effect D
  closes : Effect D

-- The members. A callback is there or not; a timer is not running, or has the delay that it was given;
-- `has_thread` is `worker_thread_.joinable()`, and `io_stopped` the state of `io_context_` that
-- `stop` leaves.
pub record Feed (D : Type 0) : Type 0 where
  pub running : Bool
  pub connected : Bool
  pub authenticated : Bool
  pub reconnect_attempts : ℕ
  pub connection : Url
  pub has_stream : Bool
  pub has_thread : Bool
  pub io_stopped : Bool
  pub subscribed_symbols : List String
  pub pending_subscriptions : List MarketSubscription
  pub tick_callback : Bool
  pub connection_callback : Bool
  pub error_callback : Bool
  pub last_heartbeat : ℕ
  pub heartbeat_timer : Option ℤ
  pub reconnect_timer : Option ℤ
  pub effects : List (Effect D)
  pub world : World

-- An `int` times a counter.
abbrev times : ℤ → ℕ → ℤ
times (pos n) k = pos (n * k)
times (negsuc n) k = if leb_ℤ (pos k) (pos 0) then pos 0 else negsuc (suc n * k - 1)

module _ {D : Type 0} where
  abbrev pub emit : Effect D → Feed D → Feed D
  emit e f = record f { effects = f.effects ++ e ∷ [] }

  -- `updateConnectionStatus`.
  unfoldable pub update_connection_status : Bool → Feed D → Feed D
  update_connection_status connected f =
      if differs f.connected connected
      then tell (record f { connected = connected })
      else record f { connected = connected }
    where
      differs : Bool → Bool → Bool
      differs true b = not b
      differs false b = b

      tell : Feed D → Feed D
      tell f = if f.connection_callback then emit (connection_told connected) f else f

  -- `reportError`.
  unfoldable pub report_error : String → Feed D → Feed D
  report_error error f = if f.error_callback then emit (error_told error) f else f

  -- `broadcastBookUpdate`.
  unfoldable pub broadcast_book_update : MarketTick D → Feed D → Feed D
  broadcast_book_update tick f = if f.tick_callback then emit (ticked tick) f else f

  -- `scheduleReconnect`. The counter stays below the maximum, an `int`.
  unfoldable pub schedule_reconnect : Configuration → Feed D → Feed D
  unfolding report_error
  schedule_reconnect config f =
      if not f.running
      then f
      else if leb_ℤ config.market_data.max_reconnect_attempts (pos f.reconnect_attempts)
      then record (report_error "Maximum reconnection attempts reached. Stopping." f) {
        running = false;
      }
      else record f {
        reconnect_attempts = suc f.reconnect_attempts;
        reconnect_timer =
            some (times config.market_data.reconnect_delay_ms (suc f.reconnect_attempts));
      }

  -- `sendMessage`.
  unfoldable pub send_message : Json D → Feed D → Feed D
  send_message message f = if f.connected then emit (posts (write message)) f else f
