-- ===== src/Feed/Session.antt =====
-- The market data feed of src/MarketDataFeed.cpp as a state machine: the calls of its clients and the
-- handlers that the network library runs, in any order.
pub mod Handlers
pub mod Invariant
pub mod Stopped
pub mod Grown
pub mod Heard
use Prim.Native.String.{◌++◌ as concat}
use velocore.Url.{Url, parse_web_socket_url}
use velocore.Chars.{codes}
use velocore.Base.{
  ℕ, ◌≤◌, ◌≡◌, refl, Bool, true, false, List, [], ◌∷◌, Option, none, some, String, Result, ok,
  throws, ℤ, pos, pos_part, leb_ℤ, arith, if◌then◌else◌, Option-cases, Result-cases, inl, inr,
}
use velocore.Double.{Double}
use velocore.World.{World, now}
use velocore.Json.{Json}
use velocore.Tick.{MarketTick}
use velocore.Config.{Configuration}
use velocore.Feed.{
  Feed, Effect, Task, emit, writes, update_connection_status, report_error, broadcast_book_update,
  schedule_reconnect, send_message, send_subscription, send_unsubscription, write,
}
use velocore.Feed.Subscriptions.{
  JsonReader, subscribe, unsubscribe, send_subscription_message, send_unsubscription_message,
  process_subscription_ack,
}
use velocore.Feed.Subscriptions.Distinct.{
  IsSubscribed, subscribe-IsSubscribed, unsubscribe-IsSubscribed,
  process_subscription_ack-IsSubscribed,
}
use velocore.Feed.Messages.{
  start_heartbeat, broadcast_item, parse_typed, parse_market_data, error_text, handle_success,
  on_market_data, on_error_text, on_success, dispatch_typed, go_on, dispatch, handle_single_message,
  handle_items, handle_message,
}
use velocore.Feed.Connection.{
  new_feed, on_tick, on_connection, on_error, start_feed, stop_feed, on_close, fail, on_resolve,
  connect_to, connect_web_socket, on_connect, on_handshake, on_upgrade, on_write,
  on_reconnect_timer, on_heartbeat_timer, on_read,
}

module _ {D : Type 0} where
  -- What the strand runs for a task that was posted.
  unfoldable pub run_task : Task D → Feed D → Feed D
  unfolding send_subscription_message send_unsubscription_message
  run_task send_subscription f = send_subscription_message f
  run_task (send_unsubscription symbol) f = send_unsubscription_message symbol f
  run_task (write message) f = emit (writes message) f

module _ {J D : Type 0} ⦃d : Double D⦄ (r : JsonReader J D) (clock : ℕ → ℕ)
    (config : Configuration) where
  -- Each call and each handler is one step. Handlers run only as long as `io_context_` is not stopped;
  -- the thread that `start` makes connects before it runs them.
  pub data Step : Feed D → Feed D → Type 0 where
    subscribes :
        (symbol : String) (trades quotes bars : Bool) (f : Feed D)
        → Step f (subscribe symbol trades quotes bars f)
    unsubscribes : (symbol : String) (f : Feed D) → Step f (unsubscribe symbol f)
    sets_tick : (f : Feed D) → Step f (on_tick f)
    sets_connection : (f : Feed D) → Step f (on_connection f)
    sets_error : (f : Feed D) → Step f (on_error f)
    broadcasts : (tick : MarketTick D) (f : Feed D) → Step f (broadcast_book_update tick f)
    starts : (f f' : Feed D) → start_feed f ≡ some f' → Step f f'
    stops : (f : Feed D) → Step f (stop_feed f)
    runs : (t : Task D) (f : Feed D) → f.io_stopped ≡ false → Step f (run_task t f)
    begins :
        (sni : Bool) (resolved : Option String) (f : Feed D)
        → f.has_thread ≡ true
        → Step f (connect_web_socket config sni resolved f)
    connected :
        (ec : Option String) (f : Feed D) → f.io_stopped ≡ false → Step f (on_connect config ec f)
    shaken :
        (ec : Option String) (f : Feed D) → f.io_stopped ≡ false → Step f (on_handshake config ec f)
    upgraded :
        (ec : Option String) (f : Feed D) → f.io_stopped ≡ false → Step f (on_upgrade config ec f)
    written :
        (ec : Option String) (f : Feed D) → f.io_stopped ≡ false → Step f (on_write config ec f)
    read :
        (m : Result String) (f : Feed D)
        → f.io_stopped ≡ false
        → Step f (on_read r clock config m f)
    closed : (ec : Option String) (f : Feed D) → f.io_stopped ≡ false → Step f (on_close ec f)
    waited :
        (sni : Bool) (resolved : Option String) (f : Feed D)
        → f.io_stopped ≡ false
        → Step f (on_reconnect_timer config sni resolved f)
    beaten : (f : Feed D) → f.io_stopped ≡ false → Step f (on_heartbeat_timer config clock f)

  pub data Steps : Feed D → Feed D → Type 0 where
    stay : (f : Feed D) → Steps f f
    next : (f g h : Feed D) → Step f g → Steps g h → Steps f h
