-- ===== src/Feed/Session/Invariant.antt =====
-- What holds of the market data feed (src/MarketDataFeed.cpp) in every run.
use velocore.Base.{ℕ, none, some, ok, throws, arith}
use velocore.Double.{Double}
use velocore.World.{World, now}
use velocore.Config.{Configuration}
use velocore.Feed.{
  Feed, Task, update_connection_status, broadcast_book_update, send_message, send_subscription,
  send_unsubscription, write,
}
use velocore.Feed.Subscriptions.{
  JsonReader, subscribe, unsubscribe, send_subscription_message, send_unsubscription_message,
}
use velocore.Feed.Subscriptions.Distinct.{subscribe-IsSubscribed, unsubscribe-IsSubscribed}
use velocore.Feed.Messages.{start_heartbeat}
use velocore.Feed.Connection.{
  new_feed, on_tick, on_connection, on_error, start_feed, stop_feed, on_close, close_web_socket,
  authenticate_connection, on_connect, on_handshake, on_upgrade, on_write, on_reconnect_timer,
  on_heartbeat_timer, on_read,
}
use velocore.Feed.Session.{
  Step, Steps, run_task, subscribes, unsubscribes, sets_tick, sets_connection, sets_error,
  broadcasts, starts, stops, runs, begins, connected, shaken, upgraded, written, read, closed,
  waited, beaten, stay, next,
}
use velocore.Feed.Session.Handlers.{
  IsFeed, feed, fail-IsFeed, connect-IsFeed, send_message-IsFeed, handle_message-IsFeed,
}

module _ {J D : Type 0} ⦃d : Double D⦄ (r : JsonReader J D) (clock : ℕ → ℕ)
    (config : Configuration) where
  run_task-IsFeed :
      (t : Task D) (f : Feed D) → IsFeed r clock config f → IsFeed r clock config (run_task t f)
  unfolding run_task send_subscription_message send_unsubscription_message
  run_task-IsFeed send_subscription f v = ground (arith, send_message-IsFeed r clock config _ f v)
  run_task-IsFeed (send_unsubscription symbol) f v = send_message-IsFeed r clock config _ f v
  run_task-IsFeed (write message) f v = feed r clock config v.subscriptions v.attempts

  upgrade-IsFeed :
      (f : Feed D) → IsFeed r clock config f → IsFeed r clock config (on_upgrade config none f)
  unfolding on_upgrade authenticate_connection update_connection_status send_message
  upgrade-IsFeed f v = ground arith

  heartbeat-IsFeed :
      (f : Feed D)
      → IsFeed r clock config f
      → IsFeed r clock config (on_heartbeat_timer config clock f)
  unfolding on_heartbeat_timer start_heartbeat
  heartbeat-IsFeed f v =
      let (time, w) = now clock f.world in
      ground (
        arith,
        fail-IsFeed r clock config "Heartbeat timeout - connection may be stale" ""
            (record f { heartbeat_timer = none; world = w })
            (feed r clock config v.subscriptions v.attempts),
      )

  pub Step-IsFeed :
      (f f' : Feed D)
      → Step r clock config f f'
      → IsFeed r clock config f
      → IsFeed r clock config f'
  unfolding start_feed stop_feed close_web_socket subscribe unsubscribe on_tick on_connection
      on_error on_connect on_handshake on_upgrade authenticate_connection update_connection_status
      broadcast_book_update on_write on_close on_reconnect_timer on_heartbeat_timer start_heartbeat
      on_read
  Step-IsFeed _ _ (subscribes symbol t q b f) v =
      feed r clock config (subscribe-IsSubscribed symbol t q b f v.subscriptions) (ground arith)
  Step-IsFeed _ _ (unsubscribes symbol f) v =
      feed r clock config (unsubscribe-IsSubscribed symbol f v.subscriptions) (ground arith)
  Step-IsFeed _ _ (sets_tick f) v = feed r clock config v.subscriptions v.attempts
  Step-IsFeed _ _ (sets_connection f) v = feed r clock config v.subscriptions v.attempts
  Step-IsFeed _ _ (sets_error f) v = feed r clock config v.subscriptions v.attempts
  Step-IsFeed _ _ (broadcasts tick f) v = ground arith
  Step-IsFeed _ _ (starts f f' e) v = ground arith
  Step-IsFeed _ _ (stops f) v = ground arith
  Step-IsFeed _ _ (runs t f h) v = run_task-IsFeed t f v
  Step-IsFeed _ _ (begins sni resolved f h) v = connect-IsFeed r clock config sni resolved f v
  Step-IsFeed _ _ (connected (some ec) f h) v = fail-IsFeed r clock config _ ec f v
  Step-IsFeed _ _ (connected none f h) v = feed r clock config v.subscriptions v.attempts
  Step-IsFeed _ _ (shaken (some ec) f h) v = fail-IsFeed r clock config _ ec f v
  Step-IsFeed _ _ (shaken none f h) v = feed r clock config v.subscriptions v.attempts
  Step-IsFeed _ _ (upgraded (some ec) f h) v = fail-IsFeed r clock config _ ec f v
  Step-IsFeed _ _ (upgraded none f h) v = upgrade-IsFeed f v
  Step-IsFeed _ _ (written (some ec) f h) v = fail-IsFeed r clock config _ ec f v
  Step-IsFeed _ _ (written none f h) v = v
  Step-IsFeed _ _ (read (ok m) f h) v =
      let handled = handle_message-IsFeed r clock config m f v in
      feed r clock config handled.subscriptions handled.attempts
  Step-IsFeed _ _ (read (throws ec) f h) v = fail-IsFeed r clock config _ ec f v
  Step-IsFeed _ _ (closed ec f h) v = ground arith
  Step-IsFeed _ _ (waited sni resolved f h) v = ground (
    arith,
    connect-IsFeed r clock config sni resolved (record f { reconnect_timer = none })
        (feed r clock config v.subscriptions v.attempts),
  )
  Step-IsFeed _ _ (beaten f h) v = heartbeat-IsFeed f v

  Steps-IsFeed_from :
      (f f' : Feed D)
      → Steps r clock config f f'
      → IsFeed r clock config f
      → IsFeed r clock config f'
  Steps-IsFeed_from _ _ (stay f) v = v
  Steps-IsFeed_from _ _ (next f g h s ss) v = Steps-IsFeed_from g h ss (Step-IsFeed f g s v)

  -- In every state that the feed reaches from its construction, by any calls and handlers in any order:
  -- no symbol is subscribed to twice, no two pending subscriptions are of one symbol, none is of a
  -- symbol that is subscribed to, and the attempts to reconnect are within the configured maximum.
  pub Steps-IsFeed :
      (w : World) (f : Feed D) → Steps r clock config (new_feed w) f → IsFeed r clock config f
  unfolding new_feed
  Steps-IsFeed w f ss =
      Steps-IsFeed_from (new_feed w) f ss (feed r clock config (tt, tt) (omega arith))
