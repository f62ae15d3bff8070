-- ===== src/Feed/Connection.antt =====
-- The life of the connection in src/MarketDataFeed.cpp: start and stop, the completion handlers of the
-- network library, and the two timers. A handler takes the error that it is called with, if any.
use Prim.Native.String.{◌++◌ as concat}
use velocore.Base.{
  ℕ, ◌-◌, ◌/◌, Bool, true, false, not, ◌&&◌, ◌||◌, [], ◌∷◌, Option, none, some, String, Result, ok,
  throws, pos, ltb_ℤ, add32, if◌then◌else◌,
}
use velocore.Double.{Double}
use velocore.World.{World, now}
use velocore.Json.{text, obj}
use velocore.Chars.{codes}
use velocore.Config.{Configuration}
use velocore.Url.{Url, parse_web_socket_url}
use velocore.Feed.{
  Feed, emit, update_connection_status, report_error, schedule_reconnect, send_message, connects,
  shakes_hands, upgrades, reads, closes,
}
use velocore.Feed.Subscriptions.{JsonReader}
use velocore.Feed.Messages.{start_heartbeat, handle_message}

module _ {D : Type 0} where
  -- The constructor.
  unfoldable pub new_feed : World → Feed D
  new_feed w = record {
    running = false;
    connected = false;
    authenticated = false;
    reconnect_attempts = 0;
    connection = record { host = []; port = []; path = []; is_secure = true };
    has_stream = false;
    has_thread = false;
    io_stopped = false;
    subscribed_symbols = [];
    pending_subscriptions = [];
    tick_callback = false;
    connection_callback = false;
    error_callback = false;
    last_heartbeat = 0;
    heartbeat_timer = none;
    reconnect_timer = none;
    effects = [];
    world = w;
  }

  -- `onTick`, `onConnection`, `onError`.
  unfoldable pub on_tick : Feed D → Feed D
  on_tick f = record f { tick_callback = true }

  unfoldable pub on_connection : Feed D → Feed D
  on_connection f = record f { connection_callback = true }

  unfoldable pub on_error : Feed D → Feed D
  on_error f = record f { error_callback = true }

  -- `isConnected`.
  unfoldable pub is_connected : Feed D → Bool
  is_connected f = f.connected

  -- `start`. The assignment to a thread object that is joinable ends the program: `none`.
  unfoldable pub start_feed : Feed D → Option (Feed D)
  start_feed f =
      if f.running
      then some f
      else if f.has_thread
      then none
      else some (record f { running = true; has_thread = true })

  -- `closeWebSocket`.
  unfoldable pub close_web_socket : Feed D → Feed D
  close_web_socket f = if f.has_stream && f.connected then emit closes f else f

  -- `stop`.
  unfoldable pub stop_feed : Feed D → Feed D
  unfolding close_web_socket
  stop_feed f =
      if not f.running
      then f
      else record (close_web_socket
          (record f { running = false; heartbeat_timer = none; reconnect_timer = none })) {
            io_stopped = true;
            has_thread = false;
            connected = false;
            authenticated = false;
            reconnect_attempts = 0;
          }

  -- The destructor: the one of the thread ends the program if the thread is still joinable, which is
  -- the answer false.
  unfoldable pub destroy : Feed D → Bool
  unfolding stop_feed
  destroy f = not (stop_feed f).has_thread

  -- `onClose`.
  unfoldable pub on_close : Option String → Feed D → Feed D
  unfolding update_connection_status
  on_close ec f = record (update_connection_status false f) { authenticated = false }

module _ {D : Type 0} (config : Configuration) where
  -- A handler that is called with an error reports it and tries to connect again.
  unfoldable pub fail : String → String → Feed D → Feed D
  unfolding report_error schedule_reconnect
  fail what ec f = schedule_reconnect config (report_error (concat what ec) f)

  unfoldable pub on_resolve : Option String → Feed D → Feed D
  unfolding fail
  on_resolve (some e) f = fail "Failed to connect: " e f
  on_resolve none f = emit connects f

  -- `connectWebSocket` behind the parsing of the URL. What the libraries answer are arguments: whether
  -- the host name for SSL could be set, and the error of resolving the host, if any.
  unfoldable pub connect_to : Bool → Option String → Bool → Url → Feed D → Feed D
  unfolding fail on_resolve
  connect_to sni resolved valid url f =
      if not valid
      then fail "Failed to connect: " (concat "Invalid WebSocket URL: " config.alpaca.data_url) f
      else if url.is_secure && not sni
      then fail "Failed to connect: " "Failed to set SNI hostname" (record f { has_stream = true })
      else on_resolve resolved (record f { has_stream = true; connection = url })

  unfoldable pub connect_web_socket : Bool → Option String → Feed D → Feed D
  unfolding parse_web_socket_url connect_to
  connect_web_socket sni resolved f =
      let parsed = parse_web_socket_url [] (codes config.alpaca.data_url) in
      connect_to sni resolved parsed.0 parsed.1 f

  unfoldable pub on_connect : Option String → Feed D → Feed D
  unfolding fail
  on_connect (some ec) f = fail "Connection failed: " ec f
  on_connect none f = emit shakes_hands f

  -- `onHandshake`, the end of the SSL handshake.
  unfoldable pub on_handshake : Option String → Feed D → Feed D
  unfolding fail
  on_handshake (some ec) f = fail "SSL handshake failed: " ec f
  on_handshake none f = emit upgrades f

  -- `authenticateConnection`.
  unfoldable pub authenticate_connection : Feed D → Feed D
  unfolding send_message
  authenticate_connection f =
      send_message
        (obj (
          ("action", text "auth")
          ∷ ("key", text config.alpaca.api_key)
          ∷ ("secret", text config.alpaca.api_secret)
          ∷ []))
        f

  -- The end of the WebSocket handshake.
  unfoldable pub on_upgrade : Option String → Feed D → Feed D
  unfolding fail update_connection_status authenticate_connection
  on_upgrade (some ec) f = fail "WebSocket handshake failed: " ec f
  on_upgrade none f =
      authenticate_connection
        (emit reads (record (update_connection_status true f) { reconnect_attempts = 0 }))

  unfoldable pub on_write : Option String → Feed D → Feed D
  unfolding fail
  on_write (some ec) f = fail "Write failed: " ec f
  on_write none f = f

  -- The timer of `scheduleReconnect` runs out.
  unfoldable pub on_reconnect_timer : Bool → Option String → Feed D → Feed D
  unfolding connect_web_socket
  on_reconnect_timer sni resolved f =
      let waited = record f { reconnect_timer = none } in
      if f.running then connect_web_socket sni resolved waited else waited

  -- `handleHeartbeat`, when the timer of `startHeartbeat` runs out. Time points are in nanoseconds.
  unfoldable pub on_heartbeat_timer : (ℕ → ℕ) → Feed D → Feed D
  unfolding now fail start_heartbeat
  on_heartbeat_timer clock f =
      let (time, w) = now clock f.world in
      let waited = record f { heartbeat_timer = none } in
      let checked = record waited { world = w } in
      let interval = config.market_data.heartbeat_interval_ms in
      if not f.running || not f.connected
      then waited
      else if ltb_ℤ (add32 interval interval) (pos ((time - f.last_heartbeat) / 1_000_000))
      then fail "Heartbeat timeout - connection may be stale" "" checked
      else start_heartbeat config clock checked

module _ {J D : Type 0} ⦃d : Double D⦄ (r : JsonReader J D) (clock : ℕ → ℕ)
    (config : Configuration) where
  -- `onRead`, with an error or a message.
  unfoldable pub on_read : Result String → Feed D → Feed D
  unfolding fail handle_message
  on_read (throws ec) f = fail config "Read failed: " ec f
  on_read (ok message) f = emit reads (handle_message r clock config message f)
