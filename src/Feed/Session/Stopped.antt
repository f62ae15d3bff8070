-- ===== src/Feed/Session/Stopped.antt =====
-- The market data feed (src/MarketDataFeed.cpp) after `stop`, and after it has given up.
use Prim.Native.String.{◌++◌ as concat}
use velocore.Url.{Url, parse_web_socket_url}
use velocore.Chars.{codes}
use velocore.Base.{
  ℕ, ◌≡◌, refl, sym, ap, if◌then◌else◌, Bool, true, false, List, [], ◌∷◌, ◌++◌, Option, none, some,
  String, pos, ◌≤ℤ◌, ◌∙◌, arith,
}
use mathlib.Core.List.{append-nil, append_assoc}
use velocore.Double.{Double}
use velocore.Config.{Configuration}
use velocore.Tick.{MarketTick}
use velocore.Feed.{
  ticked, error_told, connects, Feed, Effect, report_error, broadcast_book_update,
  schedule_reconnect,
}
use velocore.Feed.Subscriptions.{JsonReader, subscribe, unsubscribe}
use velocore.Feed.Connection.{
  on_tick, on_connection, on_error, start_feed, stop_feed, fail, close_web_socket, destroy,
  on_resolve, connect_to, connect_web_socket,
}
use velocore.Feed.Session.{
  Step, Steps, subscribes, unsubscribes, sets_tick, sets_connection, sets_error, broadcasts, starts,
  stops, runs, begins, connected, shaken, upgraded, written, read, closed, waited, beaten, stay,
  next,
}

module _ {D : Type 0} where
  -- The ticks that the callback was told, in order.
  abbrev pub told_ticks : List (Effect D) → List (MarketTick D)
  told_ticks [] = []
  told_ticks (e ∷ es) = elim e [ ticked tick ↦ tick ∷ told_ticks es | _ ↦ told_ticks es ]

  pub told_ticks-append :
      (es fs : List (Effect D)) → told_ticks (es ++ fs) ≡ told_ticks es ++ told_ticks fs
  told_ticks-append [] fs = refl
  told_ticks-append (e ∷ es) fs = ground (arith, told_ticks-append es fs)

  told_ticks-error :
      (es : List (Effect D)) (m : String) → told_ticks (es ++ error_told m ∷ []) ≡ told_ticks es
  told_ticks-error [] m = refl
  told_ticks-error (e ∷ es) m = ground (arith, told_ticks-error es m)

  told_ticks-connects : (es : List (Effect D)) → told_ticks (es ++ connects ∷ []) ≡ told_ticks es
  told_ticks-connects [] = refl
  told_ticks-connects (e ∷ es) = ground (arith, told_ticks-connects es)

module _ {J D : Type 0} ⦃d : Double D⦄ (r : JsonReader J D) (clock : ℕ → ℕ)
    (config : Configuration) where
  -- Nothing comes in any more.
  abbrev Silent : Feed D → Feed D → Type 0
  Silent f g =
      (g.io_stopped ≡ true) × (g.connected ≡ false) × (told_ticks g.effects ≡ told_ticks f.effects)

  fail-Silent :
      (what ec : String) (f : Feed D)
      → f.io_stopped ≡ true
      → f.connected ≡ false
      → Silent f (fail config what ec f)
  unfolding fail report_error schedule_reconnect
  fail-Silent what ec f h k = ground (
    arith,
    told_ticks-error f.effects (concat what ec),
    told_ticks-error f.effects "Maximum reconnection attempts reached. Stopping.",
    told_ticks-error (f.effects ++ error_told (concat what ec) ∷ [])
        "Maximum reconnection attempts reached. Stopping.",
  )

  on_resolve-Silent :
      (resolved : Option String) (f : Feed D)
      → f.io_stopped ≡ true
      → f.connected ≡ false
      → Silent f (on_resolve config resolved f)
  unfolding on_resolve
  on_resolve-Silent (some e) f h k = fail-Silent _ e f h k
  on_resolve-Silent none f h k = (h, k, told_ticks-connects f.effects)

  connect_to-Silent :
      (sni : Bool) (resolved : Option String) (valid : Bool) (url : Url) (f : Feed D)
      → f.io_stopped ≡ true
      → f.connected ≡ false
      → Silent f (connect_to config sni resolved valid url f)
  unfolding connect_to
  connect_to-Silent sni resolved valid url f h k = ground (
    arith,
    fail-Silent "Failed to connect: " (concat "Invalid WebSocket URL: " config.alpaca.data_url) f h
        k,
    fail-Silent "Failed to connect: " "Failed to set SNI hostname" (record f { has_stream = true })
        h k,
    on_resolve-Silent resolved (record f { has_stream = true; connection = url }) h k,
  )

  connect-Silent :
      (sni : Bool) (resolved : Option String) (f : Feed D)
      → f.io_stopped ≡ true
      → f.connected ≡ false
      → Silent f (connect_web_socket config sni resolved f)
  unfolding connect_web_socket
  connect-Silent sni resolved f h k =
      let parsed = parse_web_socket_url [] (codes config.alpaca.data_url) in
      connect_to-Silent sni resolved parsed.0 parsed.1 f h k

  -- The tick that a client hands to the callback by calling `broadcastBookUpdate` itself.
  abbrev pub called_tick : {f g : Feed D} → Step r clock config f g → List (MarketTick D)
  called_tick (broadcasts tick f) = if f.tick_callback then tick ∷ [] else []
  called_tick step = []

  abbrev pub called_ticks : {f g : Feed D} → Steps r clock config f g → List (MarketTick D)
  called_ticks (stay f) = []
  called_ticks (next f g h step steps) = called_tick step ++ called_ticks steps

  -- Nothing comes in any more but these ticks.
  abbrev TellsOnly : Feed D → Feed D → List (MarketTick D) → Type 0
  TellsOnly f g ts =
      (g.io_stopped ≡ true)
      × (g.connected ≡ false)
      × (told_ticks g.effects ≡ told_ticks f.effects ++ ts)

  Step-TellsOnly :
      (f g : Feed D) (step : Step r clock config f g)
      → f.io_stopped ≡ true
      → f.connected ≡ false
      → TellsOnly f g (called_tick step)
  unfolding start_feed stop_feed close_web_socket subscribe unsubscribe on_tick on_connection
      on_error broadcast_book_update
  Step-TellsOnly _ _ (subscribes symbol t q b f) h k =
      ground (arith, append-nil (told_ticks f.effects))
  Step-TellsOnly _ _ (unsubscribes symbol f) h k = ground (arith, append-nil (told_ticks f.effects))
  Step-TellsOnly _ _ (sets_tick f) h k = (h, k, sym (append-nil _))
  Step-TellsOnly _ _ (sets_connection f) h k = (h, k, sym (append-nil _))
  Step-TellsOnly _ _ (sets_error f) h k = (h, k, sym (append-nil _))
  Step-TellsOnly _ _ (broadcasts tick f) h k =
      ground
        (arith, told_ticks-append f.effects (ticked tick ∷ []), append-nil (told_ticks f.effects))
  Step-TellsOnly _ _ (starts f f' e) h k = ground (arith, append-nil (told_ticks f.effects))
  Step-TellsOnly _ _ (stops f) h k = ground (arith, append-nil (told_ticks f.effects))
  Step-TellsOnly _ _ (runs t f n) h k = ground arith
  Step-TellsOnly _ _ (begins sni resolved f n) h k =
      let (h', k', e) = connect-Silent sni resolved f h k in (h', k', e ∙ sym (append-nil _))
  Step-TellsOnly _ _ (connected ec f n) h k = ground arith
  Step-TellsOnly _ _ (shaken ec f n) h k = ground arith
  Step-TellsOnly _ _ (upgraded ec f n) h k = ground arith
  Step-TellsOnly _ _ (written ec f n) h k = ground arith
  Step-TellsOnly _ _ (read m f n) h k = ground arith
  Step-TellsOnly _ _ (closed ec f n) h k = ground arith
  Step-TellsOnly _ _ (waited sni resolved f n) h k = ground arith
  Step-TellsOnly _ _ (beaten f n) h k = ground arith

  Steps-TellsOnly :
      (f g : Feed D) (steps : Steps r clock config f g)
      → f.io_stopped ≡ true
      → f.connected ≡ false
      → TellsOnly f g (called_ticks steps)
  Steps-TellsOnly _ _ (stay f) h k = (h, k, sym (append-nil _))
  Steps-TellsOnly _ _ (next f g i s ss) h k =
      let (h', k', e) = Step-TellsOnly f g s h k in
      let (h'', k'', e') = Steps-TellsOnly g i ss h' k' in
      (
        h'',
        k'',
        e'
            ∙ ap (λ ts. ts ++ called_ticks ss) e
            ∙ append_assoc (told_ticks f.effects) (called_tick s) (called_ticks ss),
      )

  -- A feed that was running and is stopped hears nothing any more: after any calls of `subscribe`,
  -- `unsubscribe`, `start`, `stop`, `broadcastBookUpdate` and of the functions that set callbacks, and
  -- any handlers, it is not connected, and no tick has been told any more but those that the calls of
  -- `broadcastBookUpdate` handed to a callback that was set.
  pub stop_feed-Silent :
      (f g : Feed D) (steps : Steps r clock config (stop_feed f) g)
      → f.running ≡ true
      → (g.connected ≡ false)
        × (told_ticks g.effects ≡ told_ticks (stop_feed f).effects ++ called_ticks steps)
  unfolding stop_feed
  stop_feed-Silent f g steps h =
      let (a, b) : ((stop_feed f).io_stopped ≡ true) × ((stop_feed f).connected ≡ false) =
        ground arith in
      let (i, c, e) = Steps-TellsOnly (stop_feed f) g steps a b in (c, e)

module _ {D : Type 0} (config : Configuration) where
  -- A running feed that has used up its attempts gives up, reports it, and cannot be destroyed any
  -- more: its thread is joinable still, so that the destructor ends the program.
  pub schedule_reconnect-destroy :
      (f : Feed D)
      → f.running ≡ true
      → f.has_thread ≡ true
      → config.market_data.max_reconnect_attempts ≤ℤ pos f.reconnect_attempts
      → ((schedule_reconnect config f).running ≡ false)
        × (destroy (schedule_reconnect config f) ≡ false)
  unfolding schedule_reconnect report_error destroy stop_feed
  schedule_reconnect-destroy f h k m = ground arith
