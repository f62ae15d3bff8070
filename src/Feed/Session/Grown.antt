-- ===== src/Feed/Session/Grown.antt =====
-- The calls and handlers of src/MarketDataFeed.cpp only add to what the feed has told and begun.
use Prim.Native.String.{◌++◌ as concat}
use velocore.Url.{Url, parse_web_socket_url}
use velocore.Chars.{codes}
use velocore.Base.{
  ℕ, ◌≡◌, refl, sym, ap, ◌∙◌, Bool, true, false, List, [], ◌∷◌, ◌++◌, Option, none, some, String,
  Result, ok, throws, arith, Option-cases, Result-cases, inl, inr,
}
use mathlib.Core.List.{append-nil, append_assoc}
use velocore.Double.{Double}
use velocore.World.{now}
use velocore.Tick.{MarketTick}
use velocore.Json.{Json}
use velocore.Config.{Configuration}
use velocore.Feed.{
  Feed, Effect, Task, emit, update_connection_status, report_error, broadcast_book_update,
  schedule_reconnect, send_message, connection_told, error_told, ticked, posts, writes, write,
  connects, shakes_hands, upgrades, reads, closes, send_subscription, send_unsubscription,
}
use velocore.Feed.Subscriptions.{
  JsonReader, subscription_json, subscribe, unsubscribe, send_subscription_message,
  send_unsubscription_message, process_subscription_ack,
}
use velocore.Feed.Messages.{
  start_heartbeat, parse_tick, broadcast_item, parse_typed, parse_market_data, error_text,
  handle_success, on_market_data, on_error_text, on_success, dispatch_typed, go_on, handle_batch,
  handle_parsed, dispatch, handle_single_message, handle_items, handle_message,
}
use velocore.Feed.Connection.{
  on_tick, on_connection, on_error, start_feed, stop_feed, close_web_socket, fail, on_resolve,
  connect_to, connect_web_socket, on_connect, on_handshake, on_upgrade, authenticate_connection,
  on_write, on_close, on_reconnect_timer, on_heartbeat_timer, on_read,
}
use velocore.Feed.Session.{
  run_task, Step, subscribes, unsubscribes, sets_tick, sets_connection, sets_error, broadcasts,
  starts, stops, runs, begins, connected, shaken, upgraded, written, read, closed, waited, beaten,
}

module _ {D : Type 0} where
  -- One sequence of effects goes on where the other ends.
  pub record Extends (before after : List (Effect D)) : Type 0 where
    pub fresh : List (Effect D)
    pub appended : after ≡ before ++ fresh

  same-Extends : (es : List (Effect D)) → Extends es es
  same-Extends es = record { fresh = []; appended = sym (append-nil es) }

  one-Extends : (es : List (Effect D)) (e : Effect D) → Extends es (es ++ e ∷ [])
  one-Extends es e = record { fresh = e ∷ []; appended = refl }

  Extends-trans : (es fs gs : List (Effect D)) → Extends es fs → Extends fs gs → Extends es gs
  Extends-trans es fs gs x y = record {
    fresh = x.fresh ++ y.fresh;
    appended = y.appended ∙ ap (λ l. l ++ y.fresh) x.appended ∙ append_assoc es x.fresh y.fresh;
  }

  -- Of two feeds, the later one's effects extend those of the earlier one.
  abbrev pub Grows : Feed D → Feed D → Type 0
  Grows f g = Extends f.effects g.effects

  report_error-Grows : (m : String) (f : Feed D) → Grows f (report_error m f)
  unfolding report_error
  report_error-Grows m f =
      ground (arith, same-Extends f.effects, one-Extends f.effects (error_told m))

  update_status-Grows : (b : Bool) (f : Feed D) → Grows f (update_connection_status b f)
  unfolding update_connection_status
  update_status-Grows b f =
      ground (arith, same-Extends f.effects, one-Extends f.effects (connection_told b))

  broadcast-Grows : (tick : MarketTick D) (f : Feed D) → Grows f (broadcast_book_update tick f)
  unfolding broadcast_book_update
  broadcast-Grows tick f =
      ground (arith, same-Extends f.effects, one-Extends f.effects (ticked tick))

  send_message-Grows : (m : Json D) (f : Feed D) → Grows f (send_message m f)
  unfolding send_message
  send_message-Grows m f =
      ground (arith, same-Extends f.effects, one-Extends f.effects (posts (write m)))

  send_subscription-Grows : (f : Feed D) → Grows f (send_subscription_message f)
  unfolding send_subscription_message
  send_subscription-Grows f = ground (
    arith,
    same-Extends f.effects,
    send_message-Grows (subscription_json f.pending_subscriptions) f,
  )

module _ {D : Type 0} (config : Configuration) where
  schedule-Grows : (f : Feed D) → Grows f (schedule_reconnect config f)
  unfolding schedule_reconnect
  schedule-Grows f = ground (
    arith,
    same-Extends f.effects,
    report_error-Grows "Maximum reconnection attempts reached. Stopping." f,
  )

  fail-Grows : (what ec : String) (f : Feed D) → Grows f (fail config what ec f)
  unfolding fail
  fail-Grows what ec f =
      let reported = report_error (concat what ec) f in
      Extends-trans f.effects reported.effects _ (report_error-Grows (concat what ec) f)
        (schedule-Grows reported)

  on_resolve-Grows :
      (resolved : Option String) (f : Feed D) → Grows f (on_resolve config resolved f)
  unfolding on_resolve
  on_resolve-Grows (some e) f = fail-Grows "Failed to connect: " e f
  on_resolve-Grows none f = one-Extends f.effects connects

  connect_to-Grows :
      (sni : Bool) (resolved : Option String) (valid : Bool) (url : Url) (f : Feed D)
      → Grows f (connect_to config sni resolved valid url f)
  unfolding connect_to
  connect_to-Grows sni resolved valid url f = ground (
    arith,
    fail-Grows "Failed to connect: " (concat "Invalid WebSocket URL: " config.alpaca.data_url) f,
    fail-Grows "Failed to connect: " "Failed to set SNI hostname" (record f { has_stream = true }),
    on_resolve-Grows resolved (record f { has_stream = true; connection = url }),
  )

  connect-Grows :
      (sni : Bool) (resolved : Option String) (f : Feed D)
      → Grows f (connect_web_socket config sni resolved f)
  unfolding connect_web_socket
  connect-Grows sni resolved f =
      let parsed = parse_web_socket_url [] (codes config.alpaca.data_url) in
      connect_to-Grows sni resolved parsed.0 parsed.1 f

  upgrade-Grows : (f : Feed D) → Grows f (on_upgrade config none f)
  unfolding on_upgrade authenticate_connection
  upgrade-Grows f =
      let told = update_connection_status true f in
      Extends-trans f.effects told.effects _ (update_status-Grows true f) (
        Extends-trans told.effects (told.effects ++ reads ∷ []) _ (one-Extends told.effects reads)
          (send_message-Grows _ (emit reads (record told { reconnect_attempts = 0 }))))

  heartbeat-Grows : (clock : ℕ → ℕ) (f : Feed D) → Grows f (on_heartbeat_timer config clock f)
  unfolding on_heartbeat_timer start_heartbeat
  heartbeat-Grows clock f =
      let (time, w) = now clock f.world in
      ground (
        arith,
        same-Extends f.effects,
        fail-Grows "Heartbeat timeout - connection may be stale" ""
            (record f { heartbeat_timer = none; world = w }),
      )

module _ {J D : Type 0} ⦃d : Double D⦄ (r : JsonReader J D) (clock : ℕ → ℕ)
    (config : Configuration) where
  broadcast_item-Grows :
      (type : String) (j : J) (f : Feed D) → Grows f (broadcast_item r clock type j f)
  unfolding broadcast_item
  broadcast_item-Grows type j f =
      let (time, w) = now clock f.world in
      elim (Option-cases (parse_tick r clock type j time)) [
        | inl e ↦ rw (e, broadcast_item) (same-Extends f.effects)
        | inr (parsed, e) ↦ elim (Result-cases parsed) [
          | inr (m, g) ↦ rw (e, g, broadcast_item) (same-Extends f.effects)
          | inl (tick, g) ↦
              rw (e, g, broadcast_item)
                (ground
                  (arith, same-Extends f.effects, broadcast-Grows tick (record f { world = w })))
        ]
      ]

  handle_success-Grows : (m : String) (f : Feed D) → Grows f (handle_success r clock config m f)
  unfolding handle_success start_heartbeat
  handle_success-Grows m f =
      ground
        (arith, same-Extends f.effects, send_subscription-Grows (record f { authenticated = true }))

  parse_market_data-Grows : (j : J) (f : Feed D) → Grows f (parse_market_data r clock j f).0
  unfolding parse_market_data
  parse_market_data-Grows j f =
      ground (arith, same-Extends f.effects, typed (r.as_text (r.member j "T")))
    where
      typed : (t : Result String) → Grows f (parse_typed r clock t j f).0
      typed (throws e) = same-Extends f.effects
      typed (ok type) = broadcast_item-Grows type j f

  on_market_data-Grows :
      (t : Result String) (j : J) (f : Feed D) → Grows f (on_market_data r clock t j f).0
  unfolding on_market_data
  on_market_data-Grows (throws e) j f = same-Extends f.effects
  on_market_data-Grows (ok symbol) j f = parse_market_data-Grows j f

  on_error_text-Grows : (t : Result String) (f : Feed D) → Grows f (on_error_text r clock t f).0
  unfolding on_error_text
  on_error_text-Grows (throws e) f = same-Extends f.effects
  on_error_text-Grows (ok error) f = report_error-Grows _ f

  on_success-Grows : (t : Result String) (f : Feed D) → Grows f (on_success r clock config t f).0
  unfolding on_success
  on_success-Grows (throws e) f = same-Extends f.effects
  on_success-Grows (ok m) f = handle_success-Grows m f

  ack-Grows : (j : J) (f : Feed D) → Grows f (process_subscription_ack r j f)
  unfolding process_subscription_ack
  ack-Grows j f = same-Extends f.effects

  dispatch-Grows :
      (type : String) (j : J) (f : Feed D) → Grows f (dispatch r clock config type j f).0
  unfolding dispatch
  dispatch-Grows type j f = ground (
    arith,
    same-Extends f.effects,
    ack-Grows j f,
    on_success-Grows (r.as_text (r.member j "msg")) f,
    on_error_text-Grows (error_text r clock config j) f,
    on_market_data-Grows (r.text_or j "S" "unknown") j f,
  )

  dispatch_typed-Grows :
      (t : Result String) (j : J) (f : Feed D) → Grows f (dispatch_typed r clock config t j f).0
  unfolding dispatch_typed
  dispatch_typed-Grows (throws e) j f = same-Extends f.effects
  dispatch_typed-Grows (ok type) j f = dispatch-Grows type j f

  handle_single-Grows : (j : J) (f : Feed D) → Grows f (handle_single_message r clock config j f).0
  unfolding handle_single_message
  handle_single-Grows j f =
      let (time, w) = now clock f.world in
      ground (
        arith,
        same-Extends f.effects,
        dispatch_typed-Grows (r.as_text (r.member j "T")) j
            (record f { world = w; last_heartbeat = time }),
      )

  go_on-Grows :
      (u : Result (Unit {0})) (f g rest : Feed D)
      → Grows f g
      → Grows f rest
      → Grows f (go_on r clock config u g rest)
  go_on-Grows (throws e) f g rest x y = x
  go_on-Grows (ok u) f g rest x y = y

  handle_items-Grows : (js : List J) (f : Feed D) → Grows f (handle_items r clock config js f)
  unfolding handle_items
  handle_items-Grows [] f = same-Extends f.effects
  handle_items-Grows (j ∷ js) f =
      let one = handle_single_message r clock config j f in
      go_on-Grows one.1 f one.0 _ (handle_single-Grows j f) (
        Extends-trans f.effects one.0.effects _ (handle_single-Grows j f)
          (handle_items-Grows js one.0))

  handle_message-Grows : (m : String) (f : Feed D) → Grows f (handle_message r clock config m f)
  unfolding handle_message handle_parsed handle_batch
  handle_message-Grows m f = parsed (r.parse m)
    where
      batch : (j : J) (js : Option (List J)) → Grows f (handle_batch r clock config j js f)
      batch j (some js) = handle_items-Grows js f
      batch j none = handle_single-Grows j f

      parsed : (x : Result J) → Grows f (handle_parsed r clock config x f)
      parsed (throws e) = same-Extends f.effects
      parsed (ok j) = batch j (r.items j)

  read-Grows : (m : Result String) (f : Feed D) → Grows f (on_read r clock config m f)
  unfolding on_read
  read-Grows (throws ec) f = fail-Grows config "Read failed: " ec f
  read-Grows (ok m) f =
      let handled = handle_message r clock config m f in
      Extends-trans f.effects handled.effects _ (handle_message-Grows m f)
        (one-Extends handled.effects reads)

  run_task-Grows : (t : Task D) (f : Feed D) → Grows f (run_task t f)
  unfolding run_task send_unsubscription_message
  run_task-Grows send_subscription f = send_subscription-Grows f
  run_task-Grows (send_unsubscription symbol) f = send_message-Grows _ f
  run_task-Grows (write message) f = one-Extends f.effects (writes message)

  -- No step takes back what was told.
  pub Step-Grows : (f g : Feed D) → Step r clock config f g → Grows f g
  unfolding start_feed stop_feed close_web_socket subscribe unsubscribe on_tick on_connection
      on_error on_connect on_handshake on_upgrade on_write on_close on_reconnect_timer
  Step-Grows _ _ (subscribes symbol t q b f) =
      ground (arith, same-Extends f.effects, one-Extends f.effects (posts send_subscription))
  Step-Grows _ _ (unsubscribes symbol f) =
      ground
        (arith, same-Extends f.effects, one-Extends f.effects (posts (send_unsubscription symbol)))
  Step-Grows _ _ (sets_tick f) = same-Extends f.effects
  Step-Grows _ _ (sets_connection f) = same-Extends f.effects
  Step-Grows _ _ (sets_error f) = same-Extends f.effects
  Step-Grows _ _ (broadcasts tick f) = broadcast-Grows tick f
  Step-Grows _ _ (starts f f' e) = ground (arith, same-Extends f.effects)
  Step-Grows _ _ (stops f) = ground (arith, same-Extends f.effects, one-Extends f.effects closes)
  Step-Grows _ _ (runs t f h) = run_task-Grows t f
  Step-Grows _ _ (begins sni resolved f h) = connect-Grows config sni resolved f
  Step-Grows _ _ (connected (some ec) f h) = fail-Grows config _ ec f
  Step-Grows _ _ (connected none f h) = one-Extends f.effects shakes_hands
  Step-Grows _ _ (shaken (some ec) f h) = fail-Grows config _ ec f
  Step-Grows _ _ (shaken none f h) = one-Extends f.effects upgrades
  Step-Grows _ _ (upgraded (some ec) f h) = fail-Grows config _ ec f
  Step-Grows _ _ (upgraded none f h) = upgrade-Grows config f
  Step-Grows _ _ (written (some ec) f h) = fail-Grows config _ ec f
  Step-Grows _ _ (written none f h) = same-Extends f.effects
  Step-Grows _ _ (read m f h) = read-Grows m f
  Step-Grows _ _ (closed ec f h) = update_status-Grows false f
  Step-Grows _ _ (waited sni resolved f h) = ground (
    arith,
    same-Extends f.effects,
    connect-Grows config sni resolved (record f { reconnect_timer = none }),
  )
  Step-Grows _ _ (beaten f h) = heartbeat-Grows config clock f
