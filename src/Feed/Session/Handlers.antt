-- ===== src/Feed/Session/Handlers.antt =====
-- The handlers of src/MarketDataFeed.cpp keep the subscriptions in order and the attempts to reconnect
-- within their maximum.
use Prim.Native.String.{◌++◌ as concat}
use velocore.Url.{Url, parse_web_socket_url}
use velocore.Chars.{codes}
use velocore.Base.{
  ℕ, ◌≤◌, Bool, true, List, [], ◌∷◌, Option, none, some, String, Result, ok, throws, pos_part,
  arith,
}
use velocore.Double.{Double}
use velocore.World.{now}
use velocore.Json.{Json}
use velocore.Config.{Configuration}
use velocore.Feed.{Feed, report_error, broadcast_book_update, schedule_reconnect, send_message}
use velocore.Feed.Subscriptions.{JsonReader, send_subscription_message, process_subscription_ack}
use velocore.Feed.Subscriptions.Distinct.{IsSubscribed, process_subscription_ack-IsSubscribed}
use velocore.Feed.Messages.{
  start_heartbeat, broadcast_item, parse_typed, parse_market_data, error_text, handle_success,
  on_market_data, on_error_text, on_success, dispatch_typed, go_on, handle_batch, handle_parsed,
  dispatch, handle_single_message, handle_items, handle_message,
}
use velocore.Feed.Connection.{fail, on_resolve, connect_to, connect_web_socket}

module _ {J D : Type 0} ⦃d : Double D⦄ (r : JsonReader J D) (clock : ℕ → ℕ)
    (config : Configuration) where
  -- The subscriptions are in order, and the attempts to reconnect are within the configured maximum.
  pub record IsFeed (f : Feed D) : Type 0 where
    pub subscriptions : IsSubscribed f
    pub attempts : f.reconnect_attempts ≤ pos_part config.market_data.max_reconnect_attempts

  pub feed :
      {f : Feed D}
      → IsSubscribed f
      → f.reconnect_attempts ≤ pos_part config.market_data.max_reconnect_attempts
      → IsFeed f
  feed s a = record { subscriptions = s; attempts = a }

  pub fail-IsFeed : (what ec : String) (f : Feed D) → IsFeed f → IsFeed (fail config what ec f)
  unfolding fail report_error schedule_reconnect
  fail-IsFeed what ec f v = ground arith

  pub send_message-IsFeed :
      (message : Json D) (f : Feed D) → IsFeed f → IsFeed (send_message message f)
  unfolding send_message
  send_message-IsFeed message f v = ground arith

  pub on_resolve-IsFeed :
      (resolved : Option String) (f : Feed D) → IsFeed f → IsFeed (on_resolve config resolved f)
  unfolding on_resolve
  on_resolve-IsFeed (some e) f v = fail-IsFeed "Failed to connect: " e f v
  on_resolve-IsFeed none f v = feed v.subscriptions v.attempts

  connect_to-IsFeed :
      (sni : Bool) (resolved : Option String) (valid : Bool) (url : Url) (f : Feed D)
      → IsFeed f
      → IsFeed (connect_to config sni resolved valid url f)
  unfolding connect_to
  connect_to-IsFeed sni resolved valid url f v =
      let streamed = record f { has_stream = true } in
      let stream-IsFeed : IsFeed streamed = feed v.subscriptions v.attempts in
      ground (
        arith,
        fail-IsFeed "Failed to connect: " (concat "Invalid WebSocket URL: " config.alpaca.data_url)
            f v,
        fail-IsFeed "Failed to connect: " "Failed to set SNI hostname" streamed stream-IsFeed,
        on_resolve-IsFeed resolved (record f { has_stream = true; connection = url })
            (feed v.subscriptions v.attempts),
      )

  pub connect-IsFeed :
      (sni : Bool) (resolved : Option String) (f : Feed D)
      → IsFeed f
      → IsFeed (connect_web_socket config sni resolved f)
  unfolding connect_web_socket
  connect-IsFeed sni resolved f v =
      let parsed = parse_web_socket_url [] (codes config.alpaca.data_url) in
      connect_to-IsFeed sni resolved parsed.0 parsed.1 f v

  report_error-IsFeed : (e : String) (f : Feed D) → IsFeed f → IsFeed (report_error e f)
  unfolding report_error
  report_error-IsFeed e f v = ground arith

  ack_attempts :
      (j : J) (f : Feed D)
      → f.reconnect_attempts ≤ pos_part config.market_data.max_reconnect_attempts
      → (process_subscription_ack r j f).reconnect_attempts
        ≤ pos_part config.market_data.max_reconnect_attempts
  unfolding process_subscription_ack
  ack_attempts j f v = v

  ack-IsFeed : (j : J) (f : Feed D) → IsFeed f → IsFeed (process_subscription_ack r j f)
  ack-IsFeed j f v =
      feed (process_subscription_ack-IsSubscribed r j f) (ack_attempts j f v.attempts)

  broadcast_item-IsFeed :
      (type : String) (j : J) (f : Feed D) → IsFeed f → IsFeed (broadcast_item r clock type j f)
  unfolding broadcast_item broadcast_book_update
  broadcast_item-IsFeed type j f v = ground arith

  handle_success-IsFeed :
      (m : String) (f : Feed D) → IsFeed f → IsFeed (handle_success r clock config m f)
  unfolding handle_success send_subscription_message send_message start_heartbeat
  handle_success-IsFeed m f v = ground arith

  parse_market_data-IsFeed :
      (j : J) (f : Feed D) → IsFeed f → IsFeed (parse_market_data r clock j f).0
  unfolding parse_market_data
  parse_market_data-IsFeed j f v = ground (arith, typed (r.as_text (r.member j "T")))
    where
      typed : (t : Result String) → IsFeed (parse_typed r clock t j f).0
      typed (throws e) = v
      typed (ok type) = broadcast_item-IsFeed type j f v

  on_market_data-IsFeed :
      (t : Result String) (j : J) (f : Feed D) → IsFeed f → IsFeed (on_market_data r clock t j f).0
  unfolding on_market_data
  on_market_data-IsFeed (throws e) j f v = v
  on_market_data-IsFeed (ok symbol) j f v = parse_market_data-IsFeed j f v

  on_error_text-IsFeed :
      (t : Result String) (f : Feed D) → IsFeed f → IsFeed (on_error_text r clock t f).0
  unfolding on_error_text
  on_error_text-IsFeed (throws e) f v = v
  on_error_text-IsFeed (ok error) f v = report_error-IsFeed _ f v

  on_success-IsFeed :
      (t : Result String) (f : Feed D) → IsFeed f → IsFeed (on_success r clock config t f).0
  unfolding on_success
  on_success-IsFeed (throws e) f v = v
  on_success-IsFeed (ok m) f v = handle_success-IsFeed m f v

  dispatch-IsFeed :
      (type : String) (j : J) (f : Feed D) → IsFeed f → IsFeed (dispatch r clock config type j f).0
  unfolding dispatch
  dispatch-IsFeed type j f v = ground (
    arith,
    on_success-IsFeed (r.as_text (r.member j "msg")) f v,
    ack-IsFeed j f v,
    on_error_text-IsFeed (error_text r clock config j) f v,
    on_market_data-IsFeed (r.text_or j "S" "unknown") j f v,
  )

  dispatch_typed-IsFeed :
      (t : Result String) (j : J) (f : Feed D)
      → IsFeed f
      → IsFeed (dispatch_typed r clock config t j f).0
  unfolding dispatch_typed
  dispatch_typed-IsFeed (throws e) j f v = v
  dispatch_typed-IsFeed (ok type) j f v = dispatch-IsFeed type j f v

  handle_single-IsFeed :
      (j : J) (f : Feed D) → IsFeed f → IsFeed (handle_single_message r clock config j f).0
  unfolding handle_single_message
  handle_single-IsFeed j f v =
      let (time, w) = now clock f.world in
      ground (
        arith,
        dispatch_typed-IsFeed (r.as_text (r.member j "T")) j
            (record f { world = w; last_heartbeat = time }) (feed v.subscriptions v.attempts),
      )

  go_on-IsFeed :
      (u : Result (Unit {0})) (f rest : Feed D)
      → IsFeed f
      → IsFeed rest
      → IsFeed (go_on r clock config u f rest)
  go_on-IsFeed (throws e) f rest v w = v
  go_on-IsFeed (ok u) f rest v w = w

  handle_items-IsFeed :
      (js : List J) (f : Feed D) → IsFeed f → IsFeed (handle_items r clock config js f)
  unfolding handle_items
  handle_items-IsFeed [] f v = v
  handle_items-IsFeed (j ∷ js) f v =
      let one = handle_single-IsFeed j f v in
      go_on-IsFeed (handle_single_message r clock config j f).1 _ _ one
        (handle_items-IsFeed js (handle_single_message r clock config j f).0 one)

  pub handle_message-IsFeed :
      (m : String) (f : Feed D) → IsFeed f → IsFeed (handle_message r clock config m f)
  unfolding handle_message handle_parsed handle_batch
  handle_message-IsFeed m f v = parsed (r.parse m)
    where
      batch : (j : J) (js : Option (List J)) → IsFeed (handle_batch r clock config j js f)
      batch j (some js) = handle_items-IsFeed js f v
      batch j none = handle_single-IsFeed j f v

      parsed : (x : Result J) → IsFeed (handle_parsed r clock config x f)
      parsed (throws e) = v
      parsed (ok j) = batch j (r.items j)
