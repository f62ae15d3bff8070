-- ===== src/Feed/Session/Heard.antt =====
-- Which ticks a text message makes the callback of src/MarketDataFeed.cpp hear.
pub mod Message
use package.text.Mathlib.Text.{◌==◌ as str_eq}
use package.text.Mathlib.TextEquality.{eq_iff}
use Prim.Native.String.{◌++◌ as concat}
use velocore.Base.{
  ℕ, ◌≡◌, refl, sym, ap, ◌∙◌, inl, inr, Bool, true, false, ◌&&◌, ◌||◌, List, [], ◌∷◌, ◌++◌, map,
  Option, none, some, String, Result, ok, throws, arith, Option-cases, Result-cases, Bool-cases,
  subst, if◌then◌else◌,
}
use mathlib.Core.List.{append-nil, append_assoc, map-append}
use velocore.Double.{Double}
use velocore.World.{World, now}
use velocore.Json.{Json}
use velocore.Tick.{MarketTick}
use velocore.Config.{Configuration}
use velocore.Feed.{
  Feed, Effect, report_error, broadcast_book_update, send_message, error_told, ticked, posts, write,
}
use velocore.Feed.Subscriptions.{
  JsonReader, subscription_json, send_subscription_message, process_subscription_ack,
}
use mathlib.Core.Option
use velocore.Feed.Messages.Described.{kind_of, has_kind, described}
use velocore.Feed.Messages.{
  is_market_data, parse_tick, start_heartbeat, broadcast_item, parse_typed, parse_market_data,
  error_text, handle_success, on_market_data, on_error_text, on_success, dispatch_typed, go_on,
  handle_batch, handle_parsed, dispatch, handle_single_message, handle_items, handle_message,
  parse_trade_message, parse_quote_message, parse_bar_message,
}
use velocore.Feed.Session.Stopped.{told_ticks, told_ticks-append}

abbrev pub is_throws {ℓ} : {A : Type ℓ} → Result A → Bool
is_throws (throws e) = true
is_throws (ok x) = false

module _ {D : Type 0} where
  -- A tick without its time.
  abbrev pub timeless : MarketTick D → MarketTick D
  timeless t = record t { timestamp = 0 }

  -- The callback hears these ticks, if there is one.
  abbrev pub Tells : Feed D → Feed D → List (MarketTick D) → Type 0
  Tells f g ts =
      (g.tick_callback ≡ f.tick_callback)
      × (map timeless (told_ticks g.effects)
          ≡ map timeless (told_ticks f.effects) ++ (if f.tick_callback then ts else []))

  -- Nothing is heard.
  abbrev pub Quiet : Feed D → Feed D → Type 0
  Quiet f g = (g.tick_callback ≡ f.tick_callback) × (told_ticks g.effects ≡ told_ticks f.effects)

  pub Quiet-Tells : (f g : Feed D) → Quiet f g → Tells f g []
  Quiet-Tells f g (same, told) = (same, ap (map timeless) told ∙ sym (nothing f.tick_callback))
    where
      nothing :
          (b : Bool)
          → map timeless (told_ticks f.effects) ++ (if b then [] else [])
            ≡ map timeless (told_ticks f.effects)
      nothing true = append-nil _
      nothing false = append-nil _

  pub report_error-Quiet : (m : String) (f : Feed D) → Quiet f (report_error m f)
  unfolding report_error
  report_error-Quiet m f =
      ground
        (arith, told_ticks-append f.effects (error_told m ∷ []), append-nil (told_ticks f.effects))

  broadcast-Tells :
      (tick : MarketTick D) (w : World) (f : Feed D)
      → let read = record f { world = w } in
        Tells f
          (if str_eq tick.symbol "" then read else broadcast_book_update tick read)
          (if str_eq tick.symbol "" then [] else timeless tick ∷ [])
  unfolding broadcast_book_update
  broadcast-Tells tick w f = ground (
    arith,
    told_ticks-append f.effects (ticked tick ∷ []),
    map-append timeless (told_ticks f.effects) (tick ∷ []),
    append-nil (map timeless (told_ticks f.effects)),
  )

  pub Tells-trans :
      (f g h : Feed D) (xs ys : List (MarketTick D))
      → Tells f g xs
      → Tells g h ys
      → Tells f h (xs ++ ys)
  Tells-trans f g h xs ys (b, x) (c, y) = (
    c ∙ b,
    y ∙ ap (λ l. l ++ (if g.tick_callback then ys else [])) x ∙ rw b (both f.tick_callback),
  )
    where
      both :
          (b : Bool)
          → (map timeless (told_ticks f.effects) ++ (if b then xs else []))
              ++ (if b then ys else [])
            ≡ map timeless (told_ticks f.effects) ++ (if b then xs ++ ys else [])
      both true = append_assoc (map timeless (told_ticks f.effects)) xs ys
      both false = append-nil _

module _ {J D : Type 0} ⦃d : Double D⦄ (r : JsonReader J D) (clock : ℕ → ℕ)
    (config : Configuration) where
  -- The tick of a message, if it can be read and has a symbol.
  abbrev pub named_tick : Option (Result (MarketTick D)) → List (MarketTick D)
  named_tick none = []
  named_tick (some (throws e)) = []
  named_tick (some (ok t)) = if str_eq t.symbol "" then [] else t ∷ []

  abbrev pub heard_typed : Result String → J → List (MarketTick D)
  heard_typed (throws e) j = []
  heard_typed (ok type) j =
      if is_throws (r.text_or j "S" "unknown")
      then []
      else named_tick (Option.map (described r j 0) (kind_of type))

  -- What one message lets hear: a message of market data its tick, any other one nothing.
  abbrev pub heard : J → List (MarketTick D)
  heard j = if r.contains j "T" then heard_typed (r.as_text (r.member j "T")) j else []

  -- An error message whose text is no text, or whose code is no number.
  abbrev pub is_bad_error : J → Bool
  is_bad_error j =
      (if r.contains j "msg"
        then is_throws (r.as_text (r.member j "msg"))
        else if r.contains j "message"
        then is_throws (r.as_text (r.member j "message"))
        else false)
      || r.contains j "code" && is_throws (r.as_int (r.member j "code"))

  abbrev pub stops_typed : Result String → J → Bool
  stops_typed (throws e) j = true
  stops_typed (ok type) j =
      if str_eq type "success" && r.contains j "msg"
      then is_throws (r.as_text (r.member j "msg"))
      else if str_eq type "subscription"
      then false
      else if str_eq type "error"
      then is_bad_error j
      else if has_kind type
      then is_throws (r.text_or j "S" "unknown")
      else false

  -- A message whose members are of the wrong types ends the batch.
  abbrev pub stops : J → Bool
  stops j = if r.contains j "T" then stops_typed (r.as_text (r.member j "T")) j else false

  -- The messages of a batch, up to the first one that ends it.
  abbrev pub heard_all : List J → List (MarketTick D)
  heard_all [] = []
  heard_all (j ∷ js) = let rest = heard_all js in heard j ++ (if stops j then [] else rest)

  -- A text message: a single message or a batch; none if it is no JSON.
  abbrev pub heard_items : J → Option (List J) → List (MarketTick D)
  heard_items j none = heard j
  heard_items j (some js) = heard_all js

  abbrev pub heard_text : Result J → List (MarketTick D)
  heard_text (throws e) = []
  heard_text (ok j) = heard_items j (r.items j)

  pub handle_success-Quiet : (m : String) (f : Feed D) → Quiet f (handle_success r clock config m f)
  unfolding handle_success start_heartbeat send_subscription_message send_message
  handle_success-Quiet m f = ground (
    arith,
    told_ticks-append f.effects (posts (write (subscription_json f.pending_subscriptions)) ∷ []),
    append-nil (told_ticks f.effects),
  )

  -- The time of a tick is that of its reading; nothing else depends on it.
  abbrev retime : Option (Result (MarketTick D)) → Option (Result (MarketTick D))
  retime none = none
  retime (some (throws e)) = some (throws e)
  retime (some (ok t)) = some (ok (timeless t))

  parse_tick-retime :
      (type : String) (j : J) (time : ℕ)
      → retime (parse_tick r clock type j time) ≡ parse_tick r clock type j 0
  unfolding parse_tick parse_trade_message parse_quote_message parse_bar_message
  parse_tick-retime type j time = ground arith

  pub broadcast_item-Tells :
      (type : String) (j : J) (f : Feed D)
      → Tells f (broadcast_item r clock type j f) (named_tick (parse_tick r clock type j 0))
  unfolding broadcast_item parse_tick
  broadcast_item-Tells type j f =
      let (time, w) = now clock f.world in
      let timed = parse_tick-retime type j time in
      elim (Option-cases (parse_tick r clock type j time)) [
        | inl e ↦ rw (e, sym timed ∙ ap retime e, broadcast_item) (Quiet-Tells f f (refl, refl))
        | inr (parsed, e) ↦ elim (Result-cases parsed) [
          | inr (m, g) ↦
              rw (e, g, sym timed ∙ ap retime (e ∙ ap some g), broadcast_item)
                (Quiet-Tells f f (refl, refl))
          | inl (tick, g) ↦
              rw (e, g, sym timed ∙ ap retime (e ∙ ap some g), broadcast_item)
                (broadcast-Tells tick w f)
        ]
      ]
