-- ===== src/Feed/Session/Heard/Message.antt =====
-- `handleMessage` of src/MarketDataFeed.cpp lets the callback hear the ticks of its message or batch.
use package.text.Mathlib.Text.{◌==◌ as str_eq}
use package.text.Mathlib.TextEquality.{eq_iff}
use Prim.Native.String.{◌++◌ as concat}
use velocore.Base.{
  ℕ, ◌≡◌, refl, sym, ap, ◌∙◌, inl, inr, Bool, ◌&&◌, true, false, List, [], ◌∷◌, ◌++◌, map, Option,
  none, some, String, Result, ok, throws, arith, Bool-cases, subst, if◌then◌else◌,
}
use mathlib.Core.List.{append-nil}
use velocore.Double.{Double}
use velocore.World.{now}
use velocore.Tick.{MarketTick}
use velocore.Config.{Configuration}
use velocore.Feed.{Feed, report_error}
use velocore.Feed.Subscriptions.{JsonReader, process_subscription_ack}
use velocore.Feed.Messages.{
  is_market_data, parse_tick, parse_typed, parse_market_data, error_text, handle_success,
  on_market_data, on_error_text, on_success, dispatch_typed, go_on, handle_batch, handle_parsed,
  dispatch, handle_single_message, handle_items, handle_message,
}
use velocore.Feed.Session.Stopped.{told_ticks}
use velocore.Feed.Messages.Described.{parse_tick-described, is_market_data-has_kind}
use velocore.Feed.Session.Heard.{
  is_bad_error, is_throws, timeless, Tells, Quiet-Tells, report_error-Quiet, Tells-trans,
  named_tick, heard_typed, heard, stops_typed, stops, heard_all, heard_items, heard_text,
  handle_success-Quiet, broadcast_item-Tells,
}

module _ {J D : Type 0} ⦃d : Double D⦄ (r : JsonReader J D) (clock : ℕ → ℕ)
    (config : Configuration) where
  -- A handler lets these ticks be heard, and ends the batch or does not.
  abbrev Handled : Feed D → Feed D × Result (Unit {0}) → List (MarketTick D) → Bool → Type 0
  Handled f p ts stop = Tells f p.0 ts × (is_throws p.1 ≡ stop)

  parse_market_data-Handled :
      (type : String) (j : J) (f : Feed D)
      → r.contains j "T" ≡ true
      → r.as_text (r.member j "T") ≡ ok type
      → Handled f
          (parse_market_data r clock j f)
          (named_tick r clock config (parse_tick r clock type j 0))
          false
  unfolding parse_market_data parse_typed
  parse_market_data-Handled type j f c t =
      rw (c, t) (broadcast_item-Tells r clock config type j f, refl)

  on_market_data-Handled :
      (s : Result String) (type : String) (j : J) (f : Feed D)
      → r.contains j "T" ≡ true
      → r.as_text (r.member j "T") ≡ ok type
      → Handled f
          (on_market_data r clock s j f)
          (if is_throws s then [] else named_tick r clock config (parse_tick r clock type j 0))
          (is_throws s)
  unfolding on_market_data
  on_market_data-Handled (throws e) type j f c t = (Quiet-Tells f f (refl, refl), refl)
  on_market_data-Handled (ok symbol) type j f c t = parse_market_data-Handled type j f c t

  on_error_text-Handled :
      (t : Result String) (f : Feed D) → Handled f (on_error_text r clock t f) [] (is_throws t)
  unfolding on_error_text
  on_error_text-Handled (throws e) f = (Quiet-Tells f f (refl, refl), refl)
  on_error_text-Handled (ok error) f =
      let told = concat "Alpaca error: " error in
      (Quiet-Tells f (report_error told f) (report_error-Quiet told f), refl)

  on_success-Handled :
      (t : Result String) (f : Feed D) → Handled f (on_success r clock config t f) [] (is_throws t)
  unfolding on_success
  on_success-Handled (throws e) f = (Quiet-Tells f f (refl, refl), refl)
  on_success-Handled (ok m) f = (
    Quiet-Tells f (handle_success r clock config m f) (handle_success-Quiet r clock config m f),
    refl,
  )

  ack-Handled : (j : J) (f : Feed D) → Handled f (process_subscription_ack r j f, ok tt) [] false
  unfolding process_subscription_ack
  ack-Handled j f = (Quiet-Tells f (process_subscription_ack r j f) (refl, refl), refl)

  -- Messages of the other types hold no tick.
  parse_tick-none :
      (type : String) (j : J)
      → is_market_data r clock type ≡ false
      → parse_tick r clock type j 0 ≡ none
  unfolding parse_tick
  parse_tick-none type j h = ground arith

  not_market :
      (type name : String)
      → str_eq type name ≡ true
      → is_market_data r clock name ≡ false
      → is_market_data r clock type ≡ false
  not_market type name e h = rw ((eq_iff type name).0 e) h

  -- What the code reads of a message of a type, and whether it throws there.
  abbrev read_ticks : String → J → List (MarketTick D)
  read_ticks type j =
      if is_throws (r.text_or j "S" "unknown")
      then []
      else named_tick r clock config (parse_tick r clock type j 0)

  abbrev read_stop : String → J → Bool
  read_stop type j =
      if str_eq type "success" && r.contains j "msg"
      then is_throws (r.as_text (r.member j "msg"))
      else if str_eq type "subscription"
      then false
      else if str_eq type "error"
      then is_throws (error_text r clock config j)
      else if is_market_data r clock type
      then is_throws (r.text_or j "S" "unknown")
      else false

  read_ticks-heard :
      (type : String) (j : J) → read_ticks type j ≡ heard_typed r clock config (ok type) j
  read_ticks-heard type j = rw (parse_tick-described r clock type j 0) refl

  error_text-throws :
      (j : J) → is_throws (error_text r clock config j) ≡ is_bad_error r clock config j
  unfolding error_text
  error_text-throws j = ground arith

  read_stop-stops :
      (type : String) (j : J) → read_stop type j ≡ stops_typed r clock config (ok type) j
  read_stop-stops type j = rw (error_text-throws j, is_market_data-has_kind r clock type) refl

  dispatch-Handled :
      (type : String) (j : J) (f : Feed D)
      → r.contains j "T" ≡ true
      → r.as_text (r.member j "T") ≡ ok type
      → Handled f (dispatch r clock config type j f) (read_ticks type j) (read_stop type j)
  unfolding dispatch
  dispatch-Handled type j f c t = ground (
    arith,
    on_success-Handled (r.as_text (r.member j "msg")) f,
    ack-Handled j f,
    on_error_text-Handled (error_text r clock config j) f,
    on_market_data-Handled (r.text_or j "S" "unknown") type j f c t,
    parse_tick-none type j,
    not_market type "success",
    not_market type "subscription",
    not_market type "error",
  )

  dispatch_typed-Handled :
      (t : Result String) (j : J) (f : Feed D)
      → r.contains j "T" ≡ true
      → r.as_text (r.member j "T") ≡ t
      → Handled f
          (dispatch_typed r clock config t j f)
          (heard_typed r clock config t j)
          (stops_typed r clock config t j)
  unfolding dispatch_typed
  dispatch_typed-Handled (throws e) j f c t = (Quiet-Tells f f (refl, refl), refl)
  dispatch_typed-Handled (ok type) j f c t =
      rw (sym (read_ticks-heard type j), sym (read_stop-stops type j))
        (dispatch-Handled type j f c t)

  handle_single-Handled :
      (j : J) (f : Feed D)
      → Handled f
          (handle_single_message r clock config j f)
          (heard r clock config j)
          (stops r clock config j)
  unfolding handle_single_message
  handle_single-Handled j f =
      let (time, w) = now clock f.world in
      elim (Bool-cases (r.contains j "T")) [
        | inl c ↦ rw c (
            dispatch_typed-Handled (r.as_text (r.member j "T")) j
              (record f { world = w; last_heartbeat = time }) c refl)
        | inr c ↦ rw c (Quiet-Tells f f (refl, refl), refl)
      ]

  go_on-Tells :
      (u : Result (Unit {0})) (f g rest : Feed D) (xs ys : List (MarketTick D))
      → Tells f g xs
      → Tells g rest ys
      → Tells f (go_on r clock config u g rest) (xs ++ (if is_throws u then [] else ys))
  go_on-Tells (throws e) f g rest xs ys x y = rw (append-nil xs) x
  go_on-Tells (ok u) f g rest xs ys x y = Tells-trans f g rest xs ys x y

  handle_items-Tells :
      (js : List J) (f : Feed D)
      → Tells f (handle_items r clock config js f) (heard_all r clock config js)
  unfolding handle_items
  handle_items-Tells [] f = Quiet-Tells f f (refl, refl)
  handle_items-Tells (j ∷ js) f =
      let one = handle_single_message r clock config j f in
      let handled = handle_single-Handled j f in
      subst
        (λ b.
          Tells f (handle_items r clock config (j ∷ js) f)
            (heard r clock config j ++ (if b then [] else heard_all r clock config js)))
        handled.1
        (go_on-Tells one.1 f one.0 (handle_items r clock config js one.0) (heard r clock config j)
          (heard_all r clock config js) handled.0 (handle_items-Tells js one.0))

  handle_message-Tells :
      (m : String) (f : Feed D)
      → Tells f (handle_message r clock config m f) (heard_text r clock config (r.parse m))
  unfolding handle_message handle_parsed handle_batch
  handle_message-Tells m f = parsed (r.parse m)
    where
      batch :
          (j : J) (js : Option (List J))
          → Tells f (handle_batch r clock config j js f) (heard_items r clock config j js)
      batch j (some js) = handle_items-Tells js f
      batch j none = (handle_single-Handled j f).0

      parsed :
          (x : Result J) → Tells f (handle_parsed r clock config x f) (heard_text r clock config x)
      parsed (throws e) = Quiet-Tells f f (refl, refl)
      parsed (ok j) = batch j (r.items j)

  -- With a callback set, a text message tells it, the times aside, exactly the ticks that `heard_text`
  -- names, after those of before: nothing if it is no JSON; of a single message its tick; of a batch the
  -- ticks of its messages in their order, up to and with the first message that ends the batch. A
  -- message has a tick if its type is that of a trade (t), a quote (q) or a bar (b, d or u), the members
  -- that such a tick takes can be read and its symbol is not empty; the tick has each of its members
  -- from the named one of the message, and the defaults elsewhere.
  pub handle_message-heard_text :
      (m : String) (f : Feed D)
      → f.tick_callback ≡ true
      → map timeless (told_ticks (handle_message r clock config m f).effects)
        ≡ map timeless (told_ticks f.effects) ++ heard_text r clock config (r.parse m)
  handle_message-heard_text m f set =
      (handle_message-Tells m f).1
      ∙ ap
          (λ b.
            map timeless (told_ticks f.effects)
            ++ (if b then heard_text r clock config (r.parse m) else []))
          set
