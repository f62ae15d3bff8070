-- ===== src/Feed/Messages.antt =====
-- Messages of src/MarketDataFeed.cpp: the ticks that they hold, and what each type of message does.
pub mod Described
use package.text.Mathlib.Text.{◌==◌ as str_eq}
use Prim.Native.String.{◌++◌ as concat}
use velocore.Base.{
  ℕ, Bool, true, ◌&&◌, ◌||◌, List, [], ◌∷◌, Option, none, some, String, Result, ok, throws, ◌>>=◌,
  pos, if◌then◌else◌,
}
use velocore.Double.{Double}
use velocore.World.{now}
use velocore.Types.{MarketDataType}
use velocore.Tick.{MarketTick, blank_tick}
use velocore.Config.{Configuration}
use velocore.Chars.{to_string}
use velocore.Feed.{Feed, report_error, broadcast_book_update}
use velocore.Feed.Subscriptions.{JsonReader, send_subscription_message, process_subscription_ack}

-- The timer's wait that `startHeartbeat` begins; `handleHeartbeat` begins it again.
module _ {D : Type 0} where
  unfoldable pub start_heartbeat : Configuration → (ℕ → ℕ) → Feed D → Feed D
  unfolding now
  start_heartbeat config clock f =
      let (time, w) = now clock f.world in
      if f.running
      then record f {
        world = w;
        last_heartbeat = time;
        heartbeat_timer = some config.market_data.heartbeat_interval_ms;
      }
      else f

module _ {J D : Type 0} ⦃d : Double D⦄ (r : JsonReader J D) (clock : ℕ → ℕ) where
  -- The members that a tick takes from a message, each with its default; the time is read last.
  unfoldable pub parse_trade_message : J → ℕ → Result (MarketTick D)
  parse_trade_message j time = do
    symbol ← r.text_or j "S" ""
    price ← r.double_or j "p" d.nought
    size ← r.int_or j "s" (pos 0)
    ok (record (blank_tick symbol MarketDataType.trade time) {
      trade_price = price;
      trade_size = size;
    })

  unfoldable pub parse_quote_message : J → ℕ → Result (MarketTick D)
  parse_quote_message j time = do
    symbol ← r.text_or j "S" ""
    bid_price ← r.double_or j "bp" d.nought
    ask_price ← r.double_or j "ap" d.nought
    bid_size ← r.int_or j "bs" (pos 0)
    ask_size ← r.int_or j "as" (pos 0)
    ok (record (blank_tick symbol MarketDataType.quote time) {
      bid_price = bid_price;
      ask_price = ask_price;
      bid_size = bid_size;
      ask_size = ask_size;
    })

  unfoldable pub parse_bar_message : J → ℕ → Result (MarketTick D)
  parse_bar_message j time = do
    symbol ← r.text_or j "S" ""
    open_price ← r.double_or j "o" d.nought
    high ← r.double_or j "h" d.nought
    low ← r.double_or j "l" d.nought
    close ← r.double_or j "c" d.nought
    volume ← r.int_or j "v" (pos 0)
    ok (record (blank_tick symbol MarketDataType.bar time) {
      open_price = open_price;
      high = high;
      low = low;
      close = close;
      volume = volume;
    })

  -- The types of market data: trade, quote, and the three of bars.
  abbrev pub is_bar : String → Bool
  is_bar type = str_eq type "b" || str_eq type "d" || str_eq type "u"

  abbrev pub is_market_data : String → Bool
  is_market_data type = str_eq type "t" || str_eq type "q" || is_bar type

  -- The tick of a message; none for a type that is no market data.
  unfoldable pub parse_tick : String → J → ℕ → Option (Result (MarketTick D))
  unfolding parse_trade_message parse_quote_message parse_bar_message
  parse_tick type j time =
      if str_eq type "t"
      then some (parse_trade_message j time)
      else if str_eq type "q"
      then some (parse_quote_message j time)
      else if is_bar type
      then some (parse_bar_message j time)
      else none

  -- A tick with a symbol goes to the callback; an exception is caught, before the time was read.
  unfoldable pub broadcast_item : String → J → Feed D → Feed D
  unfolding parse_tick broadcast_book_update now
  broadcast_item type j f =
      let (time, w) = now clock f.world in
      elim (parse_tick type j time) [
        | none ↦ f
        | some (throws e) ↦ f
        | some (ok tick) ↦
            let read = record f { world = w } in
            if str_eq tick.symbol "" then read else broadcast_book_update tick read
      ]

  unfoldable pub parse_typed : Result String → J → Feed D → Feed D × Result (Unit {0})
  unfolding broadcast_item
  parse_typed (throws e) j f = (f, throws e)
  parse_typed (ok type) j f = (broadcast_item type j f, ok tt)

  -- `parseMarketData`, on the array of the one message.
  unfoldable pub parse_market_data : J → Feed D → Feed D × Result (Unit {0})
  unfolding parse_typed
  parse_market_data j f =
      if r.contains j "T" then parse_typed (r.as_text (r.member j "T")) j f else (f, ok tt)

  -- The log line of market data reads the symbol, which may throw.
  unfoldable pub on_market_data : Result String → J → Feed D → Feed D × Result (Unit {0})
  unfolding parse_market_data
  on_market_data (throws e) j f = (f, throws e)
  on_market_data (ok symbol) j f = parse_market_data j f

  -- The branch of error messages.
  unfoldable pub on_error_text : Result String → Feed D → Feed D × Result (Unit {0})
  unfolding report_error
  on_error_text (throws e) f = (f, throws e)
  on_error_text (ok error) f = (report_error (concat "Alpaca error: " error) f, ok tt)

  module _ (config : Configuration) where
    -- The text of an error message: `msg`, else `message`, else a default, with the code if there is one.
    unfoldable pub error_text : J → Result String
    unfolding to_string
    error_text j = do
      base ←
          (if r.contains j "msg"
            then r.as_text (r.member j "msg")
            else if r.contains j "message"
            then r.as_text (r.member j "message")
            else ok "Unknown error")
      if r.contains j "code"
          then (do
            code ← r.as_int (r.member j "code")
            ok (concat (concat (concat "Error " (to_string code)) ": ") base))
          else ok base

    -- What is done after authentication.
    unfoldable pub handle_success : String → Feed D → Feed D
    unfolding send_subscription_message start_heartbeat
    handle_success msg f =
        if str_eq msg "authenticated"
        then start_heartbeat config clock
            (send_subscription_message (record f { authenticated = true }))
        else f

    unfoldable pub on_success : Result String → Feed D → Feed D × Result (Unit {0})
    unfolding handle_success
    on_success (throws e) f = (f, throws e)
    on_success (ok msg) f = (handle_success msg f, ok tt)

    -- The branches on the type of a message.
    unfoldable pub dispatch : String → J → Feed D → Feed D × Result (Unit {0})
    unfolding on_success process_subscription_ack error_text on_error_text on_market_data
    dispatch type j f =
        if str_eq type "success" && r.contains j "msg"
        then on_success (r.as_text (r.member j "msg")) f
        else if str_eq type "subscription"
        then (process_subscription_ack r j f, ok tt)
        else if str_eq type "error"
        then on_error_text (error_text j) f
        else if is_market_data type
        then on_market_data (r.text_or j "S" "unknown") j f
        else (f, ok tt)

    unfoldable pub dispatch_typed : Result String → J → Feed D → Feed D × Result (Unit {0})
    unfolding dispatch
    dispatch_typed (throws e) j f = (f, throws e)
    dispatch_typed (ok type) j f = dispatch type j f

    -- `handleSingleMessage`. A message without a type does nothing; any other one counts as a sign of
    -- life.
    unfoldable pub handle_single_message : J → Feed D → Feed D × Result (Unit {0})
    unfolding dispatch_typed now
    handle_single_message j f =
        let (time, w) = now clock f.world in
        if r.contains j "T"
        then dispatch_typed (r.as_text (r.member j "T")) j
            (record f { world = w; last_heartbeat = time })
        else (f, ok tt)

    -- An exception ends the loop over a batch: what is left is what the message that threw has left.
    abbrev pub go_on : Result (Unit {0}) → Feed D → Feed D → Feed D
    go_on (throws e) f rest = f
    go_on (ok u) f rest = rest

    unfoldable pub handle_items : List J → Feed D → Feed D
    unfolding handle_single_message
    handle_items [] f = f
    handle_items (j ∷ js) f =
        let rest = handle_items js (handle_single_message j f).0 in
        go_on (handle_single_message j f).1 (handle_single_message j f).0 rest

    unfoldable pub handle_batch : J → Option (List J) → Feed D → Feed D
    unfolding handle_items
    handle_batch j (some js) f = handle_items js f
    handle_batch j none f = (handle_single_message j f).0

    unfoldable pub handle_parsed : Result J → Feed D → Feed D
    unfolding handle_batch
    handle_parsed (throws e) f = f
    handle_parsed (ok j) f = handle_batch j (r.items j) f

    -- `handleMessage`.
    unfoldable pub handle_message : String → Feed D → Feed D
    unfolding handle_parsed
    handle_message message f = handle_parsed (r.parse message) f
