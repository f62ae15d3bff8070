-- ===== src/Tests/Stream.antt =====
-- The market data feed at small inputs.
use package.text.Mathlib.Text.{◌==◌ as str_eq}
use velocore.Base.{
  ◌≡◌, refl, ◌||◌, ◌&&◌, not, Bool, true, ◌++◌, length, if◌then◌else◌, false, List, [], ◌∷◌, map,
  none, some, String, ok, throws, arith,
}
use velocore.Double.{Cents, cents_double}
use velocore.World.{start}
use velocore.Config.{defaults}
use velocore.Feed.{Feed, broadcast_book_update, schedule_reconnect}
use velocore.Feed.Subscriptions.{JsonReader, holds, subscribe, process_subscription_ack}
use velocore.Feed.Subscriptions.Distinct.{in_channel, process_subscription_ack_lem}
use velocore.Feed.Connection.{new_feed, on_tick, start_feed, stop_feed, destroy}
use velocore.Feed.Session.{Steps, subscribes, sets_tick, broadcasts, starts, stay, next}
use velocore.Types.{MarketDataType}
use velocore.Tick.{MarketTick, blank_tick}
use velocore.Feed.Session.Handlers.{IsFeed}
use velocore.Feed.Session.Invariant.{Steps-IsFeed}
use velocore.Feed.Session.Stopped.{
  told_ticks, called_ticks, stop_feed-Silent, schedule_reconnect-destroy,
}
use velocore.Feed.Messages.{handle_message, parse_tick, parse_trade_message}
use velocore.Feed.Session.Heard.{timeless, heard_text}
use velocore.Feed.Session.Heard.Message.{handle_message-heard_text}
use velocore.Tests.Samples.{ticking}

-- An acknowledgement that names symbols in the channel of trades, and its parts.
data Node : Type 0 where
  trades_of : List String → Node
  word : String → Node

abbrev node_reader : JsonReader Node Cents
node_reader = record {
  parse = λ t. throws "no JSON";
  items = λ j. elim j [ trades_of ss ↦ some (map word ss) | _ ↦ none ];
  contains = λ j key. elim j [ trades_of ss ↦ str_eq key "trades" | _ ↦ false ];
  member = λ j key. j;
  text_of = λ j. elim j [ word s ↦ some s | _ ↦ none ];
  as_text = λ j. throws "no text";
  as_int = λ j. throws "no number";
  text_or = λ j key old. ok old;
  double_or = λ j key old. ok old;
  int_or = λ j key old. ok old;
}

abbrev idle : Feed Cents
idle = new_feed start

abbrev ack : Node
ack = trades_of ("SIM" ∷ "AAA" ∷ [])

process_subscription_ack_lem_example :
    (holds "AAA" (process_subscription_ack node_reader ack idle).subscribed_symbols ≡ (
      in_channel node_reader ack "AAA" "trades"
      || in_channel node_reader ack "AAA" "quotes"
      || in_channel node_reader ack "AAA" "bars"
      || in_channel node_reader ack "AAA" "dailyBars"
      || in_channel node_reader ack "AAA" "updatedBars"))
    × ((process_subscription_ack node_reader ack idle).pending_subscriptions ≡ [])
process_subscription_ack_lem_example = process_subscription_ack_lem node_reader ack idle "AAA"

abbrev asked : Feed Cents
asked = subscribe "SIM" true true false idle

abbrev started : Feed Cents
started = record asked { running = true; has_thread = true }

asked-started : start_feed asked ≡ some started
unfolding start_feed subscribe new_feed
asked-started = refl

Steps-IsFeed_example : IsFeed node_reader ticking defaults started
Steps-IsFeed_example = Steps-IsFeed node_reader ticking defaults start started (
    next idle asked started (subscribes "SIM" true true false idle)
      (next asked started started (starts asked started asked-started) (stay started)))

-- A feed that is running and connected.
abbrev live : Feed Cents
live = record idle { running = true; connected = true; has_stream = true; has_thread = true }

-- After the stop a callback is set, and a client hands a tick over.
abbrev bar : MarketTick Cents
bar = blank_tick "SIM" MarketDataType.bar 0

abbrev called_out : Feed Cents
called_out = broadcast_book_update bar (on_tick (stop_feed live))

abbrev after_stop : Steps node_reader ticking defaults (stop_feed live) called_out
after_stop =
    next (stop_feed live) (on_tick (stop_feed live)) called_out (sets_tick (stop_feed live)) (
      next (on_tick (stop_feed live)) called_out called_out
        (broadcasts bar (on_tick (stop_feed live))) (stay called_out))

stop_feed-Silent_example :
    (called_out.connected ≡ false)
    × (told_ticks called_out.effects
        ≡ told_ticks (stop_feed live).effects
          ++ called_ticks node_reader ticking defaults after_stop)
stop_feed-Silent_example =
    stop_feed-Silent node_reader ticking defaults live called_out after_stop refl

-- It is the tick that was handed over.
one_called : called_ticks node_reader ticking defaults after_stop ≡ bar ∷ []
unfolding on_tick
one_called = refl

-- A feed that has tried ten times.
abbrev tired : Feed Cents
tired = record idle { running = true; has_thread = true; reconnect_attempts = 10 }

schedule_reconnect-destroy_example :
    ((schedule_reconnect defaults tired).running ≡ false)
    × (destroy (schedule_reconnect defaults tired) ≡ false)
schedule_reconnect-destroy_example =
    schedule_reconnect-destroy defaults tired refl refl (omega arith)

-- A message of a trade, and a batch of them in which the empty text is a message without a type.
data Packet : Type 0 where
  trade : String → Packet
  burst : List String → Packet

abbrev member_of : Packet → String → Bool
member_of (trade s) key = not (str_eq s "") && str_eq key "T"
member_of (burst ss) key = false

abbrev symbol_of : Packet → String
symbol_of (trade s) = s
symbol_of (burst ss) = ""

abbrev packet_reader : JsonReader Packet Cents
packet_reader = record {
  parse = λ t. if str_eq t "" then throws "no JSON" else ok (burst ("SIM" ∷ "" ∷ t ∷ []));
  items = λ j. elim j [ burst ss ↦ some (map trade ss) | trade s ↦ none ];
  contains = member_of;
  member = λ j key. j;
  text_of = λ j. none;
  as_text = λ j. ok "t";
  as_int = λ j. throws "no number";
  text_or = λ j key old. if str_eq key "S" then ok (symbol_of j) else ok old;
  double_or = λ j key old. ok old;
  int_or = λ j key old. ok old;
}

abbrev listening : Feed Cents
listening = on_tick live

handle_message-heard_text_example :
    map timeless
      (told_ticks (handle_message packet_reader ticking defaults "AAA" listening).effects)
    ≡ map timeless (told_ticks listening.effects)
      ++ heard_text packet_reader ticking defaults (ok (burst ("SIM" ∷ "" ∷ "AAA" ∷ [])))
unfolding on_tick
handle_message-heard_text_example =
    handle_message-heard_text packet_reader ticking defaults "AAA" listening refl

-- Both trades of the batch are heard.
two_heard :
    length (heard_text packet_reader ticking defaults (ok (burst ("SIM" ∷ "" ∷ "AAA" ∷ [])))) ≡ 2
unfolding parse_tick parse_trade_message
two_heard = refl
