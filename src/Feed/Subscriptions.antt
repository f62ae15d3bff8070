-- ===== src/Feed/Subscriptions.antt =====
-- Subscriptions of src/MarketDataFeed.cpp: `subscribe`, `unsubscribe`, the messages that they send, and
-- the acknowledgement.
pub mod Distinct
use package.text.Mathlib.Text.{◌==◌ as str_eq}
use velocore.Base.{
  Result, ℤ, Bool, true, false, ◌&&◌, ◌||◌, not, List, [], ◌∷◌, ◌++◌, Option, none, some, String,
  map, if◌then◌else◌,
}
use velocore.Json.{Json, text, obj, arr}
use velocore.Feed.{
  Feed, MarketSubscription, emit, send_message, posts, send_subscription, send_unsubscription,
}

-- `subscribed_symbols_`, a set, as the list of its elements in some order.
abbrev pub holds : String → List String → Bool
holds symbol [] = false
holds symbol (s ∷ ss) = str_eq s symbol || holds symbol ss

abbrev pub insert : String → List String → List String
insert symbol ss = if holds symbol ss then ss else ss ++ symbol ∷ []

abbrev pub erase : String → List String → List String
erase symbol [] = []
erase symbol (s ∷ ss) = if str_eq s symbol then erase symbol ss else s ∷ erase symbol ss

abbrev pub is_pending : String → List MarketSubscription → Bool
is_pending symbol [] = false
is_pending symbol (p ∷ ps) = str_eq p.symbol symbol || is_pending symbol ps

-- `std::remove_if` with `erase`.
abbrev pub remove_pending : String → List MarketSubscription → List MarketSubscription
remove_pending symbol [] = []
remove_pending symbol (p ∷ ps) =
    if str_eq p.symbol symbol then remove_pending symbol ps else p ∷ remove_pending symbol ps

-- The symbols whose subscription has a flag, in order.
abbrev pub wanted : (MarketSubscription → Bool) → List MarketSubscription → List String
wanted flag [] = []
wanted flag (p ∷ ps) = if flag p then p.symbol ∷ wanted flag ps else wanted flag ps

module _ {D : Type 0} where
  unfoldable pub subscribe : String → Bool → Bool → Bool → Feed D → Feed D
  subscribe symbol trades quotes bars f =
      if holds symbol f.subscribed_symbols || is_pending symbol f.pending_subscriptions
      then f
      else if f.connected && f.authenticated
      then emit (posts send_subscription) queued
      else queued
    where
      queued : Feed D
      queued = record f {
        pending_subscriptions =
            f.pending_subscriptions
            ++ record { symbol = symbol; trades = trades; quotes = quotes; bars = bars } ∷ [];
      }

  unfoldable pub unsubscribe : String → Feed D → Feed D
  unsubscribe symbol f =
      if not (holds symbol f.subscribed_symbols)
      then f
      else if f.connected && f.authenticated
      then emit (posts (send_unsubscription symbol)) removed
      else removed
    where
      removed : Feed D
      removed = record f {
        subscribed_symbols = erase symbol f.subscribed_symbols;
        pending_subscriptions = remove_pending symbol f.pending_subscriptions;
      }

  -- `getSubscribedSymbols`.
  unfoldable pub get_subscribed_symbols : Feed D → List String
  get_subscribed_symbols f = f.subscribed_symbols

  -- A member with the symbols, if there are any.
  abbrev pub channel_member : String → List String → List (String × Json D)
  channel_member key [] = []
  channel_member key (s ∷ ss) = (key, arr text (s ∷ ss)) ∷ []

  abbrev pub subscription_json : List MarketSubscription → Json D
  subscription_json ps = obj (
      (("action", text "subscribe") ∷ [])
      ++ channel_member "trades" (wanted (λ p. p.trades) ps)
      ++ channel_member "quotes" (wanted (λ p. p.quotes) ps)
      ++ channel_member "bars" (wanted (λ p. p.bars) ps))

  -- `sendSubscriptionMessage`.
  unfoldable pub send_subscription_message : Feed D → Feed D
  unfolding send_message
  send_subscription_message f = elim f.pending_subscriptions [
    | [] ↦ f
    | _ ↦ send_message (subscription_json f.pending_subscriptions) f
  ]

  -- `sendUnsubscriptionMessage`.
  unfoldable pub send_unsubscription_message : String → Feed D → Feed D
  unfolding send_message
  send_unsubscription_message symbol f =
      send_message
        (obj (
          ("action", text "unsubscribe")
          ∷ ("trades", arr text (symbol ∷ []))
          ∷ ("quotes", arr text (symbol ∷ []))
          ∷ ("bars", arr text (symbol ∷ []))
          ∷ []))
        f

-- What the code reads from a message by `nlohmann::json`, which is outside this repository. `J` is the
-- type of parsed values. `items` is `is_array` with the elements, `text_of` is `is_string` with the
-- text, `as_text` and `as_int` are conversions that may throw, and the last three are `value(key,
-- default)`, which throws for a member of another type.
pub record JsonReader (J D : Type 0) : Type 0 where
  pub parse : String → Result J
  pub items : J → Option (List J)
  pub contains : J → String → Bool
  pub member : J → String → J
  pub text_of : J → Option String
  pub as_text : J → Result String
  pub as_int : J → Result ℤ
  pub text_or : J → String → String → Result String
  pub double_or : J → String → D → Result D
  pub int_or : J → String → ℤ → Result ℤ

abbrev pub insert_text : Option String → List String → List String
insert_text none ss = ss
insert_text (some symbol) ss = insert symbol ss

module _ {J D : Type 0} (r : JsonReader J D) where
  -- The loop over one channel's array: every string is inserted.
  abbrev pub insert_all : List J → List String → List String
  insert_all [] ss = ss
  insert_all (j ∷ js) ss = insert_all js (insert_text (r.text_of j) ss)

  abbrev pub insert_items : Option (List J) → List String → List String
  insert_items none ss = ss
  insert_items (some js) ss = insert_all js ss

  unfoldable pub collect : J → String → List String → List String
  collect message key ss =
      if r.contains message key then insert_items (r.items (r.member message key)) ss else ss

  -- `processSubscriptionAck`: the five channels one after the other, from the empty set.
  unfoldable pub process_subscription_ack : J → Feed D → Feed D
  unfolding collect
  process_subscription_ack message f = record f {
    subscribed_symbols = collect message "updatedBars" (
        collect message "dailyBars"
          (collect message "bars" (collect message "quotes" (collect message "trades" []))));
    pending_subscriptions = [];
  }
