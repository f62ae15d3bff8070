-- ===== src/Feed/Messages/Described.antt =====
-- The ticks that messages of market data describe, member by member, and that the three parsers of
-- src/MarketDataFeed.cpp read them so.
use package.text.Mathlib.Text.{◌==◌ as str_eq}
use mathlib.Core.Option
use velocore.Base.{
  ℕ, ◌≡◌, Bool, true, false, ◌||◌, Option, none, some, String, Result, ok, ◌>>=◌, ℤ, pos,
  if◌then◌else◌, arith,
}
use velocore.Double.{Double}
use velocore.Types.{MarketDataType}
use velocore.Tick.{MarketTick}
use velocore.Feed.Subscriptions.{JsonReader}
use velocore.Feed.Messages.{
  is_market_data, parse_tick, parse_trade_message, parse_quote_message, parse_bar_message,
}

-- What the types of messages stand for: trades, quotes, and bars of a minute, of a day and updated ones.
abbrev pub kind_of : String → Option MarketDataType
kind_of type =
    if str_eq type "t"
    then some MarketDataType.trade
    else if str_eq type "q"
    then some MarketDataType.quote
    else if str_eq type "b" || str_eq type "d" || str_eq type "u"
    then some MarketDataType.bar
    else none

abbrev pub has_kind : String → Bool
has_kind type = elim (kind_of type) [ none ↦ false | some kind ↦ true ]

-- What belongs to a trade, to a quote or to a bar; elsewhere there is a default.
abbrev of_trade {ℓ} : {A : Type ℓ} → MarketDataType → Result A → A → Result A
of_trade kind read default = elim kind [ MarketDataType.trade ↦ read | _ ↦ ok default ]

abbrev of_quote {ℓ} : {A : Type ℓ} → MarketDataType → Result A → A → Result A
of_quote kind read default = elim kind [ MarketDataType.quote ↦ read | _ ↦ ok default ]

abbrev of_bar {ℓ} : {A : Type ℓ} → MarketDataType → Result A → A → Result A
of_bar kind read default = elim kind [ MarketDataType.bar ↦ read | _ ↦ ok default ]

module _ {J D : Type 0} ⦃d : Double D⦄ (r : JsonReader J D) where
  abbrev number : J → String → Result D
  number j key = r.double_or j key d.nought

  abbrev amount : J → String → Result ℤ
  amount j key = r.int_or j key (pos 0)

  -- Each member of the tick, with the member of the message that it comes from.
  abbrev pub described : J → ℕ → MarketDataType → Result (MarketTick D)
  described j time kind = do
    symbol ← r.text_or j "S" ""
    trade_price ← of_trade kind (number j "p") d.nought
    trade_size ← of_trade kind (amount j "s") (pos 0)
    bid_price ← of_quote kind (number j "bp") d.nought
    ask_price ← of_quote kind (number j "ap") d.nought
    bid_size ← of_quote kind (amount j "bs") (pos 0)
    ask_size ← of_quote kind (amount j "as") (pos 0)
    open_price ← of_bar kind (number j "o") d.nought
    high ← of_bar kind (number j "h") d.nought
    low ← of_bar kind (number j "l") d.nought
    close ← of_bar kind (number j "c") d.nought
    volume ← of_bar kind (amount j "v") (pos 0)
    ok (record {
      symbol = symbol;
      type = kind;
      timestamp = time;
      trade_price = trade_price;
      trade_size = trade_size;
      bid_price = bid_price;
      ask_price = ask_price;
      bid_size = bid_size;
      ask_size = ask_size;
      open_price = open_price;
      high = high;
      low = low;
      close = close;
      volume = volume;
    })

  pub parse_tick-described :
      (clock : ℕ → ℕ) (type : String) (j : J) (time : ℕ)
      → parse_tick r clock type j time ≡ Option.map (described j time) (kind_of type)
  unfolding parse_tick parse_trade_message parse_quote_message parse_bar_message
  parse_tick-described clock type j time = ground arith

  pub is_market_data-has_kind :
      (clock : ℕ → ℕ) (type : String) → is_market_data r clock type ≡ has_kind type
  is_market_data-has_kind clock type = ground arith
