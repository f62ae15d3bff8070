-- ===== src/Service/Ticks.antt =====
-- The ticks that src/main.cpp keeps: `onMarketTick` and the routes `/market/data`.
use text.Mathlib.Text.{◌==◌ as str_eq}
use text.Mathlib.TextEquality.{eq_iff}
use Prim.Native.String.{◌++◌ as concat}
use velocore.Base.{
  ◌≡◌, refl, ap, ◌∙◌, pos, List, [], ◌∷◌, Option, none, some, String, arith, if◌then◌else◌, length,
}
use velocore.Tick.{MarketTick, tick_to_json}
use velocore.Json.{obj, arr, int}
use velocore.Service.{Service, Response, response, plain, json}

module _ {D : Type 0} where
  abbrev pub find_tick : String → List (String × MarketTick D) → Option (MarketTick D)
  find_tick symbol [] = none
  find_tick symbol ((key, t) ∷ ts) = if str_eq key symbol then some t else find_tick symbol ts

  -- `latestTicks[symbol] = tick`. The order of the entries stands for the map's own, which the
  -- standard library does not say.
  abbrev pub set_tick :
      String → MarketTick D → List (String × MarketTick D) → List (String × MarketTick D)
  set_tick symbol tick [] = (symbol, tick) ∷ []
  set_tick symbol tick ((key, t) ∷ ts) =
      if str_eq key symbol then (key, tick) ∷ ts else (key, t) ∷ set_tick symbol tick ts

  -- `onMarketTick`.
  unfoldable pub on_market_tick : MarketTick D → Service D → Service D
  on_market_tick tick s = record s { latest_ticks = set_tick tick.symbol tick s.latest_ticks }

  -- `GET /market/data/<string>`. The body is the text of the tick's JSON.
  unfoldable pub market_data_of : String → Service D → Response D
  unfolding tick_to_json
  market_data_of symbol s = elim (find_tick symbol s.latest_ticks) [
    | none ↦ response 404 (plain (concat "No data available for symbol: " symbol))
    | some tick ↦ response 200 (json (tick_to_json tick))
  ]

  -- `GET /market/data`.
  unfoldable pub market_data : Service D → Response D
  unfolding tick_to_json
  market_data s = response 200 (
      json (
        obj (
          ("symbols", arr (λ t. tick_to_json t) [])
          ∷ ("ticks", arr (λ (symbol, t). tick_to_json t) s.latest_ticks)
          ∷ ("count", int (pos (length s.latest_ticks)))
          ∷ [])))

  -- The last tick of a symbol in a sequence.
  abbrev pub last_of : String → List (MarketTick D) → Option (MarketTick D) → Option (MarketTick D)
  last_of symbol [] old = old
  last_of symbol (t ∷ ts) old = last_of symbol ts (if str_eq t.symbol symbol then some t else old)

  abbrev pub receive_all : List (MarketTick D) → Service D → Service D
  receive_all [] s = s
  receive_all (t ∷ ts) s = receive_all ts (on_market_tick t s)

  find-set_tick :
      (symbol other : String) (tick : MarketTick D) (ts : List (String × MarketTick D))
      → find_tick other (set_tick symbol tick ts)
        ≡ (if str_eq symbol other then some tick else find_tick other ts)
  find-set_tick symbol other tick [] = refl
  find-set_tick symbol other tick ((key, t) ∷ ts) = ground (
    arith,
    eq_iff key symbol,
    eq_iff key other,
    eq_iff symbol other,
    find-set_tick symbol other tick ts,
  )

  -- After any sequence of ticks, the entry of a symbol is the last of the ticks of that symbol, or the
  -- one from before if there was none; and nothing else of the state has changed.
  pub receive_all-last_of :
      (symbol : String) (ts : List (MarketTick D)) (s : Service D)
      → (find_tick symbol (receive_all ts s).latest_ticks
          ≡ last_of symbol ts (find_tick symbol s.latest_ticks))
        × (receive_all ts s ≡ record s { latest_ticks = (receive_all ts s).latest_ticks })
  unfolding on_market_tick
  receive_all-last_of symbol [] s = (refl, refl)
  receive_all-last_of symbol (t ∷ ts) s =
      let rest = receive_all-last_of symbol ts (on_market_tick t s) in
      (rest.0 ∙ ap (last_of symbol ts) (find-set_tick t.symbol symbol t s.latest_ticks), rest.1)
