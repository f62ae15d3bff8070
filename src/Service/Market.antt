-- ===== src/Service/Market.antt =====
-- The routes of src/main.cpp on the market data feed, which is not there if the configuration failed.
use package.text.Mathlib.Text.{◌==◌ as str_eq}
use package.text.Mathlib.TextPositions.{eq_refl}
use Prim.Native.String.{◌++◌ as concat}
use velocore.Base.{
  ◌≡◌, refl, ◌⊎◌, inl, inr, Bool, true, false, ◌||◌, List, [], ◌∷◌, ◌++◌, Option, none, some,
  String, Result, ok, throws, ◌>>=◌, arith, if◌then◌else◌, Option-cases, Result-cases, Bool-cases,
}
use velocore.Json.{text, bool, obj, arr, Reader}
use velocore.Feed.{Feed, MarketSubscription}
use velocore.Feed.Subscriptions.{holds, is_pending, subscribe, get_subscribed_symbols}
use velocore.Feed.Connection.{is_connected}
use velocore.Service.{Response, response, plain, json}

module _ {D : Type 0} where
  -- `GET /market/status`.
  unfoldable pub market_status : Option (Feed D) → Response D
  unfolding is_connected get_subscribed_symbols
  market_status none =
      response 200
        (json (obj (("connected", bool false) ∷ ("subscribed_symbols", arr text []) ∷ [])))
  market_status (some f) = response 200 (
      json (
        obj (
          ("connected", bool (is_connected f))
          ∷ ("subscribed_symbols", arr text (get_subscribed_symbols f))
          ∷ [])))

module _ {J D : Type 0} (r : Reader J D) where
  -- A flag of the body, or its default.
  abbrev flag : J → String → Bool → Result Bool
  flag body key old = if r.has body key then r.at body key >>= r.as_bool else ok old

  -- The members that `POST /market/subscribe` reads.
  unfoldable pub read_subscription : J → Result MarketSubscription
  read_subscription body = do
    symbol ← r.at body "symbol" >>= r.as_text
    trades ← flag body "trades" true
    quotes ← flag body "quotes" true
    bars ← flag body "bars" false
    ok (record { symbol = symbol; trades = trades; quotes = quotes; bars = bars })

  unfoldable pub subscribe_to : Result MarketSubscription → Feed D → Feed D × Response D
  unfolding subscribe
  subscribe_to (throws e) f = (f, response 400 (plain (concat "Error: " e)))
  subscribe_to (ok s) f =
      if str_eq s.symbol "" then (f, response 400 (plain "Symbol cannot be empty")) else (
        subscribe s.symbol s.trades s.quotes s.bars f,
        response 200 (plain (concat "Subscribed to " s.symbol)),
      )

  subscribe_parsed : Option J → Feed D → Feed D × Response D
  unfolding read_subscription subscribe_to
  subscribe_parsed none f = (f, response 400 (plain "Invalid JSON"))
  subscribe_parsed (some body) f = subscribe_to (read_subscription body) f

  -- `POST /market/subscribe`. `subscribe` throws no exception.
  unfoldable pub market_subscribe : String → Option (Feed D) → Option (Feed D) × Response D
  unfolding subscribe_parsed
  market_subscribe body none = (none, response 400 (plain "Market data feed not initialized"))
  market_subscribe body (some f) =
      let done = subscribe_parsed (r.load body) f in (some done.0, done.1)

is_pending_last :
    (ps : List MarketSubscription) (p : MarketSubscription)
    → is_pending p.symbol (ps ++ p ∷ []) ≡ true
is_pending_last [] p = ground (arith, eq_refl p.symbol)
is_pending_last (q ∷ ps) p = ground (arith, is_pending_last ps p)

module _ {D : Type 0} where
  -- A feed that is subscribed to a symbol, or is going to be.
  abbrev pub has_symbol : String → Feed D → Bool
  has_symbol symbol f =
      holds symbol f.subscribed_symbols || is_pending symbol f.pending_subscriptions

  subscribe-has_symbol :
      (symbol : String) (trades quotes bars : Bool) (f : Feed D)
      → has_symbol symbol (subscribe symbol trades quotes bars f) ≡ true
  unfolding subscribe
  subscribe-has_symbol symbol trades quotes bars f = ground (
    arith,
    is_pending_last f.pending_subscriptions
        (record { symbol = symbol; trades = trades; quotes = quotes; bars = bars }),
  )

module _ {J D : Type 0} (r : Reader J D) where
  -- Every request on a feed gets one of two answers. Either it is 400 and the feed has not changed; or
  -- it is 200, the body is JSON with a symbol that is not empty, and the feed is subscribed to the
  -- symbol or has the subscription pending.
  pub market_subscribe_cases :
      (body : String) (f : Feed D)
      → let (after, answer) = market_subscribe r body (some f) in
        ((answer.code ≡ 400) × (after ≡ some f))
        ⊎ ((answer.code ≡ 200)
            × ((parsed : J) × (s : MarketSubscription) × (f' : Feed D) × (r.load body ≡ some parsed)
                × (read_subscription r parsed ≡ ok s)
                × (str_eq s.symbol "" ≡ false)
                × (after ≡ some f')
                × (has_symbol s.symbol f' ≡ true)))
  unfolding market_subscribe subscribe_parsed subscribe_to
  market_subscribe_cases body f = elim (Option-cases (r.load body)) [
    | inl e ↦ rw (e, market_subscribe) (inl (refl, refl))
    | inr (parsed, e) ↦ elim (Result-cases (read_subscription r parsed)) [
      | inr (m, g) ↦ rw (e, g, market_subscribe) (inl (refl, refl))
      | inl (s, g) ↦ elim (Bool-cases (str_eq s.symbol "")) [
        | inl h ↦ rw (e, g, h, market_subscribe) (inl (refl, refl))
        | inr h ↦
            rw (e, g, h, market_subscribe)
              (inr (
                refl,
                (
                  parsed,
                  s,
                  subscribe s.symbol s.trades s.quotes s.bars f,
                  refl,
                  g,
                  h,
                  refl,
                  subscribe-has_symbol s.symbol s.trades s.quotes s.bars f,
                ),
              ))
      ]
    ]
  ]

  -- A request changes nothing, or calls `subscribe` once.
  pub market_subscribe-subscribe :
      (body : String) (f : Feed D)
      → ((market_subscribe r body (some f)).0 ≡ some f)
        ⊎ ((s : MarketSubscription) × ((market_subscribe r body (some f)).0
              ≡ some (subscribe s.symbol s.trades s.quotes s.bars f)))
  unfolding market_subscribe subscribe_parsed subscribe_to
  market_subscribe-subscribe body f = elim (Option-cases (r.load body)) [
    | inl e ↦ rw (e, market_subscribe) (inl refl)
    | inr (parsed, e) ↦ elim (Result-cases (read_subscription r parsed)) [
      | inr (m, g) ↦ rw (e, g, market_subscribe) (inl refl)
      | inl (s, g) ↦ elim (Bool-cases (str_eq s.symbol "")) [
        | inl h ↦ rw (e, g, h, market_subscribe) (inl refl)
        | inr h ↦ rw (e, g, h, market_subscribe) (inr (s, refl))
      ]
    ]
  ]
