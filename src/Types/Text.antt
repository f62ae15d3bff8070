-- ===== src/Types/Text.antt =====
-- The texts of the enums: parsing what is printed, and which texts parse at all.
use text.Mathlib.TextEquality.{eq_iff}
use velocore.Base.{◌≡◌, refl, ◌↔◌, ◌⊎◌, inl, inr, String, ok, arith}
use velocore.Types.{
  Side, OrderType, MarketDataType, side_to_string, order_type_to_string, market_data_type_to_string,
  side_from_string, order_type_from_string, market_data_type_from_string,
}

-- Every side, order type and market data type is read back from the text that it is printed as.
pub from_string-to_string :
    (s : Side) (t : OrderType) (m : MarketDataType)
    → (side_from_string (side_to_string s) ≡ ok s)
      × (order_type_from_string (order_type_to_string t) ≡ ok t)
      × (market_data_type_from_string (market_data_type_to_string m) ≡ ok m)
unfolding side_from_string side_to_string order_type_from_string order_type_to_string
    market_data_type_from_string market_data_type_to_string
from_string-to_string s t m = (sides s, types t, data_types m)
  where
    sides : (s : Side) → side_from_string (side_to_string s) ≡ ok s
    sides Side.buy = refl
    sides Side.sell = refl

    types : (t : OrderType) → order_type_from_string (order_type_to_string t) ≡ ok t
    types OrderType.limit = refl
    types OrderType.market = refl

    data_types :
        (m : MarketDataType) → market_data_type_from_string (market_data_type_to_string m) ≡ ok m
    data_types MarketDataType.trade = refl
    data_types MarketDataType.quote = refl
    data_types MarketDataType.bar = refl

-- A text parses as a side exactly when it is one of the four accepted spellings, and the spelling
-- decides the side.
pub side_from_string_iff :
    (str : String) (s : Side)
    → (side_from_string str ≡ ok s) ↔ (
        ((s ≡ Side.buy) × ((str ≡ "BUY") ⊎ (str ≡ "buy")))
        ⊎ ((s ≡ Side.sell) × ((str ≡ "SELL") ⊎ (str ≡ "sell"))))
unfolding side_from_string
side_from_string_iff str s = (
  ground (arith, eq_iff str "BUY", eq_iff str "buy", eq_iff str "SELL", eq_iff str "sell"),
  spelled,
)
  where
    spelled :
        ((s ≡ Side.buy) × ((str ≡ "BUY") ⊎ (str ≡ "buy")))
          ⊎ ((s ≡ Side.sell) × ((str ≡ "SELL") ⊎ (str ≡ "sell")))
        → side_from_string str ≡ ok s
    spelled (inl (e, inl p)) = rw (e, p)
    spelled (inl (e, inr p)) = rw (e, p)
    spelled (inr (e, inl p)) = rw (e, p)
    spelled (inr (e, inr p)) = rw (e, p)
