-- ===== src/Tests/Models.antt =====
-- The data models at small inputs.
use velocore.Base.{
  ◌≡◌, ◌≢◌, ◌↔◌, ◌⊎◌, refl, List, [], ◌∷◌, ok, true, false, arith, pos, ◌+ℤ◌, ◌-ℤ◌, ◌<ℤ◌, ◌≤ℤ◌,
  wrap32, length, sum, String, IsInt,
}
use velocore.Double.{Cents, cents_double, Cents-IsIeee}
use velocore.Types.{
  Side, OrderType, OrderStatus, MarketDataType, side_to_string, order_type_to_string,
  market_data_type_to_string, side_from_string, order_type_from_string,
  market_data_type_from_string,
}
use velocore.Types.Text.{from_string-to_string, side_from_string_iff}
use velocore.Order.{Order, fill, cancel, filled_quantity, order_lt}
use velocore.Order.Lifecycle.{
  IsConsistent, fill_iff, fill_effect, fill-IsConsistent, cancel-IsConsistent,
}
use velocore.Order.Priority.{Precedes, order_lt_iff, order_lt_strict_weak}
use velocore.Trade.{Trade, TradeStatistics, update_all, no_trades}
use velocore.Trade.Totals.{quantities, Spans, update_all_totals, update_all-Spans}
use velocore.Tests.Samples.{bid, ask, sale}

from_string-to_string_example :
    (side_from_string (side_to_string Side.sell) ≡ ok Side.sell)
    × (order_type_from_string (order_type_to_string OrderType.market) ≡ ok OrderType.market)
    × (market_data_type_from_string (market_data_type_to_string MarketDataType.bar)
        ≡ ok MarketDataType.bar)
from_string-to_string_example = from_string-to_string Side.sell OrderType.market MarketDataType.bar

abbrev lower_buy : String
lower_buy = "buy"

side_from_string_iff_example : (side_from_string lower_buy ≡ ok Side.buy) ↔ (
    ((Side.buy ≡ Side.buy) × ((lower_buy ≡ "BUY") ⊎ (lower_buy ≡ "buy")))
    ⊎ ((Side.buy ≡ Side.sell) × ((lower_buy ≡ "SELL") ⊎ (lower_buy ≡ "sell"))))
side_from_string_iff_example = side_from_string_iff lower_buy Side.buy

-- A buy of 10 of which 4 are filled.
abbrev partly_filled : Order Cents
partly_filled = record (bid 1 100 10) {
  remaining_quantity = pos 6;
  status = OrderStatus.partially_filled;
}

fill_four : fill (bid 1 100 10) (pos 4) ≡ ok partly_filled
unfolding fill ◌-ℤ◌
fill_four = refl

bid-IsConsistent : IsConsistent (bid 1 100 10)
bid-IsConsistent = ground arith

fill_iff_example :
    ((o' : Order Cents) × (fill (bid 1 100 10) (pos 4) ≡ ok o'))
    ↔ ((pos 0 <ℤ pos 4) × (pos 4 ≤ℤ pos 10))
fill_iff_example = fill_iff (bid 1 100 10) (pos 4)

fill_effect_example :
    (pos 6 +ℤ pos 4 ≡ pos 10)
    × (filled_quantity partly_filled ≡ filled_quantity (bid 1 100 10) +ℤ pos 4)
    × ((OrderStatus.partially_filled ≡ OrderStatus.filled) ↔ (pos 6 ≡ pos 0))
    × ((OrderStatus.partially_filled ≡ OrderStatus.partially_filled) ↔ (pos 6 ≢ pos 0))
    × (partly_filled ≡ record (bid 1 100 10) {
      remaining_quantity = pos 6;
      status = OrderStatus.partially_filled;
    })
fill_effect_example = fill_effect (bid 1 100 10) partly_filled (pos 4) fill_four

fill-IsConsistent_example : IsConsistent partly_filled
fill-IsConsistent_example =
    fill-IsConsistent (bid 1 100 10) partly_filled (pos 4) bid-IsConsistent fill_four

cancel-IsConsistent_example : IsConsistent (cancel (bid 1 100 10))
cancel-IsConsistent_example = cancel-IsConsistent (bid 1 100 10) bid-IsConsistent

order_lt_iff_example :
    (order_lt (bid 1 101 10) (bid 2 100 10) ≡ true)
    ↔ Precedes Cents-IsIeee (bid 1 101 10) (bid 2 100 10)
order_lt_iff_example = order_lt_iff Cents-IsIeee (bid 1 101 10) (bid 2 100 10) refl refl refl

order_lt_strict_weak_example :
    (order_lt (bid 1 102 10) (bid 1 102 10) ≡ false)
    × (order_lt (bid 1 102 10) (bid 2 101 10) ≡ true
        → order_lt (bid 2 101 10) (ask 3 100 10) ≡ true
        → order_lt (bid 1 102 10) (ask 3 100 10) ≡ true)
    × (order_lt (bid 1 102 10) (ask 3 100 10) ≡ true
        → (order_lt (bid 1 102 10) (bid 2 101 10) ≡ true)
          ⊎ (order_lt (bid 2 101 10) (ask 3 100 10) ≡ true))
order_lt_strict_weak_example =
    order_lt_strict_weak Cents-IsIeee (bid 1 102 10) (bid 2 101 10) (ask 3 100 10) refl refl refl

abbrev sales : List (Trade Cents)
sales = sale 101 4 ∷ sale 99 3 ∷ []

abbrev none_yet : TradeStatistics Cents
none_yet = no_trades

none_yet-IsInt : IsInt none_yet.total_trades × IsInt none_yet.total_volume
unfolding no_trades
none_yet-IsInt = omega arith

update_all_totals_example :
    ((update_all none_yet sales).total_trades
      ≡ wrap32 (none_yet.total_trades +ℤ pos (length sales)))
    × ((update_all none_yet sales).total_volume
        ≡ wrap32 (none_yet.total_volume +ℤ sum (quantities sales)))
update_all_totals_example = update_all_totals none_yet sales none_yet-IsInt.0 none_yet-IsInt.1

update_all-Spans_example : Spans Cents-IsIeee (update_all no_trades sales) sales
update_all-Spans_example = update_all-Spans Cents-IsIeee sales (refl, (refl, tt))
