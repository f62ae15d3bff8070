-- ===== src/Trade/Accesses.antt =====
-- `TradeStatistics::update` (src/models/impl/Trade.cpp) as single reads and writes of its members, in
-- the order of the source: the method holds no lock, so that calls by several threads interleave here.
use velocore.Base.{ℕ, zero, suc, ◌≡◌, arith, Option, none, some, ℤ, pos, add32, if◌then◌else◌}
use velocore.Double.{Double}
use velocore.Trade.{Trade, TradeStatistics, trade_value, update}

-- The access that comes next, with the values that were read for it.
pub data Stage (D : Type 0) : Type 0 where
  reads_trades : Stage D
  writes_trades : (read : ℤ) → Stage D
  reads_volume : Stage D
  writes_volume : (read : ℤ) → Stage D
  reads_value : Stage D
  writes_value : (read : D) → Stage D
  reads_dividend : Stage D
  reads_divisor : (value : D) → Stage D
  writes_average : (average : D) → Stage D
  compares_min : Stage D
  writes_min : Stage D
  compares_max : Stage D
  writes_max : Stage D
  writes_time : Stage D

module _ {D : Type 0} where
  -- The accesses that are left, this one included, at most.
  abbrev pub left : Stage D → ℕ
  left reads_trades = 14
  left (writes_trades read) = 13
  left reads_volume = 12
  left (writes_volume read) = 11
  left reads_value = 10
  left (writes_value read) = 9
  left reads_dividend = 8
  left (reads_divisor value) = 7
  left (writes_average average) = 6
  left compares_min = 5
  left writes_min = 4
  left compares_max = 3
  left writes_max = 2
  left writes_time = 1

module _ {D : Type 0} ⦃d : Double D⦄ where
  -- One access, and the next one; none after the last.
  unfoldable pub touch :
      Stage D → Trade D → TradeStatistics D → TradeStatistics D × Option (Stage D)
  unfolding trade_value
  touch reads_trades t s = (s, some (writes_trades s.total_trades))
  touch (writes_trades read) t s =
      (record s { total_trades = add32 read (pos 1) }, some reads_volume)
  touch reads_volume t s = (s, some (writes_volume s.total_volume))
  touch (writes_volume read) t s =
      (record s { total_volume = add32 read t.quantity }, some reads_value)
  touch reads_value t s = (s, some (writes_value s.total_value))
  touch (writes_value read) t s =
      (record s { total_value = d.add read (trade_value t) }, some reads_dividend)
  touch reads_dividend t s = (s, some (reads_divisor s.total_value))
  touch (reads_divisor value) t s =
      (s, some (writes_average (d.div value (d.of_int s.total_volume))))
  touch (writes_average average) t s = (record s { avg_price = average }, some compares_min)
  touch compares_min t s = (s, some (if d.lt t.price s.min_price then writes_min else compares_max))
  touch writes_min t s = (record s { min_price = t.price }, some compares_max)
  touch compares_max t s = (s, some (if d.lt s.max_price t.price then writes_max else writes_time))
  touch writes_max t s = (record s { max_price = t.price }, some writes_time)
  touch writes_time t s = (record s { last_trade_time = t.timestamp }, none)

  -- The accesses from a stage on, with nothing in between.
  abbrev pub touch_all : ℕ → Option (Stage D) → Trade D → TradeStatistics D → TradeStatistics D
  touch_all zero stage t s = s
  touch_all (suc fuel) none t s = s
  touch_all (suc fuel) (some stage) t s = let one = touch stage t s in touch_all fuel one.1 t one.0

  from_max :
      (fuel : ℕ) (t : Trade D) (s : TradeStatistics D)
      → touch_all (suc (suc (suc fuel))) (some compares_max) t s ≡ record s {
        max_price = if d.lt s.max_price t.price then t.price else s.max_price;
        last_trade_time = t.timestamp;
      }
  unfolding touch
  from_max zero t s = ground arith
  from_max (suc fuel) t s = ground arith

  from_min :
      (t : Trade D) (s : TradeStatistics D)
      → touch_all 5 (some compares_min) t s ≡ record s {
        min_price = if d.lt t.price s.min_price then t.price else s.min_price;
        max_price = if d.lt s.max_price t.price then t.price else s.max_price;
        last_trade_time = t.timestamp;
      }
  unfolding touch
  from_min t s = ground (arith, from_max 0 t (record s { min_price = t.price }), from_max 1 t s)

  -- With nothing in between, the accesses are the method.
  touch_all-update :
      (t : Trade D) (s : TradeStatistics D) → touch_all 14 (some reads_trades) t s ≡ update s t
  unfolding update touch
  touch_all-update t s = from_min t _
