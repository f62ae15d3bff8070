-- ===== src/OrderBook/Engine/Trades.antt =====
-- What one call of `addOrder` trades and leaves (src/models/impl/OrderBook.cpp).
use velocore.Base.{
  ℕ, ◌≡◌, refl, ◌∙◌, inl, inr, true, false, Bool, ◌||◌, List, ◌++◌, map, arith, pos, ◌<ℤ◌, ◌≤ℤ◌,
  ◌+ℤ◌, +ℤ_assoc, length, take, All, Bool-cases, if◌then◌else◌, ◌==◌,
}
use native.Mathlib.Nat.{le_refl}
use velocore.Double.{Double, IsIeee}
use velocore.World.{World}
use velocore.Types.{Side}
use velocore.Order.{Order, is_buy, is_limit, is_market}
use velocore.Trade.{Trade}
use velocore.OrderBook.Levels.{entries}
use velocore.OrderBook.Matching.{
  MatchState, prices_cross, buy_rules, sell_rules, match_buy_order, match_sell_order, rounds,
}
use velocore.OrderBook.Matching.Fills.{made, offered, traded, wanted, match_loop-Outcome}
use velocore.OrderBook.Matching.Keeps.{IsPart, match_loop-Keeps}
use velocore.OrderBook.Engine.{
  OrderBook, Added, match_start, stamp, keep_rest, match_order, after_match, process, add_order,
}
use velocore.OrderBook.Engine.Sides.{
  opposite, own, resting_id, queue-Wants, buy-Faithful, sell-Faithful, loop-logged, keep_rest-log,
  keep_rest_sides,
}
use velocore.OrderBook.Engine.Valid.{IsIncoming, IsBook}
use velocore.OrderBook.Engine.History.{Side-cases, stamp-IsIncoming}

module _ {D : Type 0} ⦃d : Double D⦄ where
  -- The prices at which an order agrees to trade: any for a market order, and for a limit order those
  -- that its own crosses.
  abbrev pub accepts : Order D → D → Bool
  accepts order price =
      is_market order
      || (if is_buy order then prices_cross order.price price else prices_cross price order.price)

  -- The trades of an order, and the log.
  abbrev pub Reported : Order D → OrderBook D → Added D → Type 0
  Reported order b a =
      (map (made (resting_id order)) a.trades
        ≡ take (length a.trades) (map offered (entries (opposite order b))))
      × All (λ t. (pos 0 <ℤ t.quantity) × (accepts order t.price ≡ true)) a.trades
      × (a.book.trade_log ≡ b.trade_log ++ a.trades)

  -- The quantities of the two sides of the book.
  abbrev pub Accounted : Order D → OrderBook D → Added D → Type 0
  Accounted order b a =
      (wanted (entries (opposite order a.book)) +ℤ traded a.trades
        ≡ wanted (entries (opposite order b)))
      × (is_limit order ≡ true
          → wanted (entries (own order a.book)) +ℤ traded a.trades
            ≡ wanted (entries (own order b)) +ℤ order.remaining_quantity)
      × (is_market order ≡ true → own order a.book ≡ own order b)

  module _ (ieee : IsIeee D) (clock : ℕ → ℕ) where
    process-Reported :
        (order : Order D) (b : OrderBook D) (w : World)
        → IsBook ieee b
        → Reported order b (process clock order b w)
    unfolding process match_order match_buy_order match_sell_order
    process-Reported order b w v = elim (Side-cases order.side) [
      | inl e ↦
          let bought : is_buy order ≡ true = ground arith in
          let q = queue-Wants ieee Side.sell b.sell_book v.asks in
          let s = match_start order b.sell_book b w in
          let out =
            match_loop-Outcome (buy_rules clock) (λ t. t.sell_order_id) (buy-Faithful clock) s refl
              q.0 q.1 in
          rw bought (
            out.priority,
            out.fair,
            keep_rest-log _ _ ∙ loop-logged (buy_rules clock) order b.sell_book b w q.0,
          )
      | inr e ↦
          let sold : is_buy order ≡ false = ground arith in
          let q = queue-Wants ieee Side.buy b.buy_book v.bids in
          let s = match_start order b.buy_book b w in
          let out =
            match_loop-Outcome (sell_rules clock) (λ t. t.buy_order_id) (sell-Faithful clock) s refl
              q.0 q.1 in
          rw sold (
            out.priority,
            out.fair,
            keep_rest-log _ _ ∙ loop-logged (sell_rules clock) order b.buy_book b w q.0,
          )
    ]

    -- The loop's own account, as that of the whole call.
    account :
        (order o : Order D) (b matched after : OrderBook D) (ts : List (Trade D))
        → (o.remaining_quantity +ℤ traded ts ≡ order.remaining_quantity)
        → (opposite order after ≡ opposite order matched)
          × (is_limit order ≡ true
              → wanted (entries (own order after))
                ≡ wanted (entries (own order matched)) +ℤ o.remaining_quantity)
          × (is_market order ≡ true → own order after ≡ own order matched)
        → wanted (entries (opposite order matched)) +ℤ traded ts
          ≡ wanted (entries (opposite order b))
        → own order matched ≡ own order b
        → (w : World) → Accounted order b (record { trades = ts; book = after; world = w })
    account order o b matched after ts filled (same, rests, drops) taken kept w = (
      rw same taken,
      λ limited. cc (
        rests limited,
        kept,
        filled,
        +ℤ_assoc (wanted (entries (own order b))) o.remaining_quantity (traded ts),
      ),
      λ marketed. drops marketed ∙ kept,
    )

    -- What the loop leaves, before the rest is put into the book.
    abbrev pub IsMatched : Order D → OrderBook D → MatchState D → Type 0
    IsMatched order b s =
        let matched = after_match order s b in
        (s.incoming.remaining_quantity +ℤ traded s.trades ≡ order.remaining_quantity)
        × (wanted (entries (opposite order matched)) +ℤ traded s.trades
            ≡ wanted (entries (opposite order b)))
        × (own order matched ≡ own order b)
        × (pos 0 ≤ℤ order.remaining_quantity → pos 0 ≤ℤ s.incoming.remaining_quantity)
        × IsPart order s.incoming

    pub match_order-IsMatched :
        (order : Order D) (b : OrderBook D) (w : World)
        → IsIncoming ieee order
        → IsBook ieee b
        → IsMatched order b (match_order clock order b w)
    unfolding match_order match_buy_order match_sell_order
    match_order-IsMatched order b w i v = elim (Side-cases order.side) [
      | inl e ↦
          let bought : is_buy order ≡ true = ground arith in
          let q = queue-Wants ieee Side.sell b.sell_book v.asks in
          let s = match_start order b.sell_book b w in
          let out =
            match_loop-Outcome (buy_rules clock) (λ t. t.sell_order_id) (buy-Faithful clock) s refl
              q.0 q.1 in
          let kept =
            match_loop-Keeps ieee Side.sell (buy_rules clock) order (rounds b.sell_book) s
              (record { is_side = v.asks; is_part = whole }) in
          rw bought (out.filled, out.taken, refl, out.nonneg, kept.is_part)
      | inr e ↦
          let sold : is_buy order ≡ false = ground arith in
          let q = queue-Wants ieee Side.buy b.buy_book v.bids in
          let s = match_start order b.buy_book b w in
          let out =
            match_loop-Outcome (sell_rules clock) (λ t. t.buy_order_id) (sell-Faithful clock) s refl
              q.0 q.1 in
          let kept =
            match_loop-Keeps ieee Side.buy (sell_rules clock) order (rounds b.buy_book) s
              (record { is_side = v.bids; is_part = whole }) in
          rw sold (out.filled, out.taken, refl, out.nonneg, kept.is_part)
    ]
      where
        whole : IsPart order order
        whole = record { only = refl; fewer = le_refl _; live = i.live }

    process-Accounted :
        (order : Order D) (b : OrderBook D) (w : World)
        → IsIncoming ieee order
        → pos 0 ≤ℤ order.remaining_quantity
        → IsBook ieee b
        → Accounted order b (process clock order b w)
    unfolding process
    process-Accounted order b w i h v =
        let s = match_order clock order b w in
        let (filled, taken, kept, nonneg, part) = match_order-IsMatched order b w i v in
        account order s.incoming b (after_match order s b)
          (keep_rest s.incoming (after_match order s b)) s.trades filled
          (keep_rest_sides order s.incoming (after_match order s b) part (nonneg h)) taken kept
          s.world

    stamped-Reported :
        (order : Order D) (b : OrderBook D) (w : World) (a : Added D)
        → Reported (stamp clock order w).0 b a
        → Reported order b a
    unfolding stamp
    stamped-Reported order b w a = elim (Bool-cases (order.timestamp == 0)) [
      | inl e ↦ rw e (λ h. h)
      | inr e ↦ rw e (λ h. h)
    ]

    stamped-Accounted :
        (order : Order D) (b : OrderBook D) (w : World) (a : Added D)
        → Accounted (stamp clock order w).0 b a
        → Accounted order b a
    unfolding stamp
    stamped-Accounted order b w a = elim (Bool-cases (order.timestamp == 0)) [
      | inl e ↦ rw e (λ h. h)
      | inr e ↦ rw e (λ h. h)
    ]

    pub stamp_remaining :
        (order : Order D) (w : World)
        → (stamp clock order w).0.remaining_quantity ≡ order.remaining_quantity
    unfolding stamp
    stamp_remaining order w = ground arith

    -- On a book that satisfies the invariant, the trades of an order are with the orders of the
    -- opposite side in price-time priority, one after the other from the best price and the oldest
    -- order on, each at the price of the resting order's level; each is of a positive quantity and at
    -- a price that the order accepts; and the log grows by exactly these trades.
    pub add_order-Reported :
        (order : Order D) (b : OrderBook D) (w : World)
        → IsBook ieee b
        → Reported order b (add_order clock order b w)
    unfolding add_order
    add_order-Reported order b w v =
        let (stamped, w') = stamp clock order w in
        stamped-Reported order b w (process clock stamped b w') (process-Reported stamped b w' v)

    -- Quantities are conserved. The opposite side loses what was traded; a limit order's own side
    -- gains what was not; a market order's own side stays as it is. This is for a book that satisfies
    -- the invariant and an acceptable order that does not want a negative quantity.
    pub add_order-Accounted :
        (order : Order D) (b : OrderBook D) (w : World)
        → IsIncoming ieee order
        → pos 0 ≤ℤ order.remaining_quantity
        → IsBook ieee b
        → Accounted order b (add_order clock order b w)
    unfolding add_order
    add_order-Accounted order b w i h v =
        let (stamped, w') = stamp clock order w in
        stamped-Accounted order b w (process clock stamped b w') (
          process-Accounted stamped b w' (stamp-IsIncoming ieee clock order w i)
            (rw (stamp_remaining order w) h) v)
