-- ===== src/OrderBook/Engine/Settled.antt =====
-- `addOrder` leaves no match behind (src/models/impl/OrderBook.cpp).
use velocore.Base.{
  ℕ, ◌≡◌, ap, ◌∙◌, inl, inr, ◌⊎◌, true, false, arith, pos, ◌<ℤ◌, ◌≤ℤ◌, ltb_ℤ, All, All-imp,
  Bool-cases, subst, ◌==◌, sym, ◌||◌, ◌+ℤ◌, +ℤ_zero, +ℤ_comm, eq_of_parts,
}
use native.Mathlib.Nat.{le_refl}
use velocore.Double.{Double, IsIeee}
use velocore.World.{World}
use velocore.Types.{Side}
use velocore.Order.{Order, is_buy, is_market}
use velocore.Order.Priority.{Better}
use velocore.OrderBook.Levels.Valid.{IsSide}
use velocore.OrderBook.Matching.{
  MatchState, Rules, prices_cross, buy_rules, sell_rules, match_buy_order, match_sell_order, rounds,
  match_loop,
}
use velocore.OrderBook.Matching.Rounds.{match_loop_terminates, drained}
use velocore.OrderBook.Matching.Fills.{traded}
use velocore.OrderBook.Engine.{
  OrderBook, Added, match_start, stamp, match_order, after_match, process, add_order,
}
use velocore.OrderBook.Engine.Sides.{opposite, keep_rest_sides}
use velocore.OrderBook.Engine.Valid.{
  IsIncoming, IsBook, Stops, match_loop-IsFinished, buy-Stops, sell-Stops,
}
use velocore.OrderBook.Engine.History.{Side-cases, stamp-IsIncoming}
use velocore.OrderBook.Engine.Trades.{accepts, match_order-IsMatched, stamp_remaining}

module _ {D : Type 0} ⦃d : Double D⦄ where
  -- The order is filled, or the opposite side has no price that it accepts.
  abbrev pub Settled : Order D → OrderBook D → Added D → Type 0
  Settled order b a =
      (traded a.trades ≡ order.remaining_quantity)
      ⊎ All (λ l. accepts order l.price ≡ false) (opposite order a.book)

module _ {D : Type 0} ⦃d : Double D⦄ (ieee : IsIeee D) (clock : ℕ → ℕ) where
  open ieee use {is_nan, rank, le-eq-leb}

  loop-Settled :
      (rules : Rules D) (side : Side) (s : MatchState D)
      → Stops ieee side rules
      → ((p q : D) → Better ieee side p q → rules.crosses p q ≡ false)
      → IsIncoming ieee s.incoming
      → IsSide ieee side s.levels
      → let s' = match_loop (rounds s.levels) rules s in
        pos 0 <ℤ s'.incoming.remaining_quantity
        → All
            (λ l. (is_market s.incoming || rules.crosses s.incoming.price l.price) ≡ false)
            s'.levels
  loop-Settled rules side s stops apart i v wants =
      let fin = match_loop-IsFinished ieee side rules s stops i v in
      elim (Bool-cases (is_market s.incoming)) [
        | inl m ↦
            let done = (match_loop_terminates rules s (rounds s.levels) (le_refl _)).0 in
            let none_left =
              drained rules _ (All-imp _ _ _ (λ l v. v.has_orders) fin.is_side.0)
                (ap (λ o. is_market o) fin.is_part.only ∙ m) wants done in
            rw none_left tt
        | inr l ↦ rw l (
            All-imp _ _ _
              (λ l b.
                apart s.incoming.price l.price
                  (subst (λ p. Better ieee side p l.price) (ap (λ o. o.price) fin.is_part.only) b))
              (fin.beyond (ground arith) wants))
      ]

  -- What is worse for the incoming order than the book's price does not cross.
  buy-apart : (p q : D) → Better ieee Side.sell p q → (buy_rules clock).crosses p q ≡ false
  unfolding prices_cross
  buy-apart p q b = ground (arith, le-eq-leb q p)

  sell-apart : (p q : D) → Better ieee Side.buy p q → (sell_rules clock).crosses p q ≡ false
  unfolding prices_cross
  sell-apart p q b = ground (arith, le-eq-leb p q)

  match_order-Settled :
      (order : Order D) (b : OrderBook D) (w : World)
      → IsIncoming ieee order
      → IsBook ieee b
      → let s = match_order clock order b w in
        pos 0 <ℤ s.incoming.remaining_quantity
        → All (λ l. accepts order l.price ≡ false) (opposite order (after_match order s b))
  unfolding match_order match_buy_order match_sell_order
  match_order-Settled order b w i v = elim (Side-cases order.side) [
    | inl e ↦
        let bought : is_buy order ≡ true = ground arith in
        let s = match_start order b.sell_book b w in
        rw bought
          (loop-Settled (buy_rules clock) Side.sell s (buy-Stops ieee clock) buy-apart i v.asks)
    | inr e ↦
        let sold : is_buy order ≡ false = ground arith in
        let s = match_start order b.buy_book b w in
        rw sold
          (loop-Settled (sell_rules clock) Side.buy s (sell-Stops ieee clock) sell-apart i v.bids)
  ]

  process-Settled :
      (order : Order D) (b : OrderBook D) (w : World)
      → IsIncoming ieee order
      → pos 0 ≤ℤ order.remaining_quantity
      → IsBook ieee b
      → Settled order b (process clock order b w)
  unfolding process
  process-Settled order b w i h v =
      let s = match_order clock order b w in
      let (filled, taken, kept, nonneg, part) = match_order-IsMatched ieee clock order b w i v in
      let same = (keep_rest_sides order s.incoming (after_match order s b) part (nonneg h)).0 in
      elim (Bool-cases (ltb_ℤ (pos 0) s.incoming.remaining_quantity)) [
        | inl wants ↦ inr (rw same (match_order-Settled order b w i v (ground arith)))
        | inr gone ↦
            let none_left : s.incoming.remaining_quantity ≡ pos 0 =
              eq_of_parts _ _ (ground (arith, nonneg h)) in
            inl (
              sym (+ℤ_zero (traded s.trades))
              ∙ +ℤ_comm (traded s.trades) (pos 0)
              ∙ ap (λ r. r +ℤ traded s.trades) (sym none_left)
              ∙ filled)
      ]

  stamped-Settled :
      (order : Order D) (b : OrderBook D) (w : World) (a : Added D)
      → Settled (stamp clock order w).0 b a
      → Settled order b a
  unfolding stamp
  stamped-Settled order b w a = elim (Bool-cases (order.timestamp == 0)) [
    | inl e ↦ rw e (λ h. h)
    | inr e ↦ rw e (λ h. h)
  ]

  -- No match is missed: after the call, either the whole quantity of the order was traded, or no
  -- price on the opposite side is one that the order accepts, so that for a market order this side
  -- is empty. This is for a book that satisfies the invariant and an acceptable order that does not
  -- want a negative quantity.
  pub add_order-Settled :
      (order : Order D) (b : OrderBook D) (w : World)
      → IsIncoming ieee order
      → pos 0 ≤ℤ order.remaining_quantity
      → IsBook ieee b
      → Settled order b (add_order clock order b w)
  unfolding add_order
  add_order-Settled order b w i h v =
      let (stamped, w') = stamp clock order w in
      stamped-Settled order b w (process clock stamped b w') (
        process-Settled stamped b w' (stamp-IsIncoming ieee clock order w i)
          (rw (stamp_remaining ieee clock order w) h) v)
