-- ===== src/OrderBook/Matching/Fills.antt =====
-- What the trades of one incoming order are (src/models/impl/OrderBook.cpp), on the queue of the
-- opposite side: price-time priority, and quantities that add up.
use velocore.Base.{
  ℕ, ◌≡◌, refl, sym, ap, ◌∙◌, true, ◌||◌, List, [], ◌∷◌, ◌++◌, map, subst, arith, ℤ, pos, ◌<ℤ◌,
  ◌≤ℤ◌, ◌+ℤ◌, -ℤ_parts, +ℤ_zero, +ℤ_swap, +ℤ_comm, sub-add_cancel, sub-add_left, eq_of_parts, min_ℤ,
  sum, length, take, All,
}
use velocore.World.{World}
use velocore.Order.{Order, is_market}
use velocore.Trade.{Trade}
use velocore.OrderBook.Levels.{Level, entries}
use velocore.OrderBook.Matching.{
  MatchState, Rules, settle_incoming, settle_resting, match_loop, rounds,
}
use velocore.OrderBook.Matching.Queue.{sweep, Swept, HasOrders, match_loop_refines}

module _ {D : Type 0} where
  abbrev pub traded : List (Trade D) → ℤ
  traded ts = sum (map (λ t. t.quantity) ts)

  abbrev pub wanted : List (D × Order D) → ℤ
  wanted queue = sum (map (λ e. e.1.remaining_quantity) queue)

  abbrev pub Wants : D × Order D → Type 0
  Wants e = pos 0 <ℤ e.1.remaining_quantity

  -- A trade as the price and the id of the order that rested, and what an entry offers.
  abbrev pub made : (Trade D → ℕ) → Trade D → D × ℕ
  made resting_id t = (t.price, resting_id t)

  abbrev pub offered : D × Order D → D × ℕ
  offered (p, o) = (p, o.id)

module _ {D : Type 0} (rules : Rules D) (resting_id : Trade D → ℕ) where
  -- `execute` makes a trade of the resting order at the price and quantity that it is given.
  abbrev pub Faithful : Type 0
  Faithful =
      (incoming resting : Order D) (price : D) (qty : ℤ) (w : World)
      → let t = (rules.execute incoming resting price qty w).0 in
        (t.price ≡ price) × (t.quantity ≡ qty) × (resting_id t ≡ resting.id)

  module _ (faithful : Faithful) where
    -- The trades take the orders of the queue one after the other from its front, each at the price
    -- of its level.
    sweep-priority :
        (incoming : Order D) (queue : List (D × Order D)) (w : World)
        → let fresh = (sweep rules incoming queue w).fresh in
          map (made resting_id) fresh ≡ take (length fresh) (map offered queue)
    unfolding sweep settle_resting
    sweep-priority incoming [] w = refl
    sweep-priority incoming ((p, o) ∷ queue) w =
        let qty = min_ℤ incoming.remaining_quantity o.remaining_quantity in
        let made = rules.execute incoming o p qty w in
        let laws = faithful incoming o p qty w in
        ground (arith, laws, sweep-priority (settle_incoming incoming qty) queue made.1)

    -- Quantities: nothing is lost on either side, and every trade is of a positive quantity at a
    -- price that the incoming order accepts.
    abbrev pub Balanced : Order D → List (D × Order D) → Swept D → Type 0
    Balanced incoming queue r =
        (r.incoming.remaining_quantity +ℤ traded r.fresh ≡ incoming.remaining_quantity)
        × (wanted r.queue +ℤ traded r.fresh ≡ wanted queue)
        × All
            (λ t.
              (pos 0 <ℤ t.quantity)
              × ((is_market incoming || rules.crosses incoming.price t.price) ≡ true))
            r.fresh

    sweep-Balanced :
        (incoming : Order D) (queue : List (D × Order D)) (w : World)
        → All Wants queue
        → Balanced incoming queue (sweep rules incoming queue w)
    unfolding sweep settle_incoming settle_resting
    sweep-Balanced incoming [] w h = (+ℤ_zero _, +ℤ_zero _, tt)
    sweep-Balanced incoming ((p, o) ∷ queue) w h =
        let qty = min_ℤ incoming.remaining_quantity o.remaining_quantity in
        let t = (rules.execute incoming o p qty w).0 in
        let next = settle_incoming incoming qty in
        let r = sweep rules next queue (rules.execute incoming o p qty w).1 in
        let rest = sweep-Balanced next queue (rules.execute incoming o p qty w).1 h.1 in
        ground (
          arith,
          h.0,
          faithful incoming o p qty w,
          rest,
          +ℤ_zero incoming.remaining_quantity,
          +ℤ_zero (wanted ((p, o) ∷ queue)),
          +ℤ_zero t.quantity,
          sub-add_cancel incoming.remaining_quantity qty,
          sub-add_left o.remaining_quantity qty (wanted queue),
          +ℤ_swap r.incoming.remaining_quantity t.quantity (traded r.fresh),
          +ℤ_swap (wanted r.queue) t.quantity (traded r.fresh),
          -ℤ_parts o.remaining_quantity qty,
          eq_of_parts o.remaining_quantity qty,
          +ℤ_comm (wanted queue) qty,
        )

    sweep_nonneg :
        (incoming : Order D) (queue : List (D × Order D)) (w : World)
        → pos 0 ≤ℤ incoming.remaining_quantity
        → pos 0 ≤ℤ (sweep rules incoming queue w).incoming.remaining_quantity
    unfolding sweep settle_incoming settle_resting
    sweep_nonneg incoming [] w h = h
    sweep_nonneg incoming ((p, o) ∷ queue) w h =
        let qty = min_ℤ incoming.remaining_quantity o.remaining_quantity in
        let w' = (rules.execute incoming o p qty w).1 in
        ground (
          arith,
          -ℤ_parts incoming.remaining_quantity qty,
          sweep_nonneg (settle_incoming incoming qty) queue w',
        )

    -- All of that of the loop over the levels, from a state with no trades.
    pub record Outcome (order : Order D) (levels : List (Level D)) (s : MatchState D) : Type 0 where
      pub priority :
          map (made resting_id) s.trades ≡ take (length s.trades) (map offered (entries levels))
      pub filled : s.incoming.remaining_quantity +ℤ traded s.trades ≡ order.remaining_quantity
      pub taken : wanted (entries s.levels) +ℤ traded s.trades ≡ wanted (entries levels)
      pub fair :
          All
            (λ t.
              (pos 0 <ℤ t.quantity)
              × ((is_market order || rules.crosses order.price t.price) ≡ true))
            s.trades
      pub nonneg : pos 0 ≤ℤ order.remaining_quantity → pos 0 ≤ℤ s.incoming.remaining_quantity

    outcome :
        (order : Order D) (levels : List (Level D)) (s : MatchState D) (r : Swept D)
        → map (made resting_id) r.fresh ≡ take (length r.fresh) (map offered (entries levels))
        → Balanced order (entries levels) r
        → (pos 0 ≤ℤ order.remaining_quantity → pos 0 ≤ℤ r.incoming.remaining_quantity)
        → s.trades ≡ r.fresh
        → entries s.levels ≡ r.queue
        → s.incoming ≡ r.incoming
        → Outcome order levels s
    outcome order levels s r prior (filled, taken, fair) nonneg e f g = record {
      priority =
          subst (λ ts. map (made resting_id) ts ≡ take (length ts) (map offered (entries levels)))
            (sym e) prior;
      filled = rw (e, g) filled;
      taken = rw (e, f) taken;
      fair = rw e fair;
      nonneg = rw g nonneg;
    }

    -- The loop, started with no trades on a side with no empty level.
    pub match_loop-Outcome :
        (s : MatchState D)
        → s.trades ≡ []
        → All HasOrders s.levels
        → All Wants (entries s.levels)
        → Outcome s.incoming s.levels (match_loop (rounds s.levels) rules s)
    match_loop-Outcome s none_yet h k =
        let same = (match_loop_refines rules s h).0 in
        let queue = entries s.levels in
        outcome s.incoming s.levels _ (sweep rules s.incoming queue s.world)
          (sweep-priority s.incoming queue s.world) (sweep-Balanced s.incoming queue s.world k)
          (sweep_nonneg s.incoming queue s.world)
          (ap (λ v. v.trades) same
            ∙ ap (λ ts. ts ++ (sweep rules s.incoming queue s.world).fresh) none_yet)
          (ap (λ v. v.queue) same) (ap (λ v. v.incoming) same)
