-- ===== src/OrderBook/Matching/Queue.antt =====
-- What the matching loop promises, with no price levels in it: the orders of the opposite side stand
-- in one queue, and the incoming order takes from its front. The loop over the map of deques
-- (src/models/impl/OrderBook.cpp) refines that.
use velocore.Base.{
  ℕ, zero, suc, ◌≡◌, ◌≢◌, refl, sym, ap, ◌∙◌, subst, inl, inr, true, false, ◌&&◌, ◌||◌, List, [],
  ◌∷◌, ◌++◌, none, arith, pos, ◌<ℤ◌, -ℤ_parts, ltb_ℤ, eqb_ℤ, min_ℤ, All, Option-cases, Bool-cases,
  if◌then◌else◌,
}
use mathlib.Core.List.{append-nil, append_assoc}
use native.Mathlib.Nat.{le_refl}
use velocore.World.{World}
use velocore.Order.{Order, is_market}
use velocore.Trade.{Trade}
use velocore.OrderBook.Levels.{Level, level, keep_level, at_price, entries}
use velocore.OrderBook.Matching.{
  MatchState, Rules, settle_incoming, settle_resting, after_trade, trade_with, best_level, round,
  match_loop, rounds,
}
use velocore.OrderBook.Matching.Rounds.{Trades, round-Trades, match_loop_inv, match_loop_terminates}

-- The state of the loop, with the book as one queue.
pub record View (D : Type 0) : Type 0 where
  pub incoming : Order D
  pub queue : List (D × Order D)
  pub trades : List (Trade D)
  pub trade_log : List (Trade D)
  pub world : World

-- What a sweep of the queue leaves, and the trades that it makes.
pub record Swept (D : Type 0) : Type 0 where
  pub incoming : Order D
  pub queue : List (D × Order D)
  pub fresh : List (Trade D)
  pub world : World

module _ {D : Type 0} where
  abbrev pub view : MatchState D → View D
  view s = record {
    incoming = s.incoming;
    queue = entries s.levels;
    trades = s.trades;
    trade_log = s.trade_log;
    world = s.world;
  }

  -- Take from the front of the queue while the incoming order wants more and its price is met. An
  -- order that is not used up stays at the front, and the incoming order is then filled.
  unfoldable pub sweep : Rules D → Order D → List (D × Order D) → World → Swept D
  sweep rules incoming [] w = record { incoming = incoming; queue = []; fresh = []; world = w }
  sweep rules incoming ((p, o) ∷ queue) w =
      let qty = min_ℤ incoming.remaining_quantity o.remaining_quantity in
      let (t, w') = rules.execute incoming o p qty w in
      let next = sweep rules (settle_incoming incoming qty) queue w' in
      let left = settle_resting o qty in
      if ltb_ℤ (pos 0) incoming.remaining_quantity
        && (is_market incoming || rules.crosses incoming.price p)
      then (if eqb_ℤ left.remaining_quantity (pos 0)
          then record next { fresh = t ∷ next.fresh }
          else record {
            incoming = settle_incoming incoming qty;
            queue = (p, left) ∷ queue;
            fresh = t ∷ [];
            world = w';
          })
      else record { incoming = incoming; queue = (p, o) ∷ queue; fresh = []; world = w }

  -- The new trades go behind those of the call and of the log.
  abbrev pub with_swept : View D → Swept D → View D
  with_swept v r = record {
    incoming = r.incoming;
    queue = r.queue;
    trades = v.trades ++ r.fresh;
    trade_log = v.trade_log ++ r.fresh;
    world = r.world;
  }

  abbrev pub sweep_view : Rules D → View D → View D
  sweep_view rules v = with_swept v (sweep rules v.incoming v.queue v.world)

  abbrev untouched : MatchState D → List (D × Order D) → Swept D
  untouched s queue = record { incoming = s.incoming; queue = queue; fresh = []; world = s.world }

  abbrev pub HasOrders : Level D → Type 0
  HasOrders l = l.orders ≢ []

  entries-keep_level :
      (p : D) (os : List (Order D)) (ls : List (Level D))
      → entries (keep_level p os ls) ≡ at_price p os ++ entries ls
  entries-keep_level p [] ls = refl
  entries-keep_level p (o ∷ os) ls = refl

  entries-after_trade :
      (p : D) (o : Order D) (os : List (Order D)) (ls : List (Level D))
      → entries (after_trade p o os ls) ≡ (
          if eqb_ℤ o.remaining_quantity (pos 0)
          then at_price p os ++ entries ls
          else (p, o) ∷ at_price p os ++ entries ls)
  unfolding after_trade
  entries-after_trade p o os ls = ground (arith, entries-keep_level p os ls)

  pub after_trade-HasOrders :
      (p : D) (o : Order D) (os : List (Order D)) (ls : List (Level D))
      → All HasOrders ls
      → All HasOrders (after_trade p o os ls)
  unfolding after_trade
  after_trade-HasOrders p o [] ls h = ground arith
  after_trade-HasOrders p o (x ∷ os) ls h = ground arith

  unchanged : (s : MatchState D) → with_swept (view s) (untouched s (entries s.levels)) ≡ view s
  unchanged s = simp append-nil

module _ {D : Type 0} (rules : Rules D) where
  -- A loop that stops leaves a queue from which the specification takes nothing.
  sweep-front_none :
      (s : MatchState D) (p : D) (os : List (Order D)) (ls : List (Level D))
      → os ≢ []
      → best_level rules (level p os ∷ ls) s ≡ none
      → let queue = at_price p os ++ entries ls in
        sweep rules s.incoming queue s.world ≡ untouched s queue
  unfolding sweep best_level
  sweep-front_none s p [] ls h e = absurd (h refl)
  sweep-front_none s p (o ∷ os) ls h e = ground arith

  sweep-best_none :
      (s : MatchState D) (ls : List (Level D))
      → All HasOrders ls
      → best_level rules ls s ≡ none
      → sweep rules s.incoming (entries ls) s.world ≡ untouched s (entries ls)
  unfolding sweep
  sweep-best_none s [] h e = refl
  sweep-best_none s (l ∷ ls) h e = sweep-front_none s l.price l.orders ls h.0 e

  sweep-filled :
      (s : MatchState D) (queue : List (D × Order D))
      → ltb_ℤ (pos 0) s.incoming.remaining_quantity ≡ false
      → sweep rules s.incoming queue s.world ≡ untouched s queue
  unfolding sweep
  sweep-filled s [] e = refl
  sweep-filled s ((p, o) ∷ queue) e = ground arith

  sweep-stopped :
      (s : MatchState D)
      → All HasOrders s.levels
      → round rules s ≡ none
      → sweep_view rules (view s) ≡ view s
  unfolding round
  sweep-stopped s h e = elim (Bool-cases (ltb_ℤ (pos 0) s.incoming.remaining_quantity)) [
    | inl wants ↦ rw (sweep-best_none s s.levels h (ground arith)) (unchanged s)
    | inr done ↦ rw (sweep-filled s (entries s.levels) done) (unchanged s)
  ]

  -- A round of the loop is a step of the specification.
  sweep-trade_with :
      (s : MatchState D) (p : D) (o : Order D) (os : List (Order D)) (ls : List (Level D))
      → pos 0 <ℤ s.incoming.remaining_quantity
      → (is_market s.incoming || rules.crosses s.incoming.price p) ≡ true
      → with_swept (view s) (sweep rules s.incoming (entries (level p (o ∷ os) ∷ ls)) s.world)
        ≡ sweep_view rules (view (trade_with rules p o os ls s))
  unfolding sweep trade_with settle_incoming settle_resting
  sweep-trade_with s p o os ls w c =
      let qty = min_ℤ s.incoming.remaining_quantity o.remaining_quantity in
      let left = settle_resting o qty in
      let s' = trade_with rules p o os ls s in
      let (t, w') = rules.execute s.incoming o p qty s.world in
      let next = sweep rules (settle_incoming s.incoming qty) (at_price p os ++ entries ls) w' in
      ground (
        arith,
        -ℤ_parts s.incoming.remaining_quantity qty,
        -ℤ_parts o.remaining_quantity qty,
        entries-after_trade p left os ls,
        sweep-filled s' ((p, left) ∷ at_price p os ++ entries ls),
        append_assoc s.trades (t ∷ []) next.fresh,
        append_assoc s.trade_log (t ∷ []) next.fresh,
        append-nil (s.trades ++ t ∷ []),
        append-nil (s.trade_log ++ t ∷ []),
      )

  sweep-Trades :
      (s s' : MatchState D)
      → Trades rules s s'
      → sweep_view rules (view s) ≡ sweep_view rules (view s')
  sweep-Trades s s' t = rw t.traded (
      ap (λ ls. with_swept (view s) (sweep rules s.incoming (entries ls) s.world)) t.first
      ∙ sweep-trade_with s t.price t.resting t.behind t.worse t.wants t.crossed)

  Trades-HasOrders :
      (s s' : MatchState D) → Trades rules s s' → All HasOrders s.levels → All HasOrders s'.levels
  unfolding trade_with
  Trades-HasOrders s s' t h = rw t.traded (after_trade-HasOrders t.price _ t.behind t.worse rest)
    where
      rest : All HasOrders t.worse
      rest = (subst (All HasOrders) t.first h).1

  sweep-match_loop :
      (fuel : ℕ) (s : MatchState D)
      → All HasOrders s.levels
      → sweep_view rules (view s) ≡ sweep_view rules (view (match_loop fuel rules s))
  unfolding match_loop
  sweep-match_loop zero s h = refl
  sweep-match_loop (suc fuel) s h = elim (Option-cases (round rules s)) [
    | inl e ↦ rw (e, match_loop)
    | inr (s', e) ↦
        let t = round-Trades rules s s' e in
        rw (e, match_loop)
          (sweep-Trades s s' t ∙ sweep-match_loop fuel s' (Trades-HasOrders s s' t h))
  ]

  match_loop-HasOrders :
      (fuel : ℕ) (s : MatchState D)
      → All HasOrders s.levels
      → All HasOrders (match_loop fuel rules s).levels
  match_loop-HasOrders fuel s h =
      match_loop_inv rules (λ s. All HasOrders s.levels) (λ s s' h t. Trades-HasOrders s s' t h)
        fuel s h

  -- On a side of the book in which no level is empty, the loop over the levels leaves exactly the
  -- incoming order, queue, trades, log and counters of the specification, and no empty level.
  pub match_loop_refines :
      (s : MatchState D)
      → All HasOrders s.levels
      → let s' = match_loop (rounds s.levels) rules s in
        (view s' ≡ sweep_view rules (view s)) × All HasOrders s'.levels
  match_loop_refines s h =
      let kept = match_loop-HasOrders (rounds s.levels) s h in
      let done = (match_loop_terminates rules s (rounds s.levels) (le_refl _)).0 in
      (sym (sweep-match_loop (rounds s.levels) s h ∙ sweep-stopped _ kept done), kept)
