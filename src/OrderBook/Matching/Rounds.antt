-- ===== src/OrderBook/Matching/Rounds.antt =====
-- The rounds of the matching loop: what one does, and that the loop ends by its own test.
use velocore.Base.{
  ℕ, zero, suc, ◌+◌, ◌≤◌, ◌<◌, ◌≡◌, refl, sym, ap, inl, inr, ◌≢◌, ◌⊎◌, true, false, All, ◌||◌, List,
  [], ◌∷◌, none, some, arith, pos, ◌<ℤ◌, -ℤ_parts, ltb_ℤ, eqb_ℤ, min_ℤ, length, Option-cases,
  if◌then◌else◌,
}
use mathlib.Core.Option.{some-injective}
use velocore.Order.{Order, is_market}
use velocore.OrderBook.Levels.{Level, level, keep_level, count_orders}
use velocore.OrderBook.Matching.{
  MatchState, Rules, settle_incoming, settle_resting, after_trade, trade_with, front, best_level,
  round, match_loop, rounds,
}

module _ {D : Type 0} where
  count-keep_level :
      (p : D) (os : List (Order D)) (ls : List (Level D))
      → count_orders (keep_level p os ls) ≡ length os + count_orders ls
  count-keep_level p [] ls = omega arith
  count-keep_level p (o ∷ os) ls = refl

  pub count-after_trade :
      (p : D) (o : Order D) (os : List (Order D)) (ls : List (Level D))
      → count_orders (after_trade p o os ls)
        ≡ (if eqb_ℤ o.remaining_quantity (pos 0) then 0 else 1) + length os + count_orders ls
  unfolding after_trade
  count-after_trade p o os ls = ground (arith, count-keep_level p os ls)

module _ {D : Type 0} (rules : Rules D) where
  -- A round that does not end the loop trades with the front of the first level.
  pub record Trades (s s' : MatchState D) : Type 0 where
    pub price : D
    pub resting : Order D
    pub behind : List (Order D)
    pub worse : List (Level D)
    pub first : s.levels ≡ level price (resting ∷ behind) ∷ worse
    pub wants : pos 0 <ℤ s.incoming.remaining_quantity
    pub crossed : (is_market s.incoming || rules.crosses s.incoming.price price) ≡ true
    pub traded : s' ≡ trade_with rules price resting behind worse s

  front-Trades :
      (p : D) (os : List (Order D)) (ls : List (Level D)) (s s' : MatchState D)
      → s.levels ≡ level p os ∷ ls
      → pos 0 <ℤ s.incoming.remaining_quantity
      → (is_market s.incoming || rules.crosses s.incoming.price p) ≡ true
      → front rules p os ls s ≡ some s'
      → Trades s s'
  unfolding front
  front-Trades p [] ls s s' at w c e = cc
  front-Trades p (o ∷ os) ls s s' at w c e = record {
    price = p;
    resting = o;
    behind = os;
    worse = ls;
    first = at;
    wants = w;
    crossed = c;
    traded = sym (some-injective _ _ e);
  }

  best_level-Trades :
      (ls : List (Level D)) (s s' : MatchState D)
      → s.levels ≡ ls
      → pos 0 <ℤ s.incoming.remaining_quantity
      → best_level rules ls s ≡ some s'
      → Trades s s'
  unfolding best_level
  best_level-Trades [] s s' at w e = cc
  best_level-Trades (l ∷ ls) s s' at w e =
      front-Trades l.price l.orders ls s s' at w (ground arith) (ground arith)

  pub round-Trades : (s s' : MatchState D) → round rules s ≡ some s' → Trades s s'
  unfolding round
  round-Trades s s' e = best_level-Trades s.levels s s' refl (ground arith) (ground arith)

  -- What holds at the start and is kept by every trade holds when the loop ends.
  pub match_loop_inv {κ} :
      (P : MatchState D → Type κ)
      → ((s s' : MatchState D) → P s → Trades s s' → P s')
      → (fuel : ℕ) (s : MatchState D) → P s
      → P (match_loop fuel rules s)
  unfolding match_loop
  match_loop_inv P keep zero s h = h
  match_loop_inv P keep (suc fuel) s h = elim (Option-cases (round rules s)) [
    | inl e ↦ rw (e, match_loop) h
    | inr (s', e) ↦
        rw (e, match_loop) (match_loop_inv P keep fuel s' (keep s s' h (round-Trades s s' e)))
  ]

  -- The rounds that may still come: none once the incoming order is filled.
  measure : MatchState D → ℕ
  measure s = if ltb_ℤ (pos 0) s.incoming.remaining_quantity then count_orders s.levels else 0

  measure-Trades : (s s' : MatchState D) → Trades s s' → measure s' < measure s
  unfolding measure settle_incoming settle_resting trade_with
  measure-Trades s s' t =
      let qty = min_ℤ s.incoming.remaining_quantity t.resting.remaining_quantity in
      ground (
        arith,
        ap count_orders t.first,
        -ℤ_parts s.incoming.remaining_quantity qty,
        -ℤ_parts t.resting.remaining_quantity qty,
        count-after_trade t.price (settle_resting t.resting qty) t.behind t.worse,
      )

  match_loop_done :
      (fuel : ℕ) (s : MatchState D)
      → measure s < fuel
      → round rules (match_loop fuel rules s) ≡ none
  unfolding match_loop
  match_loop_done zero s h = absurd (omega arith)
  match_loop_done (suc fuel) s h = elim (Option-cases (round rules s)) [
    | inl e ↦ rw (e, match_loop) e
    | inr (s', e) ↦
        rw (e, match_loop)
          (match_loop_done fuel s' (omega (arith, measure-Trades s s' (round-Trades s s' e))))
  ]

  match_loop_same :
      (f g : ℕ) (s : MatchState D)
      → measure s < f
      → measure s < g
      → match_loop f rules s ≡ match_loop g rules s
  unfolding match_loop
  match_loop_same zero g s h k = absurd (omega arith)
  match_loop_same (suc f) zero s h k = absurd (omega arith)
  match_loop_same (suc f) (suc g) s h k = elim (Option-cases (round rules s)) [
    | inl e ↦ rw (e, match_loop)
    | inr (s', e) ↦
        let fewer = measure-Trades s s' (round-Trades s s' e) in
        rw (e, match_loop) (match_loop_same f g s' (omega arith) (omega arith))
  ]

  measure-rounds : (s : MatchState D) → measure s < rounds s.levels
  unfolding measure
  measure-rounds s = ground arith

  -- From any state, the bound `rounds` on the number of rounds is enough for the loop to end by its
  -- own test, and any larger bound gives the same result.
  pub match_loop_terminates :
      (s : MatchState D) (bound : ℕ)
      → rounds s.levels ≤ bound
      → (round rules (match_loop (rounds s.levels) rules s) ≡ none)
        × (match_loop bound rules s ≡ match_loop (rounds s.levels) rules s)
  match_loop_terminates s bound h =
      let few = measure-rounds s in
      (
        match_loop_done (rounds s.levels) s few,
        match_loop_same bound (rounds s.levels) s (omega arith) few,
      )

  stopped_at :
      (s : MatchState D) (ls : List (Level D))
      → All (λ l. l.orders ≢ []) ls
      → is_market s.incoming ≡ false
      → best_level rules ls s ≡ none
      → (ls ≡ [])
        ⊎ ((l : Level D) × (worse : List (Level D)) × (ls ≡ l ∷ worse)
            × (rules.crosses s.incoming.price l.price ≡ false))
  unfolding best_level
  stopped_at s [] h m e = inl refl
  stopped_at s (l ∷ ls) h m e = inr (l, ls, refl, not_crossed l.orders h.0 e)
    where
      not_crossed :
          (os : List (Order D))
          → os ≢ []
          → (if is_market s.incoming || rules.crosses s.incoming.price l.price
              then front rules l.price os ls s
              else none)
            ≡ none
          → rules.crosses s.incoming.price l.price ≡ false
      not_crossed [] k f = absurd (k refl)
      not_crossed (o ∷ os) k f = ground arith

  -- When the loop ends on a limit order that still wants more, the side is empty or its best price
  -- does not cross.
  pub stopped :
      (s : MatchState D)
      → All (λ l. l.orders ≢ []) s.levels
      → is_market s.incoming ≡ false
      → pos 0 <ℤ s.incoming.remaining_quantity
      → round rules s ≡ none
      → (s.levels ≡ [])
        ⊎ ((l : Level D) × (worse : List (Level D)) × (s.levels ≡ l ∷ worse)
            × (rules.crosses s.incoming.price l.price ≡ false))
  unfolding round
  stopped s h m w e = stopped_at s s.levels h m (ground arith)

  front-ne-none :
      (p : D) (os : List (Order D)) (ls : List (Level D)) (s : MatchState D)
      → os ≢ []
      → front rules p os ls s ≢ none
  unfolding front
  front-ne-none p [] ls s k f = k refl
  front-ne-none p (o ∷ os) ls s k f = cc

  best_level-drained :
      (s : MatchState D) (ls : List (Level D))
      → All (λ l. l.orders ≢ []) ls
      → is_market s.incoming ≡ true
      → best_level rules ls s ≡ none
      → ls ≡ []
  unfolding best_level
  best_level-drained s [] h m e = refl
  best_level-drained s (l ∷ ls) h m e =
      absurd (front-ne-none l.price l.orders ls s h.0 (ground arith))

  -- When the loop ends on a market order that still wants more, the side is empty.
  pub drained :
      (s : MatchState D)
      → All (λ l. l.orders ≢ []) s.levels
      → is_market s.incoming ≡ true
      → pos 0 <ℤ s.incoming.remaining_quantity
      → round rules s ≡ none
      → s.levels ≡ []
  unfolding round
  drained s h m w e = best_level-drained s s.levels h m (ground arith)
