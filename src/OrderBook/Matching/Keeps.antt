-- ===== src/OrderBook/Matching/Keeps.antt =====
-- What the matching loop keeps of the side that it takes from and of the incoming order.
use velocore.Base.{
  ℕ, ◌≡◌, inl, inr, false, List, ◌∷◌, arith, ℤ, pos, ◌<ℤ◌, ◌≤ℤ◌, -ℤ_parts, min_ℤ, eqb_ℤ, All,
  Bool-cases, subst,
}
use velocore.Double.{Double, IsIeee}
use velocore.Types.{Side}
use velocore.Order.{Order}
use velocore.OrderBook.Levels.{Level, level}
use velocore.OrderBook.Levels.Valid.{IsResting, IsSide, IsLive}
use velocore.OrderBook.Levels.Removal.{keep_level-IsSide, keep_level-prices}
use velocore.OrderBook.Matching.{
  MatchState, Rules, settle_incoming, settle_resting, after_trade, trade_with, match_loop,
}
use velocore.OrderBook.Matching.Rounds.{Trades, match_loop_inv}

-- The quantity of a trade of two orders that both want some.
pub min_bounds :
    (a b : ℤ) → pos 0 <ℤ a → pos 0 <ℤ b → (pos 0 <ℤ min_ℤ a b) × (min_ℤ a b ≤ℤ a) × (min_ℤ a b ≤ℤ b)
min_bounds a b h k = ground arith

module _ {D : Type 0} where
  -- What the incoming order keeps: all but its remaining quantity and its status, which still say
  -- the same thing while it wants more.
  pub record IsPart (order o : Order D) : Type 0 where
    pub only : o ≡ record order { remaining_quantity = o.remaining_quantity; status = o.status }
    pub fewer : o.remaining_quantity ≤ℤ order.remaining_quantity
    pub live : pos 0 <ℤ o.remaining_quantity → IsLive o

  settle_incoming-IsPart :
      (order o : Order D) (qty : ℤ)
      → IsPart order o
      → pos 0 <ℤ o.remaining_quantity
      → pos 0 <ℤ qty
      → IsPart order (settle_incoming o qty)
  unfolding settle_incoming
  settle_incoming-IsPart order o qty h w q = record {
    only = ground (arith, h.only);
    fewer = omega (arith, h.fewer, -ℤ_parts o.remaining_quantity qty);
    live = ground (arith, h.live w, -ℤ_parts o.remaining_quantity qty);
  }

module _ {D : Type 0} ⦃d : Double D⦄ (ieee : IsIeee D) (side : Side) where
  settle_resting-IsResting :
      (p : D) (o : Order D) (qty : ℤ)
      → IsResting ieee side p o
      → pos 0 <ℤ qty
      → qty ≤ℤ o.remaining_quantity
      → eqb_ℤ (settle_resting o qty).remaining_quantity (pos 0) ≡ false
      → IsResting ieee side p (settle_resting o qty)
  unfolding settle_resting
  settle_resting-IsResting p o qty h q le left = record {
    same_side = h.same_side;
    is_limit_order = h.is_limit_order;
    number = h.number;
    same_price = h.same_price;
    wanted = ground (arith, -ℤ_parts o.remaining_quantity qty);
    live = ground (arith, h.live, -ℤ_parts o.remaining_quantity qty);
  }

  -- The resting order that a trade leaves at the front, or its absence.
  after_trade-IsSide :
      (p : D) (o : Order D) (os : List (Order D)) (ls : List (Level D)) (qty : ℤ)
      → IsSide ieee side (level p (o ∷ os) ∷ ls)
      → pos 0 <ℤ qty
      → qty ≤ℤ o.remaining_quantity
      → IsSide ieee side (after_trade p (settle_resting o qty) os ls)
  unfolding after_trade
  after_trade-IsSide p o os ls qty h q le =
      let resting = h.0.0.resting in
      elim (Bool-cases (eqb_ℤ (settle_resting o qty).remaining_quantity (pos 0))) [
        | inl gone ↦ rw gone (keep_level-IsSide ieee side p (o ∷ os) os ls h resting.1)
        | inr left ↦ rw left (
            keep_level-IsSide ieee side p (o ∷ os) (settle_resting o qty ∷ os) ls h
              (settle_resting-IsResting p o qty resting.0 q le left, resting.1))
      ]

  module _ (rules : Rules D) where
    -- The side that the loop takes from stays one, and the incoming order stays a part of itself.
    pub record Keeps (order : Order D) (s : MatchState D) : Type 0 where
      pub is_side : IsSide ieee side s.levels
      pub is_part : IsPart order s.incoming

    Trades-Keeps :
        (order : Order D) (s s' : MatchState D) → Keeps order s → Trades rules s s' → Keeps order s'
    unfolding trade_with
    Trades-Keeps order s s' k t =
        let here = subst (IsSide ieee side) t.first k.is_side in
        let bounds =
          min_bounds s.incoming.remaining_quantity t.resting.remaining_quantity t.wants
            here.0.0.resting.0.wanted in
        rw t.traded (record {
          is_side = after_trade-IsSide t.price t.resting t.behind t.worse _ here bounds.0 bounds.2;
          is_part = settle_incoming-IsPart order s.incoming _ k.is_part t.wants bounds.0;
        })

    pub match_loop-Keeps :
        (order : Order D) (fuel : ℕ) (s : MatchState D)
        → Keeps order s
        → Keeps order (match_loop fuel rules s)
    match_loop-Keeps order fuel s k =
        match_loop_inv rules (Keeps order) (λ s s' k t. Trades-Keeps order s s' k t) fuel s k

-- Whatever holds of the prices of all the levels goes on to hold.
module _ {κ} {D : Type 0} (rules : Rules D) (Q : D → Type κ) where
  after_trade-prices :
      (p : D) (o : Order D) (os : List (Order D)) (ls : List (Level D))
      → Q p
      → All (λ l. Q l.price) ls
      → All (λ l. Q l.price) (after_trade p o os ls)
  unfolding after_trade
  after_trade-prices p o os ls h k = elim (Bool-cases (eqb_ℤ o.remaining_quantity (pos 0))) [
    | inl gone ↦ rw gone (keep_level-prices Q p os ls h k)
    | inr left ↦ rw left (h, k)
  ]

  Trades-prices :
      (s s' : MatchState D)
      → All (λ l. Q l.price) s.levels
      → Trades rules s s'
      → All (λ l. Q l.price) s'.levels
  unfolding trade_with
  Trades-prices s s' h t =
      let here = subst (All (λ l. Q l.price)) t.first h in
      rw t.traded (after_trade-prices t.price _ t.behind t.worse here.0 here.1)

  pub match_loop-prices :
      (fuel : ℕ) (s : MatchState D)
      → All (λ l. Q l.price) s.levels
      → All (λ l. Q l.price) (match_loop fuel rules s).levels
  match_loop-prices fuel s h =
      match_loop_inv rules (λ s. All (λ l. Q l.price) s.levels) (λ s s' h t. Trades-prices s s' h t)
        fuel s h
