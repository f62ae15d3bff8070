-- ===== src/OrderBook/Engine/Sides.antt =====
-- The two sides of the book as one call of `addOrder` sees them (src/models/impl/OrderBook.cpp).
use velocore.Base.{
  ℕ, ◌≡◌, refl, sym, ap, ◌∙◌, inl, inr, true, List, [], ◌∷◌, ◌++◌, arith, pos, ◌≤ℤ◌, ◌+ℤ◌, +ℤ_zero,
  +ℤ_swap, +ℤ_comm, +ℤ_assoc, All, All-append, Bool-cases, if◌then◌else◌, eq_of_parts,
}
use velocore.Double.{Double, IsIeee}
use velocore.World.{World}
use velocore.Types.{Side}
use velocore.Order.{Order, is_buy, is_limit, is_market}
use velocore.Trade.{Trade, new_trade}
use velocore.OrderBook.Levels.{Level, level, push_back, entries, at_price, before}
use velocore.OrderBook.Levels.Valid.{IsSide, IsResting}
use velocore.OrderBook.Matching.{Rules, execute_trade, buy_rules, sell_rules, match_loop, rounds}
use velocore.OrderBook.Matching.Queue.{HasOrders, match_loop_refines}
use velocore.OrderBook.Matching.Fills.{wanted, Wants, Faithful}
use velocore.OrderBook.Matching.Keeps.{IsPart}
use velocore.OrderBook.Engine.{OrderBook, match_start, add_to_book, keep_rest}

module _ {D : Type 0} where
  -- The side that an order takes from, the side on which it rests, and the resting order of a trade.
  abbrev pub opposite : Order D → OrderBook D → List (Level D)
  opposite o b = if is_buy o then b.sell_book else b.buy_book

  abbrev pub own : Order D → OrderBook D → List (Level D)
  own o b = if is_buy o then b.buy_book else b.sell_book

  abbrev pub resting_id : Order D → Trade D → ℕ
  resting_id o = if is_buy o then (λ t. t.sell_order_id) else λ t. t.buy_order_id

  wanted-append : (xs ys : List (D × Order D)) → wanted (xs ++ ys) ≡ wanted xs +ℤ wanted ys
  wanted-append [] ys = sym (+ℤ_comm _ _ ∙ +ℤ_zero _)
  wanted-append (x ∷ xs) ys = rw (wanted-append xs ys) (sym (+ℤ_assoc _ _ _))

  pub at_price-append :
      (p : D) (os : List (Order D)) (o : Order D)
      → at_price p (os ++ o ∷ []) ≡ at_price p os ++ (p, o) ∷ []
  at_price-append p [] o = refl
  at_price-append p (x ∷ os) o = rw (at_price-append p os o)

module _ {D : Type 0} ⦃d : Double D⦄ where
  -- An insertion adds the order's quantity to its side.
  pub wanted-push_back :
      (side : Side) (p : D) (o : Order D) (ls : List (Level D))
      → wanted (entries (push_back side p o ls)) ≡ wanted (entries ls) +ℤ o.remaining_quantity
  unfolding push_back
  wanted-push_back side p o [] = +ℤ_comm _ _
  wanted-push_back side p o (l ∷ ls) = elim (Bool-cases (before side p l.price)) [
    | inl e ↦ rw e (+ℤ_comm _ _)
    | inr e ↦ elim (Bool-cases (before side l.price p)) [
      | inl f ↦ rw (e, f) (later l ls (wanted-push_back side p o ls))
      | inr f ↦ rw (e, f) (behind l ls)
    ]
  ]
    where
      later :
          (l : Level D) (ls : List (Level D))
          → wanted (entries (push_back side p o ls)) ≡ wanted (entries ls) +ℤ o.remaining_quantity
          → wanted (entries (l ∷ push_back side p o ls))
            ≡ wanted (entries (l ∷ ls)) +ℤ o.remaining_quantity
      later l ls ih =
          let front = at_price l.price l.orders in
          cc (
            ih,
            wanted-append front (entries (push_back side p o ls)),
            wanted-append front (entries ls),
            +ℤ_assoc (wanted front) (wanted (entries ls)) o.remaining_quantity,
          )

      behind :
          (l : Level D) (ls : List (Level D))
          → wanted (entries (level l.price (l.orders ++ o ∷ []) ∷ ls))
            ≡ wanted (entries (l ∷ ls)) +ℤ o.remaining_quantity
      behind l ls =
          let front = at_price l.price l.orders in
          let last : List (D × Order D) = (l.price, o) ∷ [] in
          cc (
            wanted-append (at_price l.price (l.orders ++ o ∷ [])) (entries ls),
            at_price-append l.price l.orders o,
            wanted-append front last,
            wanted-append front (entries ls),
            +ℤ_zero o.remaining_quantity,
            +ℤ_assoc (wanted front) o.remaining_quantity (wanted (entries ls)),
            +ℤ_swap (wanted front) o.remaining_quantity (wanted (entries ls)),
          )

  -- What holds of every resting order of a side, on the queue.
  pub queue-Wants :
      (ieee : IsIeee D) (side : Side) (ls : List (Level D))
      → IsSide ieee side ls
      → All HasOrders ls × All Wants (entries ls)
  queue-Wants ieee side [] h = (tt, tt)
  queue-Wants ieee side (l ∷ ls) h =
      let rest = queue-Wants ieee side ls (h.0.1, h.1.1) in
      ((h.0.0.has_orders, rest.0), All-append Wants _ _ (here l.orders h.0.0.resting) rest.1)
    where
      here :
          (os : List (Order D))
          → All (IsResting ieee side l.price) os
          → All Wants (at_price l.price os)
      here [] k = tt
      here (o ∷ os) k = (k.0.wanted, here os k.1)

  pub buy-Faithful : (clock : ℕ → ℕ) → Faithful {D = D} (buy_rules clock) λ t. t.sell_order_id
  unfolding execute_trade new_trade
  buy-Faithful clock incoming resting price qty w = (refl, refl, refl)

  pub sell-Faithful : (clock : ℕ → ℕ) → Faithful {D = D} (sell_rules clock) λ t. t.buy_order_id
  unfolding execute_trade new_trade
  sell-Faithful clock incoming resting price qty w = (refl, refl, refl)

  pub loop-logged :
      (rules : Rules D) (order : Order D) (levels : List (Level D)) (b : OrderBook D) (w : World)
      → All HasOrders levels
      → let s = match_loop (rounds levels) rules (match_start order levels b w) in
        s.trade_log ≡ b.trade_log ++ s.trades
  loop-logged rules order levels b w h =
      let same = (match_loop_refines rules (match_start order levels b w) h).0 in
      ap (λ v. v.trade_log) same ∙ ap (λ ts. b.trade_log ++ ts) (sym (ap (λ v. v.trades) same))

  -- What `keep_rest` does to the log: nothing.
  pub keep_rest-log : (o : Order D) (b : OrderBook D) → (keep_rest o b).trade_log ≡ b.trade_log
  unfolding keep_rest add_to_book
  keep_rest-log o b = ground arith

  -- What it does to the two sides, for a part `o` of `order`.
  pub keep_rest_sides :
      (order o : Order D) (b : OrderBook D)
      → IsPart order o
      → pos 0 ≤ℤ o.remaining_quantity
      → (opposite order (keep_rest o b) ≡ opposite order b)
        × (is_limit order ≡ true
            → wanted (entries (own order (keep_rest o b)))
              ≡ wanted (entries (own order b)) +ℤ o.remaining_quantity)
        × (is_market order ≡ true → own order (keep_rest o b) ≡ own order b)
  unfolding keep_rest add_to_book
  keep_rest_sides order o b part h = ground (
    arith,
    ap (λ o. o.side) part.only,
    ap (λ o. o.type) part.only,
    wanted-push_back Side.buy o.price o b.buy_book,
    wanted-push_back Side.sell o.price o b.sell_book,
    +ℤ_zero (wanted (entries b.buy_book)),
    +ℤ_zero (wanted (entries b.sell_book)),
    eq_of_parts o.remaining_quantity (pos 0),
  )
