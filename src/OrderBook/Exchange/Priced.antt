-- ===== src/OrderBook/Exchange/Priced.antt =====
-- The prices of the levels of `class OrderBook` (src/models/impl/OrderBook.cpp) come from limit orders:
-- what holds of these holds of all levels.
use velocore.Base.{
  ℕ, ◌≡◌, refl, sym, ◌∙◌, inl, inr, ◌&&◌, arith, pos, ltb_ℤ, All, Bool-cases, Option-cases, ◌==◌,
}
use velocore.Double.{Double}
use velocore.World.{World}
use velocore.Types.{Side, OrderType}
use velocore.Order.{Order, is_buy, is_limit}
use velocore.OrderBook.Levels.{cancel_in}
use velocore.OrderBook.Levels.Valid.{push_back-prices}
use velocore.OrderBook.Levels.Removal.{cancel_in-prices}
use velocore.OrderBook.Matching.{
  MatchState, Rules, buy_rules, sell_rules, rounds, match_loop, match_buy_order, match_sell_order,
  trade_with, settle_incoming,
}
use velocore.OrderBook.Matching.Rounds.{match_loop_inv}
use velocore.OrderBook.Matching.Keeps.{match_loop-prices}
use velocore.OrderBook.Engine.{
  OrderBook, match_start, stamp, match_order, after_match, add_to_book, keep_rest, process,
  add_order, cancel_order,
}

module _ {κ} {D : Type 0} (Q : D → Type κ) where
  abbrev pub Priced : OrderBook D → Type κ
  Priced b = All (λ l. Q l.price) b.buy_book × All (λ l. Q l.price) b.sell_book

  pub cancel_order-Priced : (id : ℕ) (b : OrderBook D) → Priced b → Priced (cancel_order id b).1
  unfolding cancel_order
  cancel_order-Priced id b (bids, asks) = elim (Option-cases (cancel_in id b.buy_book)) [
    | inr (ls, e) ↦ rw (e, cancel_order) (cancel_in-prices Q id b.buy_book ls e bids, asks)
    | inl e ↦ elim (Option-cases (cancel_in id b.sell_book)) [
      | inr (ls, f) ↦ rw (e, f, cancel_order) (bids, cancel_in-prices Q id b.sell_book ls f asks)
      | inl f ↦ rw (e, f, cancel_order) (bids, asks)
    ]
  ]

module _ {D : Type 0} where
  -- The price and the type of an order stay.
  abbrev HasTerms : Order D → Order D → Type 0
  HasTerms order o = (o.price ≡ order.price) × (o.type ≡ order.type)

  match_loop-HasTerms :
      (rules : Rules D) (order : Order D) (fuel : ℕ) (s : MatchState D)
      → HasTerms order s.incoming
      → HasTerms order (match_loop fuel rules s).incoming
  unfolding trade_with settle_incoming
  match_loop-HasTerms rules order fuel s h =
      match_loop_inv rules (λ s. HasTerms order s.incoming) (λ s s' h t. rw t.traded h) fuel s h

module _ {κ} {D : Type 0} ⦃d : Double D⦄ (Q : D → Type κ) where
  -- The price of a limit order is one of those.
  abbrev pub IsPriced : Order D → Type κ
  IsPriced o = o.type ≡ OrderType.limit → Q o.price

  match_order-Priced :
      (clock : ℕ → ℕ) (order : Order D) (b : OrderBook D) (w : World)
      → Priced Q b
      → let s = match_order clock order b w in
        Priced Q (after_match order s b) × HasTerms order s.incoming
  unfolding match_order match_buy_order match_sell_order
  match_order-Priced clock order b w (bids, asks) = elim (Bool-cases (is_buy order)) [
    | inl bought ↦
        let start = match_start order b.sell_book b w in
        let rules = buy_rules clock in
        rw bought (
          (bids, match_loop-prices rules Q (rounds b.sell_book) start asks),
          match_loop-HasTerms rules order (rounds b.sell_book) start (refl, refl),
        )
    | inr sold ↦
        let start = match_start order b.buy_book b w in
        let rules = sell_rules clock in
        rw sold (
          (match_loop-prices rules Q (rounds b.buy_book) start bids, asks),
          match_loop-HasTerms rules order (rounds b.buy_book) start (refl, refl),
        )
  ]

  add_to_book-Priced :
      (o : Order D) (b : OrderBook D) → Q o.price → Priced Q b → Priced Q (add_to_book o b)
  unfolding add_to_book
  add_to_book-Priced o b q (bids, asks) = elim (Bool-cases (is_buy o)) [
    | inl e ↦ rw e (push_back-prices Q Side.buy o.price o b.buy_book q bids, asks)
    | inr e ↦ rw e (bids, push_back-prices Q Side.sell o.price o b.sell_book q asks)
  ]

  keep_rest-Priced :
      (o : Order D) (b : OrderBook D) → IsPriced o → Priced Q b → Priced Q (keep_rest o b)
  unfolding keep_rest
  keep_rest-Priced o b q v = elim (Bool-cases (is_limit o && ltb_ℤ (pos 0) o.remaining_quantity)) [
    | inl rests ↦ rw rests (add_to_book-Priced o b (q (ground arith)) v)
    | inr gone ↦ rw gone v
  ]

  process-Priced :
      (clock : ℕ → ℕ) (order : Order D) (b : OrderBook D) (w : World)
      → IsPriced order
      → Priced Q b
      → Priced Q (process clock order b w).book
  unfolding process
  process-Priced clock order b w q v =
      let s = match_order clock order b w in
      let (kept, (price, type)) = match_order-Priced clock order b w v in
      keep_rest-Priced s.incoming (after_match order s b)
        (λ limited. rw price (q (sym type ∙ limited))) kept

  pub add_order-Priced :
      (clock : ℕ → ℕ) (order : Order D) (b : OrderBook D) (w : World)
      → IsPriced order
      → Priced Q b
      → Priced Q (add_order clock order b w).book
  unfolding add_order stamp
  add_order-Priced clock order b w q v = elim (Bool-cases (order.timestamp == 0)) [
    | inl e ↦ rw e (process-Priced clock _ b _ q v)
    | inr e ↦ rw e (process-Priced clock order b w q v)
  ]
