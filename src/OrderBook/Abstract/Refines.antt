-- ===== src/OrderBook/Abstract/Refines.antt =====
-- `class OrderBook` (src/models/impl/OrderBook.cpp) keeps the promise of two queues and a log.
use velocore.Base.{
  ℕ, ◌≡◌, refl, sym, ap, ◌∙◌, inl, inr, true, false, ◌&&◌, List, [], ◌∷◌, arith, pos, ltb_ℤ, All,
  Bool-cases, Option-cases, subst,
}
use velocore.Double.{Double, IsIeee}
use velocore.World.{World}
use velocore.Types.{Side}
use velocore.Order.{Order, is_buy, is_limit}
use velocore.OrderBook.Levels.{entries, cancel_in}
use velocore.OrderBook.Levels.Valid.{IsSide}
use velocore.OrderBook.Matching.{
  MatchState, Rules, buy_rules, sell_rules, match_buy_order, match_sell_order, match_loop, rounds,
}
use mathlib.Core.Option
use native.Mathlib.Nat.{le_refl}
use velocore.OrderBook.Matching.Keeps.{IsPart, match_loop-Keeps}
use velocore.OrderBook.Matching.Queue.{View, view, sweep_view, match_loop_refines}
use velocore.OrderBook.Engine.{
  OrderBook, match_start, stamp, match_order, process, add_order, add_to_book, keep_rest,
  cancel_order, clear, Call, adds, cancels, clears, call,
}
use velocore.OrderBook.Engine.Sides.{queue-Wants}
use velocore.OrderBook.Engine.Valid.{IsIncoming, IsBook}
use velocore.OrderBook.Engine.History.{Side-cases, stamp-IsIncoming, IsAcceptable, call-IsBook}
use velocore.OrderBook.Abstract.{
  Queues, Answer, traded, cancelled, Told, told, queues, wait, trade, withdraw, promised, promise,
  answer, observe,
}
use velocore.OrderBook.Abstract.Insertion.{push_back-enqueue, cancel_in-without}

module _ {D : Type 0} ⦃d : Double D⦄ (ieee : IsIeee D) (clock : ℕ → ℕ) where
  open ieee use {is_nan}

  -- What holds of what is left of an acceptable order.
  abbrev CanWait : Order D → Type 0
  CanWait o = is_limit o ≡ true → is_nan o.price ≡ false

  -- The rest of an order, on the queue of its side.
  keep_bid :
      (o : Order D) (b : OrderBook D)
      → is_buy o ≡ true
      → CanWait o
      → IsSide ieee Side.buy b.buy_book
      → queues (keep_rest o b) ≡ record (queues b) { bids = wait Side.buy o (entries b.buy_book) }
  unfolding keep_rest wait add_to_book
  keep_bid o b e n v = elim (Bool-cases (is_limit o && ltb_ℤ (pos 0) o.remaining_quantity)) [
    | inl rests ↦ rw (rests, e, push_back-enqueue ieee Side.buy o b.buy_book (n (ground arith)) v)
    | inr gone ↦ rw gone
  ]

  keep_ask :
      (o : Order D) (b : OrderBook D)
      → is_buy o ≡ false
      → CanWait o
      → IsSide ieee Side.sell b.sell_book
      → queues (keep_rest o b) ≡ record (queues b) { asks = wait Side.sell o (entries b.sell_book) }
  unfolding keep_rest wait add_to_book
  keep_ask o b e n v = elim (Bool-cases (is_limit o && ltb_ℤ (pos 0) o.remaining_quantity)) [
    | inl rests ↦ rw (rests, e, push_back-enqueue ieee Side.sell o b.sell_book (n (ground arith)) v)
    | inr gone ↦ rw gone
  ]

  -- The loop, as a sweep, and what it leaves of the order.
  record Sweeps (rules : Rules D) (order : Order D) (s : MatchState D) : Type 0 where
    swept : view (match_loop (rounds s.levels) rules s) ≡ sweep_view rules (view s)
    same_side : is_buy (match_loop (rounds s.levels) rules s).incoming ≡ is_buy order
    can_wait : CanWait (match_loop (rounds s.levels) rules s).incoming

  loop-Sweeps :
      (rules : Rules D) (side : Side) (order : Order D) (s : MatchState D)
      → s.incoming ≡ order
      → IsIncoming ieee order
      → IsSide ieee side s.levels
      → Sweeps rules order s
  loop-Sweeps rules side order s e i v =
      let whole : IsPart order order = record { only = refl; fewer = le_refl _; live = i.live } in
      let part =
        (match_loop-Keeps ieee side rules order (rounds s.levels) s
          (record { is_side = v; is_part = subst (IsPart order) (sym e) whole })).is_part in
      record {
        swept = (match_loop_refines rules s (queue-Wants ieee side s.levels v).0).0;
        same_side = ap (λ o. is_buy o) part.only;
        can_wait =
            ground (arith, i.number, ap (λ o. o.price) part.only, ap (λ o. o.type) part.only);
      }

  -- The answer and the book, from what the loop leaves.
  abbrev after_buy : Queues D → View D → Told (Answer D) D
  after_buy q v =
      told (traded v.trades)
        (record { bids = wait Side.buy v.incoming q.bids; asks = v.queue; trade_log = v.trade_log })
        v.world

  abbrev after_sell : Queues D → View D → Told (Answer D) D
  after_sell q v =
      told (traded v.trades)
        (record {
          bids = v.queue;
          asks = wait Side.sell v.incoming q.asks;
          trade_log = v.trade_log;
        })
        v.world

  process-trade :
      (order : Order D) (b : OrderBook D) (w : World)
      → IsIncoming ieee order
      → IsBook ieee b
      → let a = process clock order b w in
        told (traded a.trades) (queues a.book) a.world ≡ trade clock order (queues b) w
  unfolding process match_order trade match_buy_order match_sell_order
  process-trade order b w i v = elim (Side-cases order.side) [
    | inl e ↦
        let bought : is_buy order ≡ true = ground arith in
        let s = match_start order b.sell_book b w in
        let sweeps = loop-Sweeps (buy_rules clock) Side.sell order s refl i v.asks in
        let left = match_buy_order clock s in
        rw bought (
          ap (λ q. told (traded left.trades) q left.world)
            (keep_bid _ _ (sweeps.same_side ∙ bought) sweeps.can_wait v.bids)
          ∙ ap (after_buy (queues b)) sweeps.swept)
    | inr e ↦
        let sold : is_buy order ≡ false = ground arith in
        let s = match_start order b.buy_book b w in
        let sweeps = loop-Sweeps (sell_rules clock) Side.buy order s refl i v.bids in
        let left = match_sell_order clock s in
        rw sold (
          ap (λ q. told (traded left.trades) q left.world)
            (keep_ask _ _ (sweeps.same_side ∙ sold) sweeps.can_wait v.asks)
          ∙ ap (after_sell (queues b)) sweeps.swept)
  ]

  pub cancel-withdraw :
      (id : ℕ) (b : OrderBook D) (w : World)
      → told (cancelled (cancel_order id b).0) (queues (cancel_order id b).1) w
        ≡ withdraw clock id (queues b) w
  unfolding cancel_order withdraw
  cancel-withdraw id b w =
      let on_bids = cancel_in-without id b.buy_book in
      let on_asks = cancel_in-without id b.sell_book in
      elim (Option-cases (cancel_in id b.buy_book)) [
        | inr (bids, e) ↦
            let found = on_bids ∙ ap (Option.map entries) e in rw (e, found, cancel_order, withdraw)
        | inl e ↦
            let missed = on_bids ∙ ap (Option.map entries) e in
            elim (Option-cases (cancel_in id b.sell_book)) [
              | inr (asks, f) ↦
                  let found = on_asks ∙ ap (Option.map entries) f in
                  rw (e, missed, f, found, cancel_order, withdraw)
              | inl f ↦
                  let gone = on_asks ∙ ap (Option.map entries) f in
                  rw (e, missed, f, gone, cancel_order, withdraw)
            ]
      ]

  pub call-promised :
      (c : Call D) (b : OrderBook D) (w : World)
      → IsAcceptable ieee c
      → IsBook ieee b
      → let after = call clock c (b, w) in
        told (answer clock c (b, w)) (queues after.0) after.1 ≡ promised clock c (queues b) w
  unfolding call promised answer add_order clear
  call-promised (adds order) b w i v =
      let (stamped, w') = stamp clock order w in
      process-trade stamped b w' (stamp-IsIncoming ieee clock order w i) v
  call-promised (cancels id) b w i v = cancel-withdraw id b w
  call-promised clears b w i v = refl

  -- From any book that satisfies the invariant, a history of calls with acceptable orders tells its
  -- clients the same trades and the same results of cancellations as the promise does, call by call;
  -- and in the end the sides, as queues, the log, the id counters and the clock are the same.
  pub observe-promise :
      (cs : List (Call D)) (b : OrderBook D) (w : World)
      → All (IsAcceptable ieee) cs
      → IsBook ieee b
      → observe clock cs (b, w) ≡ promise clock cs (queues b) w
  unfolding observe promise
  observe-promise [] b w h v = refl
  observe-promise (c ∷ cs) b w h v =
      let after = call clock c (b, w) in
      let rest = observe-promise cs after.0 after.1 h.1 (call-IsBook ieee clock c (b, w) h.0 v) in
      let first = call-promised c b w h.0 v in
      ap (λ t. told (answer clock c (b, w) ∷ t.answer) t.book t.world) rest
      ∙ ap
          (λ t.
            let r = promise clock cs t.book t.world in told (t.answer ∷ r.answer) r.book r.world)
          first
