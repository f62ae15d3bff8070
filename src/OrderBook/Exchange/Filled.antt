-- ===== src/OrderBook/Exchange/Filled.antt =====
-- `class OrderBook` (src/models/impl/OrderBook.cpp) fills its public interface.
use velocore.Base.{
  ℕ, ◌+◌, ◌≡◌, ◌≢◌, refl, sym, List, [], ◌∷◌, ◌++◌, arith, All, length, length-append, ◌&&◌, ◌||◌,
  false, if◌then◌else◌,
}
use velocore.Double.{Double, IsIeee}
use velocore.World.{World}
use velocore.Types.{Side}
use velocore.Order.{Order}
use velocore.OrderBook.Levels.{Level, at_price, entries, count_orders}
use velocore.OrderBook.Matching.Queue.{HasOrders}
use velocore.OrderBook.Engine.{
  OrderBook, empty_book, add_order, cancel_order, clear, adds, cancels, call,
}
use velocore.OrderBook.Engine.Sides.{queue-Wants}
use velocore.OrderBook.Engine.Valid.{IsBook, IsIncoming}
use velocore.OrderBook.Engine.History.{add_order-IsBook, cancel_order-IsBook, empty-IsBook}
use velocore.OrderBook.Abstract.{queues, answer, told, traded, cancelled, promised}
use velocore.OrderBook.Abstract.Refines.{call-promised, cancel-withdraw}
use velocore.OrderBook.Queries.{
  best_price, is_empty_side, get_best_bid, get_best_ask, get_spread, get_book_snapshot,
  get_trade_log, get_book_statistics, get_total_orders, is_empty, get_trade_count,
}
use velocore.OrderBook.Exchange.{Exchange, is_nil, head_price, spread_of, no_queues}
use velocore.OrderBook.Exchange.Priced.{Priced, add_order-Priced, cancel_order-Priced}
use velocore.OrderBook.Exchange.Client.{Use, IsFair, replies, promised_replies, replies-promised}

module _ {D : Type 0} where
  length-at_price : (p : D) (os : List (Order D)) → length (at_price p os) ≡ length os
  length-at_price p [] = refl
  length-at_price p (o ∷ os) = omega (arith, length-at_price p os)

  length-entries : (ls : List (Level D)) → count_orders ls ≡ length (entries ls)
  length-entries [] = refl
  length-entries (l ∷ ls) = omega (
    arith,
    length-append (at_price l.price l.orders) (entries ls),
    length-at_price l.price l.orders,
    length-entries ls,
  )

  is_nil-entries : (ls : List (Level D)) → All HasOrders ls → is_empty_side ls ≡ is_nil (entries ls)
  is_nil-entries [] h = refl
  is_nil-entries (l ∷ ls) h = first l.orders h.0
    where
      first :
          (os : List (Order D))
          → os ≢ []
          → is_empty_side (l ∷ ls) ≡ is_nil (at_price l.price os ++ entries ls)
      first [] k = absurd (k refl)
      first (o ∷ os) k = refl

module _ {D : Type 0} ⦃d : Double D⦄ where
  head_price-entries :
      (ls : List (Level D)) → All HasOrders ls → best_price ls ≡ head_price (entries ls)
  head_price-entries [] h = refl
  head_price-entries (l ∷ ls) h = first l.orders h.0
    where
      first :
          (os : List (Order D)) → os ≢ [] → l.price ≡ head_price (at_price l.price os ++ entries ls)
      first [] k = absurd (k refl)
      first (o ∷ os) k = refl

  module _ (ieee : IsIeee D) (clock : ℕ → ℕ) where
    bids-HasOrders : (b : OrderBook D) → IsBook ieee b → All HasOrders b.buy_book
    bids-HasOrders b v = (queue-Wants ieee Side.buy b.buy_book v.bids).0

    asks-HasOrders : (b : OrderBook D) → IsBook ieee b → All HasOrders b.sell_book
    asks-HasOrders b v = (queue-Wants ieee Side.sell b.sell_book v.asks).0

    pub best_bid-head_price :
        (b : OrderBook D) → IsBook ieee b → get_best_bid b ≡ head_price (queues b).bids
    unfolding get_best_bid
    best_bid-head_price b v = head_price-entries b.buy_book (bids-HasOrders b v)

    pub best_ask-head_price :
        (b : OrderBook D) → IsBook ieee b → get_best_ask b ≡ head_price (queues b).asks
    unfolding get_best_ask
    best_ask-head_price b v = head_price-entries b.sell_book (asks-HasOrders b v)

    abbrev IsNonzero : D → Type 0
    IsNonzero p = d.eq p d.nought ≡ false

    spread_of-no_asks : (queue : List (D × Order D)) → spread_of queue [] ≡ d.nought
    spread_of-no_asks [] = refl
    spread_of-no_asks (e ∷ queue) = refl

    spread_of-entries :
        (bids asks : List (Level D))
        → All HasOrders bids
        → All HasOrders asks
        → All (λ l. IsNonzero l.price) bids
        → All (λ l. IsNonzero l.price) asks
        → (if d.eq (best_price bids) d.nought || d.eq (best_price asks) d.nought
            then d.nought
            else d.sub (best_price asks) (best_price bids))
          ≡ spread_of (entries bids) (entries asks)
    spread_of-entries [] asks h k m n =
        ground (arith, ieee.nought_number, ieee.eq-eq-beq d.nought d.nought)
    spread_of-entries (bid ∷ bids) [] h k m n =
        rw (sym (spread_of-no_asks (entries (bid ∷ bids))))
          (ground (arith, ieee.nought_number, ieee.eq-eq-beq d.nought d.nought))
    spread_of-entries (bid ∷ bids) (ask ∷ asks) h k m n = both bid.orders ask.orders h.0 k.0
      where
        both :
            (os ps : List (Order D))
            → os ≢ []
            → ps ≢ []
            → (if d.eq bid.price d.nought || d.eq ask.price d.nought
                then d.nought
                else d.sub ask.price bid.price)
              ≡ spread_of
                  (at_price bid.price os ++ entries bids)
                  (at_price ask.price ps ++ entries asks)
        both [] ps h k = absurd (h refl)
        both (o ∷ os) [] h k = absurd (k refl)
        both (o ∷ os) (p ∷ ps) h k = rw (m.0, n.0) refl

    pub spread-spread_of :
        (b : OrderBook D)
        → IsBook ieee b
        → Priced IsNonzero b
        → get_spread b ≡ spread_of (queues b).bids (queues b).asks
    unfolding get_spread get_best_bid get_best_ask
    spread-spread_of b v priced =
        spread_of-entries b.buy_book b.sell_book (bids-HasOrders b v) (asks-HasOrders b v) priced.0
          priced.1

    pub total_orders-length :
        (b : OrderBook D) → get_total_orders b ≡ length (queues b).bids + length (queues b).asks
    unfolding get_total_orders
    total_orders-length b = omega (arith, length-entries b.buy_book, length-entries b.sell_book)

    pub empty-is_nil :
        (b : OrderBook D)
        → IsBook ieee b
        → is_empty b ≡ (is_nil (queues b).bids && is_nil (queues b).asks)
    unfolding is_empty
    empty-is_nil b v =
        rw
          (
            is_nil-entries b.buy_book (bids-HasOrders b v),
            is_nil-entries b.sell_book (asks-HasOrders b v),
          )
          refl

    pub add-promised :
        (o : Order D) (b : OrderBook D) (w : World)
        → IsIncoming ieee o
        → IsBook ieee b
        → let a = add_order clock o b w in
          told (traded a.trades) (queues a.book) a.world ≡ promised clock (adds o) (queues b) w
    unfolding call answer
    add-promised o b w h v = call-promised ieee clock (adds o) b w h v

    pub cancel-promised :
        (id : ℕ) (b : OrderBook D) (w : World)
        → let r = cancel_order id b in
          told (cancelled r.0) (queues r.1) w ≡ promised clock (cancels id) (queues b) w
    unfolding promised
    cancel-promised id b w = cancel-withdraw ieee clock id b w

    unfoldable pub order_book_exchange : Exchange ieee clock
    unfolding empty_book clear get_trade_log get_trade_count
    order_book_exchange = record {
      State = OrderBook D;
      IsValid = λ b. IsBook ieee b × Priced IsNonzero b;
      view = queues;
      new = empty_book;
      add_order = λ o b w. let a = add_order clock o b w in (a.trades, a.book, a.world);
      cancel_order = cancel_order;
      clear = clear;
      get_best_bid = get_best_bid;
      get_best_ask = get_best_ask;
      get_spread = get_spread;
      get_book_snapshot = get_book_snapshot;
      get_trade_log = get_trade_log;
      get_book_statistics = get_book_statistics;
      get_total_orders = get_total_orders;
      is_empty = is_empty;
      get_trade_count = get_trade_count;
      new-IsValid = (empty-IsBook ieee empty_book refl refl, (tt, tt));
      view-new = refl;
      add_order-IsValid = λ o b w h v. (
        add_order-IsBook ieee clock o b w h.0 v.0,
        add_order-Priced IsNonzero clock o b w h.1 v.1,
      );
      add_order-promised = λ o b w h v. add-promised o b w h.0 v.0;
      cancel_order-IsValid =
          λ id b v. (cancel_order-IsBook ieee id b v.0, cancel_order-Priced IsNonzero id b v.1);
      cancel_order-promised = λ id b w. cancel-promised id b w;
      clear-IsValid = λ b. (empty-IsBook ieee (clear b) refl refl, (tt, tt));
      view-clear = λ b. refl;
      get_best_bid-head_price = λ b v. best_bid-head_price b v.0;
      get_best_ask-head_price = λ b v. best_ask-head_price b v.0;
      get_spread-spread_of = λ b v. spread-spread_of b v.0 v.1;
      get_trade_log-log = λ b. refl;
      get_total_orders-length = λ b. total_orders-length b;
      is_empty-is_nil = λ b v. empty-is_nil b v.0;
      get_trade_count-length = λ b. refl;
    }

    -- From a new book on, any history of `addOrder`, `cancelOrder` and `clear`, and of the methods that
    -- read the best prices, the spread, the trades, the number of orders and of trades and the
    -- emptiness, in any order, gets the replies that two queues in price-time priority and one log
    -- give. The spread is the best ask less the best bid, or 0.0 if a side is empty. The orders are
    -- acceptable, and no limit order is at the price 0.0.
    pub order_book_exchange-replies :
        (us : List (Use D)) (w : World)
        → let e = order_book_exchange in
          All (IsFair e) us → replies e us e.new w ≡ promised_replies clock us no_queues w
    order_book_exchange-replies us w h = replies-promised order_book_exchange us w h
