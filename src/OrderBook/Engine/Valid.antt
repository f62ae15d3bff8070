-- ===== src/OrderBook/Engine/Valid.antt =====
-- The invariant of the order book (src/models/impl/OrderBook.cpp): both sides are in order, and the
-- best bid is below the best ask. Every operation keeps it.
use velocore.Base.{
  ℕ, ◌<◌, ◌≡◌, refl, sym, ap, ◌∙◌, inl, inr, true, false, ◌&&◌, List, ◌∷◌, none, arith, pos, ◌<ℤ◌,
  ltb_ℤ, All, All-imp, All-zip, Bool-cases, subst,
}
use native.Mathlib.Nat.{le_refl}
use velocore.Double.{Double, IsIeee}
use velocore.World.{World}
use velocore.Types.{Side, OrderType}
use velocore.Order.{Order, is_buy, is_limit, is_market}
use velocore.Order.Priority.{Better}
use velocore.OrderBook.Levels.{Level}
use velocore.OrderBook.Levels.Valid.{
  IsResting, IsSide, IsSorted, IsLive, Better-trans, push_back-IsSide, push_back-prices,
}
use velocore.OrderBook.Matching.{
  MatchState, Rules, prices_cross, buy_rules, sell_rules, match_loop, match_buy_order,
  match_sell_order, rounds, round,
}
use velocore.OrderBook.Matching.Rounds.{match_loop_terminates, stopped}
use velocore.OrderBook.Matching.Keeps.{IsPart, match_loop-Keeps, match_loop-prices}
use velocore.OrderBook.Engine.{OrderBook, match_start, add_to_book, keep_rest}

module _ {D : Type 0} ⦃d : Double D⦄ (ieee : IsIeee D) where
  open ieee use {is_nan, rank, le-eq-leb}

  -- What a client hands in: a limit price is a number, and an order that wants anything is live.
  pub record IsIncoming (o : Order D) : Type 0 where
    pub number : o.type ≡ OrderType.limit → is_nan o.price ≡ false
    pub live : pos 0 <ℤ o.remaining_quantity → IsLive o

  abbrev pub Apart : List (Level D) → List (Level D) → Type 0
  Apart bids asks = All (λ bid. All (λ ask. rank bid.price < rank ask.price) asks) bids

  pub record IsBook (b : OrderBook D) : Type 0 where
    pub bids : IsSide ieee Side.buy b.buy_book
    pub asks : IsSide ieee Side.sell b.sell_book
    pub apart : Apart b.buy_book b.sell_book

  -- A price before the best level of a side is before all of them.
  pub before_each :
      (side : Side) (p : D) (l : Level D) (ls : List (Level D))
      → Better ieee side p l.price
      → IsSorted ieee side (l ∷ ls)
      → All (λ m. Better ieee side p m.price) (l ∷ ls)
  before_each side p l ls h k =
      (h, All-imp _ _ ls (λ m. Better-trans ieee side p l.price m.price h) k.0)

  -- What the loop leaves.
  pub record IsFinished (side : Side) (order : Order D) (s : MatchState D) : Type 0 where
    pub is_side : IsSide ieee side s.levels
    pub is_part : IsPart order s.incoming
    pub beyond :
        order.type ≡ OrderType.limit
        → pos 0 <ℤ s.incoming.remaining_quantity
        → All (λ l. Better ieee side s.incoming.price l.price) s.levels

  part_number :
      (order o : Order D)
      → IsIncoming order
      → IsPart order o
      → order.type ≡ OrderType.limit
      → is_nan o.price ≡ false
  part_number order o h part limited =
      subst (λ p. is_nan p ≡ false) (ap (λ o. o.price) (sym part.only)) (h.number limited)

  module _ (side : Side) (rules : Rules D) where
    -- The loop stops at a price of the other side exactly when the incoming one is before it.
    abbrev pub Stops : Type 0
    Stops =
        (p q : D)
        → is_nan p ≡ false
        → is_nan q ≡ false
        → rules.crosses p q ≡ false
        → Better ieee side p q

    stopped-beyond :
        (order : Order D) (s : MatchState D)
        → Stops
        → IsIncoming order
        → order.type ≡ OrderType.limit
        → IsPart order s.incoming
        → IsSide ieee side s.levels
        → pos 0 <ℤ s.incoming.remaining_quantity
        → round rules s ≡ none
        → All (λ l. Better ieee side s.incoming.price l.price) s.levels
    stopped-beyond order s stops h limited part k wants done =
        elim (stopped rules s (All-imp _ _ s.levels (λ l v. v.has_orders) k.0) not_market wants
          done) [
            | inl e ↦ rw e tt
            | inr (l, worse, e, apart) ↦
                let here = subst (IsSide ieee side) e k in
                let better =
                  stops s.incoming.price l.price (part_number order s.incoming h part limited)
                    here.0.0.number apart in
                subst (All λ l. Better ieee side s.incoming.price l.price) (sym e)
                  (before_each side s.incoming.price l worse better here.1)
          ]
      where
        not_market : is_market s.incoming ≡ false
        not_market = ground (arith, ap (λ o. o.type) part.only)

    pub match_loop-IsFinished :
        (s : MatchState D)
        → Stops
        → IsIncoming s.incoming
        → IsSide ieee side s.levels
        → IsFinished side s.incoming (match_loop (rounds s.levels) rules s)
    match_loop-IsFinished s stops h k =
        let whole : IsPart s.incoming s.incoming = record {
          only = refl;
          fewer = le_refl _;
          live = h.live;
        } in
        let kept =
          match_loop-Keeps ieee side rules s.incoming (rounds s.levels) s
            (record { is_side = k; is_part = whole }) in
        record {
          is_side = kept.is_side;
          is_part = kept.is_part;
          beyond = λ limited wants.
              stopped-beyond s.incoming _ stops h limited kept.is_part kept.is_side wants
                (match_loop_terminates rules s (rounds s.levels) (le_refl _)).0;
        }

  pub buy-Stops : (clock : ℕ → ℕ) → Stops Side.sell (buy_rules clock)
  unfolding prices_cross
  buy-Stops clock p q h k e = ground (arith, le-eq-leb q p)

  pub sell-Stops : (clock : ℕ → ℕ) → Stops Side.buy (sell_rules clock)
  unfolding prices_cross
  sell-Stops clock p q h k e = ground (arith, le-eq-leb p q)

  -- What is left of an incoming limit order can rest at its price.
  part-IsResting :
      (side : Side) (order o : Order D)
      → IsIncoming order
      → IsPart order o
      → order.side ≡ side
      → order.type ≡ OrderType.limit
      → pos 0 <ℤ o.remaining_quantity
      → IsResting ieee side o.price o
  part-IsResting side order o h part e limited wants = record {
    same_side = ap (λ o. o.side) part.only ∙ e;
    is_limit_order = ap (λ o. o.type) part.only ∙ limited;
    number = part_number order o h part limited;
    same_price = refl;
    wanted = wants;
    live = part.live wants;
  }

  -- The remaining quantity goes to the right place: `book` is the book after the loop.
  keep_rest-IsBook :
      (order o : Order D) (book : OrderBook D)
      → IsIncoming order
      → IsPart order o
      → IsBook book
      → (order.type ≡ OrderType.limit → pos 0 <ℤ o.remaining_quantity → IsBook (add_to_book o book))
      → IsBook (keep_rest o book)
  unfolding keep_rest
  keep_rest-IsBook order o book h part b added =
      elim (Bool-cases (is_limit o && ltb_ℤ (pos 0) o.remaining_quantity)) [
        | inl rests ↦ rw rests (added (ground (arith, ap (λ o. o.type) part.only)) (ground arith))
        | inr gone ↦ rw gone b
      ]

  add_bid-IsBook :
      (o : Order D) (b : OrderBook D)
      → IsResting ieee Side.buy o.price o
      → IsBook b
      → All (λ ask. rank o.price < rank ask.price) b.sell_book
      → IsBook (add_to_book o b)
  unfolding add_to_book
  add_bid-IsBook o b h v below =
      let bought : is_buy o ≡ true = ground (arith, h.same_side) in
      rw bought (record {
        bids = push_back-IsSide ieee Side.buy o b.buy_book h v.bids;
        asks = v.asks;
        apart =
            push_back-prices (λ p. All (λ ask. rank p < rank ask.price) b.sell_book) Side.buy
              o.price o b.buy_book below v.apart;
      })

  add_ask-IsBook :
      (o : Order D) (b : OrderBook D)
      → IsResting ieee Side.sell o.price o
      → IsBook b
      → All (λ bid. rank bid.price < rank o.price) b.buy_book
      → IsBook (add_to_book o b)
  unfolding add_to_book
  add_ask-IsBook o b h v above =
      let sold : is_buy o ≡ false = ground (arith, h.same_side) in
      rw sold (record {
        bids = v.bids;
        asks = push_back-IsSide ieee Side.sell o b.sell_book h v.asks;
        apart =
            All-zip _ _ _ b.buy_book
              (λ bid.
                push_back-prices (λ q. rank bid.price < rank q) Side.sell o.price o b.sell_book)
              above v.apart;
      })

  pub buy_order-IsBook :
      (clock : ℕ → ℕ) (order : Order D) (b : OrderBook D) (w : World)
      → order.side ≡ Side.buy
      → IsIncoming order
      → IsBook b
      → let s = match_buy_order clock (match_start order b.sell_book b w) in
        IsBook (keep_rest s.incoming (record b { sell_book = s.levels; trade_log = s.trade_log }))
  unfolding match_buy_order
  buy_order-IsBook clock order b w e h v =
      let rules = buy_rules clock in
      let s = match_loop (rounds b.sell_book) rules (match_start order b.sell_book b w) in
      let fin =
        match_loop-IsFinished Side.sell rules (match_start order b.sell_book b w) (buy-Stops clock)
          h v.asks in
      let apart : Apart b.buy_book s.levels =
        All-imp _ _ b.buy_book
          (λ bid. match_loop-prices rules (λ q. rank bid.price < rank q) (rounds b.sell_book) _)
          v.apart in
      keep_rest-IsBook order s.incoming _ h fin.is_part
        (record { bids = v.bids; asks = fin.is_side; apart = apart })
        λ limited wants.
          add_bid-IsBook s.incoming _
            (part-IsResting Side.buy order s.incoming h fin.is_part e limited wants)
            (record { bids = v.bids; asks = fin.is_side; apart = apart }) (fin.beyond limited wants)

  pub sell_order-IsBook :
      (clock : ℕ → ℕ) (order : Order D) (b : OrderBook D) (w : World)
      → order.side ≡ Side.sell
      → IsIncoming order
      → IsBook b
      → let s = match_sell_order clock (match_start order b.buy_book b w) in
        IsBook (keep_rest s.incoming (record b { buy_book = s.levels; trade_log = s.trade_log }))
  unfolding match_sell_order
  sell_order-IsBook clock order b w e h v =
      let rules = sell_rules clock in
      let s = match_loop (rounds b.buy_book) rules (match_start order b.buy_book b w) in
      let fin =
        match_loop-IsFinished Side.buy rules (match_start order b.buy_book b w) (sell-Stops clock) h
          v.bids in
      let matched : IsBook (record b { buy_book = s.levels; trade_log = s.trade_log }) = record {
        bids = fin.is_side;
        asks = v.asks;
        apart =
            match_loop-prices rules (λ p. All (λ ask. rank p < rank ask.price) b.sell_book)
              (rounds b.buy_book) (match_start order b.buy_book b w) v.apart;
      } in
      keep_rest-IsBook order s.incoming _ h fin.is_part matched λ limited wants.
        add_ask-IsBook s.incoming _
          (part-IsResting Side.sell order s.incoming h fin.is_part e limited wants) matched
          (fin.beyond limited wants)
