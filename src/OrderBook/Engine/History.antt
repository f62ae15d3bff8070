-- ===== src/OrderBook/Engine/History.antt =====
-- Every history of calls on the order book (src/models/impl/OrderBook.cpp) keeps its invariant.
use velocore.Base.{
  ℕ, ◌<◌, ◌≡◌, refl, ◌⊎◌, inl, inr, true, false, List, [], ◌∷◌, arith, All, All-imp, Option-cases,
  Bool-cases, ◌==◌,
}
use velocore.Double.{Double, IsIeee}
use velocore.World.{World}
use velocore.Types.{Side}
use velocore.Order.{Order, is_buy}
use velocore.OrderBook.Levels.{cancel_in}
use velocore.OrderBook.Levels.Removal.{cancel_in-IsSide, cancel_in-prices}
use velocore.OrderBook.Engine.{
  OrderBook, empty_book, stamp, match_order, after_match, process, add_order, keep_rest,
  cancel_order, clear, Call, adds, cancels, clears, call, run,
}
use velocore.OrderBook.Engine.Valid.{IsIncoming, IsBook, buy_order-IsBook, sell_order-IsBook}

pub Side-cases : (s : Side) → (s ≡ Side.buy) ⊎ (s ≡ Side.sell)
Side-cases Side.buy = inl refl
Side-cases Side.sell = inr refl

module _ {D : Type 0} ⦃d : Double D⦄ (ieee : IsIeee D) where
  open ieee use {rank}

  matched-IsBook :
      (clock : ℕ → ℕ) (order : Order D) (b : OrderBook D) (w : World)
      → IsIncoming ieee order
      → IsBook ieee b
      → let s = match_order clock order b w in
        IsBook ieee (keep_rest s.incoming (after_match order s b))
  unfolding process match_order
  matched-IsBook clock order b w h v = elim (Side-cases order.side) [
    | inl e ↦
        let bought : is_buy order ≡ true = ground arith in
        rw bought (buy_order-IsBook ieee clock order b w e h v)
    | inr e ↦
        let sold : is_buy order ≡ false = ground arith in
        rw sold (sell_order-IsBook ieee clock order b w e h v)
  ]

  pub stamp-IsIncoming :
      (clock : ℕ → ℕ) (order : Order D) (w : World)
      → IsIncoming ieee order
      → IsIncoming ieee (stamp clock order w).0
  unfolding stamp
  stamp-IsIncoming clock order w h = elim (Bool-cases (order.timestamp == 0)) [
    | inl e ↦ rw e (record { number = h.number; live = h.live })
    | inr e ↦ rw e h
  ]

  pub add_order-IsBook :
      (clock : ℕ → ℕ) (order : Order D) (b : OrderBook D) (w : World)
      → IsIncoming ieee order
      → IsBook ieee b
      → IsBook ieee (add_order clock order b w).book
  unfolding add_order
  add_order-IsBook clock order b w h v =
      let (stamped, w') = stamp clock order w in
      matched-IsBook clock stamped b w' (stamp-IsIncoming clock order w h) v

  pub cancel_order-IsBook :
      (id : ℕ) (b : OrderBook D) → IsBook ieee b → IsBook ieee (cancel_order id b).1
  unfolding cancel_order
  cancel_order-IsBook id b v = elim (Option-cases (cancel_in id b.buy_book)) [
    | inr (bids, e) ↦
        rw (e, cancel_order)
          (record {
            bids = cancel_in-IsSide ieee Side.buy id b.buy_book bids e v.bids;
            asks = v.asks;
            apart =
                cancel_in-prices (λ p. All (λ ask. rank p < rank ask.price) b.sell_book) id
                  b.buy_book bids e v.apart;
          })
    | inl e ↦ elim (Option-cases (cancel_in id b.sell_book)) [
      | inr (asks, f) ↦
          rw (e, f, cancel_order)
            (record {
              bids = v.bids;
              asks = cancel_in-IsSide ieee Side.sell id b.sell_book asks f v.asks;
              apart =
                  All-imp _ _ b.buy_book
                    (λ bid. cancel_in-prices (λ q. rank bid.price < rank q) id b.sell_book asks f)
                    v.apart;
            })
      | inl f ↦ rw (e, f, cancel_order) v
    ]
  ]

  pub empty-IsBook : (b : OrderBook D) → b.buy_book ≡ [] → b.sell_book ≡ [] → IsBook ieee b
  empty-IsBook b e f = record { bids = rw e (tt, tt); asks = rw f (tt, tt); apart = rw e tt }

  -- A call whose order, if it has one, is acceptable.
  abbrev pub IsAcceptable : Call D → Type 0
  IsAcceptable (adds order) = IsIncoming ieee order
  IsAcceptable (cancels id) = Unit
  IsAcceptable clears = Unit

  pub call-IsBook :
      (clock : ℕ → ℕ) (c : Call D) (state : OrderBook D × World)
      → IsAcceptable c
      → IsBook ieee state.0
      → IsBook ieee (call clock c state).0
  unfolding call clear
  call-IsBook clock (adds order) (b, w) h v = add_order-IsBook clock order b w h v
  call-IsBook clock (cancels id) (b, w) h v = cancel_order-IsBook id b v
  call-IsBook clock clears (b, w) h v = empty-IsBook _ refl refl

  run-call-IsBook :
      (clock : ℕ → ℕ) (cs : List (Call D)) (state : OrderBook D × World)
      → All IsAcceptable cs
      → IsBook ieee state.0
      → IsBook ieee (run clock cs state).0
  unfolding run
  run-call-IsBook clock [] state h v = v
  run-call-IsBook clock (c ∷ cs) state h v =
      run-call-IsBook clock cs (call clock c state) h.1 (call-IsBook clock c state h.0 v)

  -- After any history of calls from the empty book, with any orders whose limit prices are numbers
  -- and which are live as long as they want anything: the bids stand in strictly falling and the
  -- asks in strictly rising order of price; no level is empty, and each holds only live limit orders
  -- of its side and price that want more; and every bid is below every ask.
  pub run-IsBook :
      (clock : ℕ → ℕ) (cs : List (Call D)) (w : World)
      → All IsAcceptable cs
      → IsBook ieee (run clock cs (empty_book, w)).0
  unfolding empty_book
  run-IsBook clock cs w h = run-call-IsBook clock cs (empty_book, w) h (empty-IsBook _ refl refl)
