-- ===== src/Service/Books.antt =====
-- What the handlers of src/main.cpp keep true of the state: the book's invariant, and the agreement of
-- the statistics with the trade log.
use velocore.Base.{
  ℕ, ◌≡◌, refl, sym, ap, ◌∙◌, false, List, [], ◌∷◌, ◌++◌, String, ok, ℤ, pos, ◌+ℤ◌, wrap32,
  wrap32-add, wrap32-IsInt, wrap32-eq_self, pos-add, sum, length, length-append, arith, inl, inr,
}
use velocore.Double.{Double, IsIeee}
use velocore.World.{World}
use velocore.Json.{Reader}
use velocore.Order.{Order}
use velocore.Tick.{MarketTick}
use velocore.Trade.{Trade, no_trades, update_all}
use velocore.Trade.Totals.{quantities, sum-quantities_append, update_all_totals}
use velocore.OrderBook.Engine.{OrderBook, empty_book, add_order, cancel_order}
use velocore.OrderBook.Engine.Valid.{IsBook, IsIncoming}
use velocore.OrderBook.Engine.History.{add_order-IsBook, cancel_order-IsBook, empty-IsBook}
use velocore.OrderBook.Engine.Trades.{add_order-Reported}
use velocore.Service.{Service, to_uint64}
use velocore.Service.Orders.{submit, post_orders, cancel_route}
use velocore.Service.Accepted.{IsAccepted, accept-number, post_orders_cases}
use velocore.Service.Ticks.{on_market_tick}

-- What comes in from clients and from the market data feed.
pub data Event (D : Type 0) : Type 0 where
  order_posted : String → Event D
  cancel_posted : ℤ → Event D
  tick_came : MarketTick D → Event D

module _ {D : Type 0} ⦃d : Double D⦄ where
  -- The state in which `main` begins.
  unfoldable pub initial : World → Service D
  unfolding empty_book no_trades
  initial w = record { order_book = empty_book; stats = no_trades; latest_ticks = []; world = w }

  abbrev log_quantities : OrderBook D → List ℤ
  log_quantities b = quantities b.trade_log

  -- The two `int` counters of the statistics hold the number and the volume of the trades in the log.
  abbrev pub Counted : Service D → Type 0
  Counted s =
      (s.stats.total_trades ≡ wrap32 (pos (length s.order_book.trade_log)))
      × (s.stats.total_volume ≡ wrap32 (sum (log_quantities s.order_book)))

module _ {J D : Type 0} ⦃d : Double D⦄ (r : Reader J D) (clock : ℕ → ℕ) where
  unfoldable pub handle : Event D → Service D → Service D
  unfolding post_orders cancel_route on_market_tick
  handle (order_posted body) s = (post_orders r clock body s).0
  handle (cancel_posted id) s = (cancel_route id s).0
  handle (tick_came tick) s = on_market_tick tick s

  unfoldable pub serve : List (Event D) → Service D → Service D
  serve [] s = s
  serve (e ∷ es) s = serve es (handle e s)

module _ {D : Type 0} ⦃d : Double D⦄ (ieee : IsIeee D) where
  open ieee use {is_nan}

  abbrev pub IsService : Service D → Type 0
  IsService s = IsBook ieee s.order_book × Counted s

  -- Adding trades to the log and to the statistics keeps the two in agreement.
  update_all-Counted :
      (s : Service D) (trades : List (Trade D)) (b : OrderBook D) (w : World)
      → b.trade_log ≡ s.order_book.trade_log ++ trades
      → Counted s
      → Counted (record s { order_book = b; stats = update_all s.stats trades; world = w })
  update_all-Counted s trades b w e (count, volume) =
      let totals =
        update_all_totals s.stats trades (rw count (wrap32-IsInt _)) (rw volume (wrap32-IsInt _)) in
      let log = s.order_book.trade_log in
      (
        totals.0
            ∙ ap (λ t. wrap32 (t +ℤ pos (length trades))) count
            ∙ wrap32-add (pos (length log)) (pos (length trades))
            ∙ ap wrap32 (pos-add (length log) (length trades))
            ∙ ap (λ n. wrap32 (pos n)) (sym (length-append log trades))
            ∙ ap (λ l. wrap32 (pos (length l))) (sym e),
        totals.1
            ∙ ap (λ t. wrap32 (t +ℤ sum (quantities trades))) volume
            ∙ wrap32-add (sum (quantities log)) (sum (quantities trades))
            ∙ ap wrap32 (sym (sum-quantities_append log trades))
            ∙ ap (λ l. wrap32 (sum (quantities l))) (sym e),
      )

  accepted-IsIncoming : (o : Order D) → IsAccepted o → is_nan o.price ≡ false → IsIncoming ieee o
  accepted-IsIncoming o a n = record { number = λ e. n; live = λ h. inl (a.active, a.whole) }

  pub initial-IsService : (w : World) → IsService (initial w)
  unfolding initial empty_book no_trades
  initial-IsService w =
      let zero_kept : pos 0 ≡ wrap32 (pos 0) = sym (wrap32-eq_self (pos 0) (omega arith)) in
      (empty-IsBook ieee empty_book refl refl, (zero_kept, zero_kept))

  module _ {J : Type 0} (r : Reader J D) (clock : ℕ → ℕ)
      (reads : (j : J) (x : D) → r.as_double j ≡ ok x → is_nan x ≡ false) where
    submit-IsBook :
        (o : Order D) (w : World) (s : Service D)
        → IsIncoming ieee o
        → IsBook ieee s.order_book
        → IsBook ieee (submit clock o w s).0.order_book
    unfolding submit
    submit-IsBook o w s i v = add_order-IsBook ieee clock o s.order_book w i v

    submit-IsService :
        (o : Order D) (w : World) (s : Service D)
        → IsIncoming ieee o
        → IsService s
        → IsService (submit clock o w s).0
    unfolding submit
    submit-IsService o w s i (v, counted) =
        let added = add_order clock o s.order_book w in
        (
          submit-IsBook o w s i v,
          update_all-Counted s added.trades added.book added.world
              (add_order-Reported ieee clock o s.order_book w v).2 counted,
        )

    cancel_order-log : (id : ℕ) (b : OrderBook D) → (cancel_order id b).1.trade_log ≡ b.trade_log
    unfolding cancel_order
    cancel_order-log id b = ground arith

    -- A posted order keeps what submitting an acceptable order does.
    post_orders-keeps {κ} :
        (P : Service D → Type κ) (body : String) (s : Service D)
        → ((o : Order D) (w : World) → IsIncoming ieee o → P (submit clock o w s).0)
        → P s
        → P (post_orders r clock body s).0
    post_orders-keeps P body s submitted v = elim (post_orders_cases r clock body s) [
      | inl (code, same) ↦ rw same v
      | inr (code, (parsed, o, w, e, f, a, same)) ↦ rw same (
          submitted o w
            (accepted-IsIncoming o a (accept-number r clock is_nan reads parsed s.world w o f)))
    ]

    pub handle-IsBook :
        (e : Event D) (s : Service D)
        → IsBook ieee s.order_book
        → IsBook ieee (handle r clock e s).order_book
    unfolding handle
    handle-IsBook (order_posted body) s v =
        post_orders-keeps (λ t. IsBook ieee t.order_book) body s (λ o w i. submit-IsBook o w s i v)
          v
    handle-IsBook (cancel_posted id) s v = cancel_order-IsBook ieee (to_uint64 id) s.order_book v
    handle-IsBook (tick_came tick) s v = v

    pub handle-IsService :
        (e : Event D) (s : Service D) → IsService s → IsService (handle r clock e s)
    unfolding handle
    handle-IsService (order_posted body) s v =
        post_orders-keeps IsService body s (λ o w i. submit-IsService o w s i v) v
    handle-IsService (cancel_posted id) s v = (
      handle-IsBook (cancel_posted id) s v.0,
      rw (cancel_order-log (to_uint64 id) s.order_book) v.1,
    )
    handle-IsService (tick_came tick) s v = v

    serve-IsService_from :
        (es : List (Event D)) (s : Service D) → IsService s → IsService (serve r clock es s)
    unfolding serve
    serve-IsService_from [] s v = v
    serve-IsService_from (e ∷ es) s v =
        serve-IsService_from es (handle r clock e s) (handle-IsService e s v)

    -- After any sequence of posted orders, cancellations and ticks, whatever their contents, the book
    -- satisfies its invariant, and the counters of the statistics hold the number and the volume of
    -- the trades in the log, reduced to the range of an `int`. The numbers that the JSON reader gives
    -- are numbers.
    pub serve-IsService :
        (es : List (Event D)) (w : World) → IsService (serve r clock es (initial w))
    serve-IsService es w = serve-IsService_from es (initial w) (initial-IsService w)
