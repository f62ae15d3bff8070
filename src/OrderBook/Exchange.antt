-- ===== src/OrderBook/Exchange.antt =====
-- The public interface of `class OrderBook` (src/models/include/OrderBook.h): its methods, and what
-- their comments promise, in terms of the two queues and the log; for the spread this takes prices other
-- than 0.0.
pub mod Priced
pub mod Client
pub mod Filled
use velocore.Base.{ℕ, ◌+◌, ◌≡◌, Bool, true, false, ◌&&◌, ◌||◌, List, [], ◌∷◌, length, if◌then◌else◌}
use velocore.Double.{Double, IsIeee}
use velocore.World.{World}
use velocore.Types.{OrderType}
use velocore.Order.{Order}
use velocore.Trade.{Trade}
use velocore.Json.{Json}
use velocore.OrderBook.Engine.{adds, cancels}
use velocore.OrderBook.Engine.Valid.{IsIncoming}
use velocore.OrderBook.Abstract.{Queues, traded, cancelled, told, promised}

abbrev pub is_nil {ℓ} : {A : Type ℓ} → List A → Bool
is_nil [] = true
is_nil (x ∷ xs) = false

module _ {D : Type 0} where
  -- A book with no orders and no trades.
  abbrev pub no_queues : Queues D
  no_queues = record { bids = []; asks = []; trade_log = [] }

module _ {D : Type 0} ⦃d : Double D⦄ where
  -- The price of the first order of a queue, or 0.0.
  abbrev pub head_price : List (D × Order D) → D
  head_price [] = d.nought
  head_price (e ∷ queue) = e.0

  -- The best ask less the best bid, or 0.0 if a side is empty.
  abbrev pub spread_of : List (D × Order D) → List (D × Order D) → D
  spread_of [] asks = d.nought
  spread_of (bid ∷ bids) [] = d.nought
  spread_of (bid ∷ bids) (ask ∷ asks) = d.sub ask.0 bid.0

  -- An acceptable order that is, if it is a limit order, not at the price 0.0: `getSpread` takes a best
  -- price of 0.0 for that of an empty side.
  abbrev pub IsOffer : IsIeee D → Order D → Type 0
  IsOffer ieee o = IsIncoming ieee o × (o.type ≡ OrderType.limit → d.eq o.price d.nought ≡ false)

  -- A state with the methods of the class. `IsValid` is what the methods keep, and `view` what the
  -- clients see; how the orders lie in price levels is not part of it, so that the two methods that
  -- print the levels have no law here.
  pub record Exchange (ieee : IsIeee D) (clock : ℕ → ℕ) : Type 1 where
    pub State : Type 0
    pub IsValid : State → Type 0
    pub view : State → Queues D
    pub new : State
    pub add_order : Order D → State → World → List (Trade D) × State × World
    pub cancel_order : ℕ → State → Bool × State
    pub clear : State → State
    pub get_best_bid : State → D
    pub get_best_ask : State → D
    pub get_spread : State → D
    pub get_book_snapshot : ℕ → State → Json D
    pub get_trade_log : State → List (Trade D)
    pub get_book_statistics : State → Json D
    pub get_total_orders : State → ℕ
    pub is_empty : State → Bool
    pub get_trade_count : State → ℕ
    pub new-IsValid : IsValid new
    pub view-new : view new ≡ no_queues
    pub add_order-IsValid :
        (o : Order D) (s : State) (w : World)
        → IsOffer ieee o
        → IsValid s
        → IsValid (add_order o s w).1
    pub add_order-promised :
        (o : Order D) (s : State) (w : World)
        → IsOffer ieee o
        → IsValid s
        → let r = add_order o s w in
          told (traded r.0) (view r.1) r.2 ≡ promised clock (adds o) (view s) w
    pub cancel_order-IsValid : (id : ℕ) (s : State) → IsValid s → IsValid (cancel_order id s).1
    pub cancel_order-promised :
        (id : ℕ) (s : State) (w : World)
        → let r = cancel_order id s in
          told (cancelled r.0) (view r.1) w ≡ promised clock (cancels id) (view s) w
    pub clear-IsValid : (s : State) → IsValid (clear s)
    pub view-clear : (s : State) → view (clear s) ≡ no_queues
    pub get_best_bid-head_price :
        (s : State) → IsValid s → get_best_bid s ≡ head_price (view s).bids
    pub get_best_ask-head_price :
        (s : State) → IsValid s → get_best_ask s ≡ head_price (view s).asks
    pub get_spread-spread_of :
        (s : State) → IsValid s → get_spread s ≡ spread_of (view s).bids (view s).asks
    pub get_trade_log-log : (s : State) → get_trade_log s ≡ (view s).trade_log
    pub get_total_orders-length :
        (s : State) → get_total_orders s ≡ length (view s).bids + length (view s).asks
    pub is_empty-is_nil :
        (s : State) → IsValid s → is_empty s ≡ (is_nil (view s).bids && is_nil (view s).asks)
    pub get_trade_count-length : (s : State) → get_trade_count s ≡ length (view s).trade_log
