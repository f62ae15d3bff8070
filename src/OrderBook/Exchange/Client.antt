-- ===== src/OrderBook/Exchange/Client.antt =====
-- What a client of any implementation of the interface of `class OrderBook`
-- (src/models/include/OrderBook.h) is told.
use velocore.Base.{ℕ, ◌≡◌, refl, ap, ◌∙◌, Bool, ◌&&◌, ◌+◌, List, [], ◌∷◌, All, length}
use velocore.Double.{Double, IsIeee}
use velocore.World.{World}
use velocore.Trade.{Trade}
use velocore.OrderBook.Engine.{Call, adds, cancels, clears}
use velocore.OrderBook.Abstract.{Queues, Answer, traded, cancelled, cleared, told, promised}
use velocore.OrderBook.Exchange.{Exchange, no_queues, is_nil, head_price, spread_of, IsOffer}

-- The methods that only read.
pub data Question : Type 0 where
  best_bid : Question
  best_ask : Question
  spread : Question
  trades_so_far : Question
  total_orders : Question
  emptiness : Question
  trade_count : Question

pub data Reply (D : Type 0) : Type 0 where
  price : D → Reply D
  trades : List (Trade D) → Reply D
  count : ℕ → Reply D
  truth : Bool → Reply D
  done : Answer D → Reply D

-- One use of the book.
pub data Use (D : Type 0) : Type 0 where
  does : Call D → Use D
  asks : Question → Use D

module _ {D : Type 0} ⦃d : Double D⦄ where
  -- The reply to a question, from the two queues and the log.
  unfoldable pub reply : Question → Queues D → Reply D
  reply best_bid q = price (head_price q.bids)
  reply best_ask q = price (head_price q.asks)
  reply spread q = price (spread_of q.bids q.asks)
  reply trades_so_far q = trades q.trade_log
  reply total_orders q = count (length q.bids + length q.asks)
  reply emptiness q = truth (is_nil q.bids && is_nil q.asks)
  reply trade_count q = count (length q.trade_log)

  -- All the replies of a history, as the two queues and the log give them.
  unfoldable pub promised_replies : (ℕ → ℕ) → List (Use D) → Queues D → World → List (Reply D)
  promised_replies clock [] q w = []
  promised_replies clock (does c ∷ us) q w =
      let r = promised clock c q w in done r.answer ∷ promised_replies clock us r.book r.world
  promised_replies clock (asks k ∷ us) q w = reply k q ∷ promised_replies clock us q w

  module _ {ieee : IsIeee D} {clock : ℕ → ℕ} (e : Exchange ieee clock) where
    -- The reply of the implementation to a question, and what it does on a call.
    abbrev pub asked : Question → e.State → Reply D
    asked best_bid s = price (e.get_best_bid s)
    asked best_ask s = price (e.get_best_ask s)
    asked spread s = price (e.get_spread s)
    asked trades_so_far s = trades (e.get_trade_log s)
    asked total_orders s = count (e.get_total_orders s)
    asked emptiness s = truth (e.is_empty s)
    asked trade_count s = count (e.get_trade_count s)

    abbrev pub called : Call D → e.State → World → Answer D × e.State × World
    called (adds o) s w = let r = e.add_order o s w in (traded r.0, r.1, r.2)
    called (cancels id) s w = let r = e.cancel_order id s in (cancelled r.0, r.1, w)
    called clears s w = (cleared, e.clear s, w)

    unfoldable pub replies : List (Use D) → e.State → World → List (Reply D)
    replies [] s w = []
    replies (does c ∷ us) s w = let r = called c s w in done r.0 ∷ replies us r.1 r.2
    replies (asks k ∷ us) s w = asked k s ∷ replies us s w

    abbrev HasOffer : Call D → Type 0
    HasOffer (adds o) = IsOffer ieee o
    HasOffer (cancels id) = Unit
    HasOffer clears = Unit

    -- A use whose order, if it has one, is an offer.
    abbrev pub IsFair : Use D → Type 0
    IsFair (does c) = HasOffer c
    IsFair (asks k) = Unit

    asked-reply : (k : Question) (s : e.State) → e.IsValid s → asked k s ≡ reply k (e.view s)
    unfolding reply
    asked-reply best_bid s v = ap price (e.get_best_bid-head_price s v)
    asked-reply best_ask s v = ap price (e.get_best_ask-head_price s v)
    asked-reply spread s v = ap price (e.get_spread-spread_of s v)
    asked-reply trades_so_far s v = ap trades (e.get_trade_log-log s)
    asked-reply total_orders s v = ap count (e.get_total_orders-length s)
    asked-reply emptiness s v = ap truth (e.is_empty-is_nil s v)
    asked-reply trade_count s v = ap count (e.get_trade_count-length s)

    called-IsValid :
        (c : Call D) (s : e.State) (w : World)
        → HasOffer c
        → e.IsValid s
        → e.IsValid (called c s w).1
    called-IsValid (adds o) s w h v = e.add_order-IsValid o s w h v
    called-IsValid (cancels id) s w h v = e.cancel_order-IsValid id s v
    called-IsValid clears s w h v = e.clear-IsValid s

    called-promised :
        (c : Call D) (s : e.State) (w : World)
        → HasOffer c
        → e.IsValid s
        → let r = called c s w in told r.0 (e.view r.1) r.2 ≡ promised clock c (e.view s) w
    unfolding promised
    called-promised (adds o) s w h v = e.add_order-promised o s w h v
    called-promised (cancels id) s w h v = e.cancel_order-promised id s w
    called-promised clears s w h v = ap (λ q. told cleared q w) (e.view-clear s)

    replies-promised_from :
        (us : List (Use D)) (s : e.State) (w : World)
        → All IsFair us
        → e.IsValid s
        → replies us s w ≡ promised_replies clock us (e.view s) w
    unfolding replies promised_replies
    replies-promised_from [] s w h v = refl
    replies-promised_from (does c ∷ us) s w h v =
        let r = called c s w in
        let rest = replies-promised_from us r.1 r.2 h.1 (called-IsValid c s w h.0 v) in
        ap (◌∷◌ (done r.0)) rest
        ∙ ap (λ t. done t.answer ∷ promised_replies clock us t.book t.world)
            (called-promised c s w h.0 v)
    replies-promised_from (asks k ∷ us) s w h v =
        rw (asked-reply k s v, replies-promised_from us s w h.1 v)

    -- From a new book on, any history of calls with offers and of questions gets the replies
    -- that the two queues and the log give.
    pub replies-promised :
        (us : List (Use D)) (w : World)
        → All IsFair us
        → replies us e.new w ≡ promised_replies clock us no_queues w
    replies-promised us w h =
        replies-promised_from us e.new w h e.new-IsValid
        ∙ ap (λ q. promised_replies clock us q w) e.view-new
