-- ===== src/OrderBook/Queries/Summary.antt =====
-- What the queries say of the book (src/models/impl/OrderBook.cpp).
use velocore.Base.{
  ℕ, zero, suc, ◌+◌, ◌≤◌, ◌<◌, ◌≡◌, ◌≢◌, ◌↔◌, refl, sym, ap, ◌∙◌, ◌⊎◌, inl, inr, true, List, [],
  ◌∷◌, map, take, length, arith, ℤ, pos, ◌+ℤ◌, wrap32, wrap32-add_assoc, wrap32-add_both,
  wrap32-eq_self, wrap32-IsInt, IsInt, +ℤ_zero, +ℤ_comm, pos-add, sum, All, All-imp, add32,
}
use mathlib.Core.Path.{fun_ext}
use velocore.Double.{Double, IsIeee}
use velocore.Types.{Side}
use velocore.Order.Priority.{Better}
use mathlib.Core.List.{Mem, mem-cons_self}
use velocore.Order.{Order}
use velocore.OrderBook.Levels.{Level, total_from, count_orders}
use velocore.OrderBook.Levels.Valid.{IsSide}
use velocore.OrderBook.Engine.{OrderBook}
use velocore.OrderBook.Engine.Valid.{IsBook, Apart}
use velocore.OrderBook.Queries.{
  Row, row, rows, int_orders, get_total_orders, get_trade_count, is_empty, is_empty_side,
  get_best_bid, get_best_ask, best_price, book_statistics,
}

module _ {D : Type 0} where
  total_from_lem :
      (total : ℤ) (os : List (Order D))
      → IsInt total
      → total_from total os ≡ wrap32 (total +ℤ sum (map (λ o. o.remaining_quantity) os))
  total_from_lem total [] h = sym (ap wrap32 (+ℤ_zero total) ∙ wrap32-eq_self total h)
  total_from_lem total (o ∷ os) h =
      total_from_lem (add32 total o.remaining_quantity) os (wrap32-IsInt _)
      ∙ wrap32-add_assoc total o.remaining_quantity _

  int_orders_lem :
      (total : ℤ) (ls : List (Level D))
      → IsInt total
      → int_orders total ls ≡ wrap32 (total +ℤ pos (count_orders ls))
  unfolding int_orders
  int_orders_lem total [] h = sym (ap wrap32 (+ℤ_zero total) ∙ wrap32-eq_self total h)
  int_orders_lem total (l ∷ ls) h =
      int_orders_lem (add32 total (pos (length l.orders))) ls (wrap32-IsInt _)
      ∙ wrap32-add_assoc total (pos (length l.orders)) _
      ∙ ap (λ n. wrap32 (total +ℤ n)) (pos-add (length l.orders) (count_orders ls))

  side_orders : (ls : List (Level D)) → int_orders (pos 0) ls ≡ wrap32 (pos (count_orders ls))
  side_orders ls =
      int_orders_lem (pos 0) ls (omega arith) ∙ ap wrap32 (+ℤ_comm (pos 0) _ ∙ +ℤ_zero _)

  rows_from :
      (n count levels : ℕ) (ls : List (Level D))
      → levels ≡ count + n
      → rows count levels ls ≡ map row (take n ls)
  unfolding rows
  rows_from zero count levels [] h = refl
  rows_from zero count levels (l ∷ ls) h = ground arith
  rows_from (suc n) count levels [] h = refl
  rows_from (suc n) count levels (l ∷ ls) h =
      ground (arith, rows_from n (count + 1) levels ls (omega arith))

  -- What a row says of its level: the price, and the two totals in the range of an `int`.
  abbrev pub summary : Level D → Row D
  summary l = record {
    price = l.price;
    quantity = wrap32 (sum (map (λ o. o.remaining_quantity) l.orders));
    orders = wrap32 (pos (length l.orders));
  }

  row-summary : (l : Level D) → row l ≡ summary l
  unfolding row
  row-summary l = λ i. record {
    price = l.price;
    quantity =
        (total_from_lem (pos 0) l.orders (omega arith) ∙ ap wrap32 (+ℤ_comm (pos 0) _ ∙ +ℤ_zero _))
          i;
    orders = wrap32 (pos (length l.orders));
  }

  -- One side of a snapshot shows exactly the best levels of the side, as many as asked for or as
  -- there are, each with its price, the sum of its orders' remaining quantities and their number, the
  -- two reduced to the range of an `int`.
  pub rows-summary :
      (levels : ℕ) (ls : List (Level D)) → rows 0 levels ls ≡ map summary (take levels ls)
  rows-summary levels ls =
      rows_from levels 0 levels ls (omega arith)
      ∙ ap (λ f. map f (take levels ls)) (fun_ext row-summary)

  -- The counts agree: the statistics hold the numbers of levels, of orders on each side and in all,
  -- and of trades, each reduced to the range of an `int`, and the order total is the one that
  -- `getTotalOrders` gives.
  pub book_statistics_counts :
      (b : OrderBook D)
      → book_statistics b ≡ record {
        bid_levels = wrap32 (pos (length b.buy_book));
        ask_levels = wrap32 (pos (length b.sell_book));
        bid_orders = wrap32 (pos (count_orders b.buy_book));
        ask_orders = wrap32 (pos (count_orders b.sell_book));
        total_orders = wrap32 (pos (get_total_orders b));
        total_trades = wrap32 (pos (get_trade_count b));
      }
  unfolding book_statistics get_total_orders get_trade_count
  book_statistics_counts b = λ i. record {
    bid_levels = wrap32 (pos (length b.buy_book));
    ask_levels = wrap32 (pos (length b.sell_book));
    bid_orders = side_orders b.buy_book i;
    ask_orders = side_orders b.sell_book i;
    total_orders =
        ((λ j. add32 (side_orders b.buy_book j) (side_orders b.sell_book j))
            ∙ wrap32-add_both (pos (count_orders b.buy_book)) (pos (count_orders b.sell_book))
            ∙ ap wrap32 (pos-add (count_orders b.buy_book) (count_orders b.sell_book)))
          i;
    total_trades = wrap32 (pos (length b.trade_log));
  }

module _ {D : Type 0} ⦃d : Double D⦄ (ieee : IsIeee D) where
  open ieee use {rank}

  count-pos :
      (side : Side) (ls : List (Level D))
      → IsSide ieee side ls
      → (count_orders ls ≡ 0) ↔ (is_empty_side ls ≡ true)
  count-pos side [] h = (λ _. refl, λ _. refl)
  count-pos side (l ∷ ls) h = ground (arith, h.0.0.has_orders, nonempty l.orders)
    where
      nonempty : (os : List (Order D)) → (os ≡ []) ⊎ (0 < length os)
      nonempty [] = inl refl
      nonempty (o ∷ os) = inr (omega arith)

  -- On a book that satisfies the invariant, `isEmpty` answers true exactly if `getTotalOrders` is 0.
  pub is_empty-get_total_orders :
      (b : OrderBook D) → IsBook ieee b → (is_empty b ≡ true) ↔ (get_total_orders b ≡ 0)
  unfolding is_empty get_total_orders
  is_empty-get_total_orders b v =
      ground (arith, count-pos Side.buy b.buy_book v.bids, count-pos Side.sell b.sell_book v.asks)

  abbrev pub IsBehind : Side → D → D → Type 0
  IsBehind Side.buy p best = rank p ≤ rank best
  IsBehind Side.sell p best = rank best ≤ rank p

  -- An answer is the best price of a side: it is 0.0 and the side is empty, or it is the price of a
  -- level of the side that holds an order, and no level is ahead of it.
  abbrev pub IsLeading : Side → List (Level D) → D → Type 0
  IsLeading side ls best =
      ((ls ≡ []) × (best ≡ d.nought))
      ⊎ ((l : Level D) × (l.price ≡ best)
          × (l.orders ≢ [])
          × Mem l ls
          × All (λ m. IsBehind side m.price best) ls)

  Better-IsBehind : (side : Side) (p q : D) → Better ieee side p q → IsBehind side q p
  Better-IsBehind Side.buy p q h = omega arith
  Better-IsBehind Side.sell p q h = omega arith

  self-IsBehind : (side : Side) (p : D) → IsBehind side p p
  self-IsBehind Side.buy p = omega arith
  self-IsBehind Side.sell p = omega arith

  best_price-IsLeading :
      (side : Side) (ls : List (Level D)) → IsSide ieee side ls → IsLeading side ls (best_price ls)
  best_price-IsLeading side [] h = inl (refl, refl)
  best_price-IsLeading side (l ∷ ls) h = inr (
    l,
    refl,
    h.0.0.has_orders,
    mem-cons_self,
    (
      self-IsBehind side l.price,
      All-imp _ _ ls (λ m k. Better-IsBehind side l.price m.price k) h.1.0,
    ),
  )

  -- On a book that satisfies the invariant, `getBestBid` is the highest price of a resting bid, or 0.0
  -- if there is none, and `getBestAsk` is the lowest price of a resting ask, or 0.0 if there is none;
  -- and if there are both, the best bid is below the best ask.
  pub best_prices :
      (b : OrderBook D)
      → IsBook ieee b
      → IsLeading Side.buy b.buy_book (get_best_bid b)
        × IsLeading Side.sell b.sell_book (get_best_ask b)
        × ((b.buy_book ≡ []) ⊎ (b.sell_book ≡ []) ⊎ (rank (get_best_bid b) < rank (get_best_ask b)))
  unfolding get_best_bid get_best_ask
  best_prices b v = (
    best_price-IsLeading Side.buy b.buy_book v.bids,
    best_price-IsLeading Side.sell b.sell_book v.asks,
    between b.buy_book b.sell_book v.apart,
  )
    where
      between :
          (bs as' : List (Level D))
          → Apart ieee bs as'
          → (bs ≡ []) ⊎ (as' ≡ []) ⊎ (rank (best_price bs) < rank (best_price as'))
      between [] as' h = inl refl
      between (x ∷ bs) [] h = inr (inl refl)
      between (x ∷ bs) (y ∷ as') h = inr (inr h.0.0)
