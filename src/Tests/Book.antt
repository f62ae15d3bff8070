-- ===== src/Tests/Book.antt =====
-- The matching engine at small inputs.
use velocore.Base.{
  ◌⊎◌, ◌≡◌, ◌↔◌, ◌<◌, wrap32, refl, [], ◌∷◌, none, true, arith, pos, map, take, All, ◌-ℤ◌,
}
use velocore.Double.{Cents, cents_double, Cents-IsIeee}
use mathlib.Core.Option as Option
use velocore.World.{start}
use velocore.Trade.{new_trade}
use velocore.OrderBook.Levels.{entries, cancel_in}
use velocore.OrderBook.Levels.Cancelled.{Cancels, cancel_in-Cancels}
use velocore.OrderBook.Matching.{
  MatchState, buy_rules, match_loop, rounds, round, settle_incoming, settle_resting, after_trade,
  trade_with, prices_cross, execute_trade, match_buy_order,
}
use velocore.OrderBook.Matching.Rounds.{match_loop_terminates}
use velocore.OrderBook.Matching.Queue.{view, sweep_view, HasOrders, match_loop_refines}
use velocore.OrderBook.Engine.{match_start, empty_book, add_order, match_order, run}
use velocore.OrderBook.Engine.Valid.{IsBook, IsIncoming}
use velocore.OrderBook.Engine.History.{run-IsBook}
use velocore.OrderBook.Engine.Trades.{Reported, Accounted, add_order-Reported, add_order-Accounted}
use velocore.OrderBook.Engine.Settled.{Settled, add_order-Settled}
use velocore.OrderBook.Abstract.{queues, observe, promise}
use velocore.OrderBook.Abstract.Refines.{observe-promise}
use velocore.OrderBook.Queries.{
  rows, book_statistics, is_empty, get_total_orders, get_trade_count, get_best_bid, get_best_ask,
}
use velocore.OrderBook.Queries.Summary.{
  summary, rows-summary, book_statistics_counts, is_empty-get_total_orders, IsLeading, best_prices,
}
use velocore.Types.{Side}
use velocore.Tests.Samples.{ticking, bid, small_book, history}

-- A buy of 7 at 101 takes the 4 of the older ask and 3 of the younger one.
two_fills :
    map (λ t. t.quantity) (add_order ticking (bid 9 101 7) small_book start).trades
    ≡ pos 4 ∷ pos 3 ∷ []
unfolding add_order match_order match_buy_order match_loop round trade_with prices_cross
    settle_incoming settle_resting execute_trade new_trade after_trade ◌-ℤ◌
two_fills = refl

small-IsBook : IsBook Cents-IsIeee small_book
small-IsBook = ground arith

large_bid-IsIncoming : IsIncoming Cents-IsIeee (bid 9 102 20)
large_bid-IsIncoming = ground arith

abbrev arrival : MatchState Cents
arrival = match_start (bid 9 102 20) small_book.sell_book small_book start

match_loop_terminates_example :
    (round (buy_rules ticking) (match_loop (rounds arrival.levels) (buy_rules ticking) arrival)
      ≡ none)
    × (match_loop 10 (buy_rules ticking) arrival
        ≡ match_loop (rounds arrival.levels) (buy_rules ticking) arrival)
match_loop_terminates_example = match_loop_terminates (buy_rules ticking) arrival 10 (omega arith)

match_loop_refines_example :
    let s' = match_loop (rounds arrival.levels) (buy_rules ticking) arrival in
    (view s' ≡ sweep_view (buy_rules ticking) (view arrival)) × All HasOrders s'.levels
match_loop_refines_example = match_loop_refines (buy_rules ticking) arrival (ground arith)

run-IsBook_example : IsBook Cents-IsIeee (run ticking history (empty_book, start)).0
run-IsBook_example = run-IsBook Cents-IsIeee ticking history start (ground arith)

add_order-Reported_example :
    Reported (bid 9 102 20) small_book (add_order ticking (bid 9 102 20) small_book start)
add_order-Reported_example =
    add_order-Reported Cents-IsIeee ticking (bid 9 102 20) small_book start small-IsBook

add_order-Accounted_example :
    Accounted (bid 9 102 20) small_book (add_order ticking (bid 9 102 20) small_book start)
add_order-Accounted_example =
    add_order-Accounted Cents-IsIeee ticking (bid 9 102 20) small_book start large_bid-IsIncoming
      (omega arith) small-IsBook

add_order-Settled_example :
    Settled (bid 9 102 20) small_book (add_order ticking (bid 9 102 20) small_book start)
add_order-Settled_example =
    add_order-Settled Cents-IsIeee ticking (bid 9 102 20) small_book start large_bid-IsIncoming
      (omega arith) small-IsBook

observe-promise_example :
    observe ticking history (small_book, start) ≡ promise ticking history (queues small_book) start
observe-promise_example =
    observe-promise Cents-IsIeee ticking history small_book start (ground arith) small-IsBook

cancel_in-Cancels_example :
    Cancels 3 (entries small_book.sell_book) (Option.map entries (cancel_in 3 small_book.sell_book))
cancel_in-Cancels_example = cancel_in-Cancels 3 small_book.sell_book

rows-summary_example : rows 0 1 small_book.sell_book ≡ map summary (take 1 small_book.sell_book)
rows-summary_example = rows-summary 1 small_book.sell_book

book_statistics_counts_example : book_statistics small_book ≡ record {
  bid_levels = wrap32 (pos 1);
  ask_levels = wrap32 (pos 2);
  bid_orders = wrap32 (pos 1);
  ask_orders = wrap32 (pos 3);
  total_orders = wrap32 (pos (get_total_orders small_book));
  total_trades = wrap32 (pos (get_trade_count small_book));
}
book_statistics_counts_example = book_statistics_counts small_book

is_empty-get_total_orders_example : (is_empty small_book ≡ true) ↔ (get_total_orders small_book ≡ 0)
is_empty-get_total_orders_example = is_empty-get_total_orders Cents-IsIeee small_book small-IsBook

best_prices_example :
    IsLeading Cents-IsIeee Side.buy small_book.buy_book (get_best_bid small_book)
    × IsLeading Cents-IsIeee Side.sell small_book.sell_book (get_best_ask small_book)
    × ((small_book.buy_book ≡ [])
        ⊎ (small_book.sell_book ≡ [])
        ⊎ (Cents-IsIeee.rank (get_best_bid small_book)
            < Cents-IsIeee.rank (get_best_ask small_book)))
best_prices_example = best_prices Cents-IsIeee small_book small-IsBook
