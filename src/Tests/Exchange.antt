-- ===== src/Tests/Exchange.antt =====
-- A history of calls and questions on the order book.
use velocore.Base.{◌≡◌, [], ◌∷◌, List, arith}
use velocore.Double.{Cents, cents_double, Cents-IsIeee}
use velocore.World.{start}
use velocore.OrderBook.Engine.{adds, cancels}
use velocore.OrderBook.Exchange.{Exchange, no_queues}
use velocore.OrderBook.Exchange.Client.{
  Use, does, asks, best_bid, spread, total_orders, trade_count, emptiness, replies,
  promised_replies,
}
use velocore.OrderBook.Exchange.Filled.{order_book_exchange, order_book_exchange-replies}
use velocore.Tests.Samples.{ticking, bid, ask}

abbrev uses : List (Use Cents)
uses =
    asks emptiness
    ∷ does (adds (bid 1 99 10))
    ∷ does (adds (ask 2 101 4))
    ∷ asks spread
    ∷ does (adds (bid 3 101 7))
    ∷ asks best_bid
    ∷ does (cancels 1)
    ∷ asks total_orders
    ∷ asks trade_count
    ∷ []

abbrev book : Exchange Cents-IsIeee ticking
book = order_book_exchange Cents-IsIeee ticking

order_book_exchange-replies_example :
    replies book uses book.new start ≡ promised_replies ticking uses no_queues start
order_book_exchange-replies_example =
    order_book_exchange-replies Cents-IsIeee ticking uses start (ground arith)
