-- ===== src/Lib.antt =====
-- Velocore: a trading simulator. Orders come in over HTTP (main.cpp), a matching engine pairs them
-- by price and time (models/), and a client of a market data service keeps ticks beside it
-- (MarketDataFeed.cpp). This library models the data models, the matching engine, the configuration,
-- the handlers and the feed.
--
--   Types      src/models/include/Types.h, src/models/impl/Types.cpp: the enums, their texts
--   Tick       MarketTick of the same files
--   Order      src/models/include/Order.h, src/models/impl/Order.cpp: `Order`, with `fill`, `cancel`,
--              `operator<` (order_lt), `to_json` and `from_json`
--   Trade      src/models/include/Trade.h, src/models/impl/Trade.cpp: `Trade`, `TradeStatistics`, and its
--              `update` as single reads and writes (Accesses)
--   OrderBook  src/models/include/OrderBook.h, src/models/impl/OrderBook.cpp:
--     Levels     one side of the book: the std::map from prices to queues is the list of its entries
--                in the order of the map's comparator
--     Matching   `matchBuyOrder` (match_buy_order) and `matchSellOrder` (match_sell_order): one loop,
--                match_loop, with the two sets of Rules in which the two differ
--     Exchange   the public interface as a record of methods and laws, what its clients are told, and the
--                class as an implementation of it
--     Abstract   what the class promises: two queues and a log, with no price levels
--     Engine     `addOrder` (add_order), `cancelOrder` (cancel_order), `clear`, and a history of them
--     Queries    the operations that only read the book
--   Config     src/Config.h, and the start of `main` in src/main.cpp (configure)
--   Url        `parseWebSocketURL` of src/MarketDataFeed.cpp (parse_web_socket_url)
--   Service    src/main.cpp: the global state and the handlers of the HTTP routes
--     Orders     POST /orders (post_orders) and POST /orders/<int>/cancel (cancel_route)
--     Views      the routes that only read
--     Ticks      `onMarketTick` (on_market_tick) and the routes /market/data
--     Market     the routes /market/status and /market/subscribe (market_subscribe)
--     Accepted   what `validateOrder` and POST /orders let in
--     Cancelling what the cancellation route answers
--     Books      sequences of requests
--     Constants  /ping, /health, /architecture and /models/demo (models_demo)
--     Load       POST /test/concurrency (test_concurrency): its threads as a step relation (Move, Step),
--                one shared access at a time
--   Feed       src/MarketDataFeed.h, src/MarketDataFeed.cpp: `class MarketDataFeed`
--     Subscriptions  `subscribe`, `unsubscribe`, the messages they send, the acknowledgement
--     Messages       `handleMessage` (handle_message) and what it calls; the ticks that messages describe
--     Connection     `start` (start_feed), `stop` (stop_feed), the completion handlers, the timers
--     Session        the calls and handlers as a step relation; the ticks that a message lets be heard
--   Program    src/main.cpp: the start of `main` (boot) and its end (shutdown), and the server and the
--              feed in one state: the feed's ticks go to `onMarketTick`, called for each one
--   Chars      texts as lists of codes, and `std::stoi`
--   World      the static id counters and the readings of the steady clock
--   Double     what the code does with a `double`
--   Json       the JSON values that the code builds, and the interface to those that it reads
--   Base       shared helpers: tests, lists, integers, the result of code that throws
--   Tests      small inputs, and each theorem at one of them
--
-- State. A `double` is of any type with the operations of `Double`; theorems that compare prices
-- take the laws `IsIeee`: comparisons with NaN fail, and other values are in one order. An `int` is
-- an integer ℤ; sums that the code accumulates in an `int` keep their wrap-around (wrap32). The
-- quantities in the book only shrink, by amounts that are at most as large, and so do not wrap. The
-- id counters wrap at 2^64. A time point is its count of nanoseconds, and the clock is any function
-- from the number of a reading to its result.
--
-- Bounds. The matching loop runs on a bound, one more than the number of the opposite orders
-- (rounds): every round but the last takes an order off the book or ends the incoming one.
--
-- Concurrency. Every public operation of OrderBook holds its lock from the first line to the last,
-- so that concurrent calls are a sequence of calls. A handler of Service is one step; the program
-- updates the statistics without a lock, so that a sequence of steps is what it means to do there,
-- and not what two handlers at once are bound to do. The threads of /test/concurrency take turns at
-- every shared access: the draw of an order's id, the reading of its time, `addOrder`, each of the two
-- atomic counters, and each single read and write of the statistics (Trade/Accesses), in the order of
-- the source; the language calls this a data race and allows even more. A thread that the loop has not
-- made yet is one that has not moved. No other request comes in between. In Program the steps of the
-- feed and the requests come in any order, but each request is handled to its end before the next one;
-- the ticks of one message reach the server in one step, and the readings of the clock by the feed are
-- numbered apart.
--
-- Not modelled: the printing and parsing of JSON by crow (the trees that the code builds are, and
-- what it reads is the parameter `Reader`); the printing to the console; a number of threads that the
-- system refuses to make; the network library, whose answers are arguments of the handlers of Feed and
-- whose operations are effects in its state, and the settings of SSL; the parsing of JSON in the feed,
-- which is the parameter `JsonReader`. Calls and handlers of the feed are one step each.
pub mod Base
pub mod Double
pub mod World
pub mod Types
pub mod Json
pub mod Order
pub mod Trade
pub mod Tick
pub mod OrderBook
pub mod Chars
pub mod Config
pub mod Url
pub mod Service
pub mod Feed
pub mod Program
pub mod Tests
