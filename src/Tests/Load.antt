-- ===== src/Tests/Load.antt =====
-- The concurrency test of the HTTP server at small inputs.
use text.Mathlib.Text.{◌==◌ as str_eq}
use velocore.Base.{
  ◌+ℤ◌, ℕ, ◌≡◌, ◌⊎◌, refl, true, false, [], none, some, String, Result, ok, throws, pos, arith,
  if◌then◌else◌, wrap32,
}
use velocore.Double.{Cents, cents_double, Cents-IsIeee}
use velocore.World.{start}
use velocore.Json.{Reader}
use velocore.Trade.{no_trades}
use velocore.OrderBook.Engine.History.{empty-IsBook}
use velocore.Service.{Service, Response}
use velocore.OrderBook.Engine.Valid.{IsBook}
use velocore.Service.Load.Request.{
  LoadRequest, read_load, test_concurrency, refused, opened, Fit, Unfit, Unreadable,
  test_concurrency_cases,
}
use velocore.Service.Load.Outcome.{Completes, test_concurrency-Completes}
use velocore.Trade.Accesses.{Stage, touch, reads_trades, writes_trades}
use velocore.Tests.Samples.{ticking, sale}

-- Parsed bodies: the two members of a test, and numbers.
data Parsed : Type 0 where
  members : ℕ → ℕ → Parsed
  amount : ℕ → Parsed

abbrev member : Parsed → String → Result Parsed
member (members orders threads) key =
    if str_eq key "num_orders"
    then ok (amount orders)
    else if str_eq key "num_threads"
    then ok (amount threads)
    else throws "no member"
member (amount n) key = throws "no object"

-- A reader that knows one body: five orders by two threads.
abbrev sample_reader : Reader Parsed Cents
sample_reader = record {
  load = λ text. if str_eq text "five" then some (members 5 2) else none;
  has = λ j key. elim (member j key) [ ok m ↦ true | throws e ↦ false ];
  at = member;
  as_text = λ j. throws "no text";
  as_uint = λ j. throws "no number";
  as_int = λ j. elim j [ amount n ↦ ok (pos n) | _ ↦ throws "no number" ];
  as_double = λ j. throws "no number";
  as_bool = λ j. throws "no Boolean";
}

abbrev five : LoadRequest
five = record { num_orders = pos 5; num_threads = pos 2 }

abbrev idle : Service Cents
idle = record {
  order_book = record { buy_book = []; sell_book = []; next_trade_id = 1; trade_log = [] };
  stats = no_trades;
  latest_ticks = [];
  world = start;
}

idle-IsBook : IsBook Cents-IsIeee idle.order_book
idle-IsBook = empty-IsBook Cents-IsIeee idle.order_book refl refl

five_opened : test_concurrency {D = Cents} sample_reader "five" ≡ opened five
unfolding test_concurrency read_load wrap32
five_opened = refl

test_concurrency_cases_example :
    ((answer : Response Cents) × (test_concurrency sample_reader "five" ≡ refused answer)
      × (answer.code ≡ 400)
      × Unfit sample_reader "five")
    ⊎ ((answer : Response Cents) × (test_concurrency sample_reader "five" ≡ refused answer)
        × (answer.code ≡ 500)
        × Unreadable sample_reader "five")
    ⊎ ((q : LoadRequest) × (test_concurrency sample_reader "five" ≡ opened q)
        × Fit sample_reader "five" q)
test_concurrency_cases_example = test_concurrency_cases sample_reader "five"

test_concurrency-Completes_example : Completes Cents-IsIeee ticking five idle
test_concurrency-Completes_example =
    test_concurrency-Completes Cents-IsIeee ticking sample_reader "five" five idle five_opened
      (omega arith) idle-IsBook

-- Two threads read the number of trades before either writes it: one of the two updates gets lost.
abbrev begun : Stage Cents
begun = reads_trades

two_read : (touch begun (sale 101 4) no_trades).1 ≡ some (writes_trades (pos 0))
unfolding touch no_trades
two_read = refl

lost_update :
    let first = (touch (writes_trades (pos 0)) (sale 101 4) no_trades).0 in
    (touch (writes_trades (pos 0)) (sale 101 3) first).0.total_trades ≡ pos 1
unfolding touch no_trades wrap32 ◌+ℤ◌
lost_update = refl
