-- ===== src/Tests/Server.antt =====
-- The configuration, the URL parser and the HTTP handlers at small inputs.
use text.Mathlib.Text.{◌==◌ as str_eq}
use velocore.Base.{
  ℕ, ◌≡◌, ◌↔◌, ◌⊎◌, refl, true, false, List, [], ◌∷◌, ◌++◌, Option, none, some, String, Result, ok,
  throws, ℤ, pos, ◌≤ℤ◌, arith, if◌then◌else◌,
}
use velocore.Double.{Cents, cents_double, Cents-IsIeee}
use velocore.World.{World, start}
use velocore.Types.{MarketDataType}
use velocore.Order.{Order}
use velocore.Tick.{MarketTick, blank_tick}
use velocore.Json.{Reader}
use velocore.Chars.{codes, stoi}
use velocore.Config.{defaults, configure}
use velocore.Config.Ready.{complete, configure_iff}
use velocore.Url.{parse_web_socket_url}
use velocore.Url.RoundTrip.{
  scheme, authority, port_of, default_port, parse_web_socket_url_written, parse_web_socket_url_bare,
}
use velocore.Service.{Service}
use velocore.Service.Orders.{accept, submit, post_orders, cancel_route}
use velocore.Service.Accepted.{IsAccepted, post_orders_cases}
use velocore.Service.Books.{
  Event, order_posted, cancel_posted, tick_came, initial, serve, IsService, serve-IsService,
}
use velocore.Service.Cancelling.{IsAbsent, cancel_route_cases}
use velocore.Service.Ticks.{find_tick, last_of, receive_all, receive_all-last_of}
use velocore.Service.Views.{levels_of, levels_of_lem}
use velocore.Feed.{Feed, MarketSubscription}
use velocore.Feed.Connection.{new_feed}
use velocore.Service.Market.{
  market_subscribe, read_subscription, has_symbol, market_subscribe_cases,
}
use velocore.Tests.Samples.{ticking, small_book}

-- An environment with the two credentials.
abbrev pub credentials : String → Option String
credentials key =
    if str_eq key "ALPACA_API_KEY"
    then some "k"
    else if str_eq key "ALPACA_API_SECRET"
    then some "s"
    else none

configure_iff_example :
    ((configure credentials defaults).1 ≡ ok tt) ↔ (complete credentials defaults ≡ true)
configure_iff_example = configure_iff credentials defaults

feed_started : complete credentials defaults ≡ true
feed_started = refl

parse_web_socket_url_written_example :
    parse_web_socket_url []
      (scheme true ++ (authority (codes "host") (some (codes "8443")) ++ b'/' ∷ codes "v2/iex"))
    ≡ (
      true,
      record {
        host = codes "host";
        port = port_of true (some (codes "8443"));
        path = b'/' ∷ codes "v2/iex";
        is_secure = true;
      },
    )
parse_web_socket_url_written_example =
    parse_web_socket_url_written [] true (codes "host") (some (codes "8443")) (codes "v2/iex")
      (ground arith) (ground arith) (ground arith)

parse_web_socket_url_bare_example : parse_web_socket_url [] (scheme false ++ codes "host:81") ≡ (
  true,
  record { host = codes "host:81"; port = default_port false; path = codes "/"; is_secure = false },
)
parse_web_socket_url_bare_example =
    parse_web_socket_url_bare [] false (codes "host:81") (ground arith) (ground arith)

-- Parsed bodies: the members of an order, and values.
pub data Parsed : Type 0 where
  members : String → ℕ → ℕ → Parsed
  word : String → Parsed
  amount : ℕ → Parsed

abbrev pub member : Parsed → String → Result Parsed
member (members side price quantity) key =
    if str_eq key "client_id"
    then ok (amount 7)
    else if str_eq key "symbol"
    then ok (word "SIM")
    else if str_eq key "side"
    then ok (word side)
    else if str_eq key "type"
    then ok (word "LIMIT")
    else if str_eq key "price"
    then ok (amount price)
    else if str_eq key "quantity"
    then ok (amount quantity)
    else throws "no member"
member (word s) key = throws "no object"
member (amount n) key = throws "no object"

-- A reader that knows two bodies.
abbrev pub sample_reader : Reader Parsed Cents
sample_reader = record {
  load = λ text.
      if str_eq text "buy"
      then some (members "BUY" 101 10)
      else if str_eq text "sell"
      then some (members "SELL" 99 4)
      else none;
  has = λ j key. elim (member j key) [ ok m ↦ true | throws e ↦ false ];
  at = member;
  as_text = λ j. elim j [ word s ↦ ok s | _ ↦ throws "no text" ];
  as_uint = λ j. elim j [ amount n ↦ ok n | _ ↦ throws "no number" ];
  as_int = λ j. elim j [ amount n ↦ ok (pos n) | _ ↦ throws "no number" ];
  as_double = λ j. elim j [ amount n ↦ ok (some n) | _ ↦ throws "no number" ];
  as_bool = λ j. throws "no Boolean";
}

pub sample_numbers :
    (j : Parsed) (x : Cents) → sample_reader.as_double j ≡ ok x → Cents-IsIeee.is_nan x ≡ false
sample_numbers j x e = ground arith

abbrev requests : List (Event Cents)
requests =
    order_posted "buy"
    ∷ order_posted "sell"
    ∷ order_posted "nothing"
    ∷ tick_came (blank_tick "SIM" MarketDataType.trade 3)
    ∷ cancel_posted (pos 1)
    ∷ []

-- The state at the beginning.
abbrev fresh : Service Cents
fresh = initial start

post_orders_cases_example :
    let (s', answer) = post_orders sample_reader ticking "buy" fresh in
    ((answer.code ≡ 400) × (s' ≡ fresh))
    ⊎ ((answer.code ≡ 201)
        × ((parsed : Parsed) × (o : Order Cents) × (w : World) × (sample_reader.load "buy"
              ≡ some parsed)
            × (accept sample_reader ticking parsed fresh.world ≡ ok (o, w))
            × IsAccepted o
            × (s' ≡ (submit ticking o w fresh).0)))
post_orders_cases_example = post_orders_cases sample_reader ticking "buy" fresh

serve-IsService_example : IsService Cents-IsIeee (serve sample_reader ticking requests fresh)
serve-IsService_example =
    serve-IsService Cents-IsIeee sample_reader ticking sample_numbers requests start

-- Order 1 of the small book is there.
abbrev trading : Service Cents
trading = record fresh { order_book = small_book }

cancel_route_cases_example :
    let (s', answer) = cancel_route (pos 1) trading in
    ((answer.code ≡ 404) × IsAbsent 1 small_book × (s' ≡ trading))
    ⊎ ((answer.code ≡ 200) × ¬ IsAbsent 1 small_book)
cancel_route_cases_example = cancel_route_cases (pos 1) trading

abbrev two_ticks : List (MarketTick Cents)
two_ticks = blank_tick "SIM" MarketDataType.trade 3 ∷ blank_tick "SIM" MarketDataType.quote 4 ∷ []

receive_all-last_of_example :
    (find_tick "SIM" (receive_all two_ticks fresh).latest_ticks
      ≡ last_of "SIM" two_ticks (find_tick "SIM" fresh.latest_ticks))
    × (receive_all two_ticks fresh
        ≡ record fresh { latest_ticks = (receive_all two_ticks fresh).latest_ticks })
receive_all-last_of_example = receive_all-last_of "SIM" two_ticks fresh

levels_of_lem_example :
    ((n : ℤ) → levels_of (some "7") ≡ ok n → (pos 1 ≤ℤ n) × (n ≤ℤ pos 20))
    × ((s : String) (n : ℤ)
        → some "7" ≡ some s
        → stoi s ≡ ok n
        → pos 1 ≤ℤ n
        → n ≤ℤ pos 20
        → levels_of (some "7") ≡ ok n)
    × ((s e : String) → some "7" ≡ some s → stoi s ≡ throws e → levels_of (some "7") ≡ throws e)
levels_of_lem_example = levels_of_lem (some "7")

-- A feed that has not been started.
abbrev idle_feed : Feed Cents
idle_feed = new_feed start

market_subscribe_cases_example :
    let (after, answer) = market_subscribe sample_reader "buy" (some idle_feed) in
    ((answer.code ≡ 400) × (after ≡ some idle_feed))
    ⊎ ((answer.code ≡ 200)
        × ((parsed : Parsed) × (s : MarketSubscription) × (f' : Feed Cents) × (sample_reader.load
                "buy"
              ≡ some parsed)
            × (read_subscription sample_reader parsed ≡ ok s)
            × (str_eq s.symbol "" ≡ false)
            × (after ≡ some f')
            × (has_symbol s.symbol f' ≡ true)))
market_subscribe_cases_example = market_subscribe_cases sample_reader "buy" idle_feed
