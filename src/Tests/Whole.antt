-- ===== src/Tests/Whole.antt =====
-- The whole program at small inputs.
use package.text.Mathlib.Text.{◌==◌ as str_eq}
use velocore.Base.{
  length, ◌≡◌, ◌↔◌, ◌⊎◌, refl, true, false, not, ◌||◌, some, none, String, ok, throws, pos,
}
use velocore.Double.{Cents, cents_double}
use velocore.World.{start}
use velocore.Config.{defaults}
use velocore.Config.Ready.{complete}
use velocore.Service.{response, plain}
use velocore.Service.Ticks.{receive_all}
use velocore.Service.Market.{market_subscribe}
use velocore.Feed.{Feed}
use velocore.Feed.Subscriptions.{JsonReader}
use velocore.Feed.Connection.{new_feed, on_read}
use velocore.Service.Orders.{post_orders}
use velocore.Feed.{broadcast_book_update}
use velocore.Feed.Messages.{handle_message}
use velocore.Feed.Session.Stopped.{told_ticks}
use velocore.Program.{told_since, Program, boot, shutdown}
use velocore.Program.Ends.{IsUp, boot_cases, shutdown_iff}
use velocore.Tests.Samples.{ticking}
use velocore.Tests.Server.{sample_reader, credentials}

-- A reader to which every message is a trade in SIM.
abbrev trade_reader : JsonReader (Unit {0}) Cents
trade_reader = record {
  parse = λ t. ok tt;
  items = λ j. none;
  contains = λ j key. str_eq key "T";
  member = λ j key. j;
  text_of = λ j. none;
  as_text = λ j. ok "t";
  as_int = λ j. throws "no number";
  text_or = λ j key old. ok "SIM";
  double_or = λ j key old. ok (some 101);
  int_or = λ j key old. ok (pos 3);
}

abbrev booted : Program Cents
booted = boot credentials start start

-- The feed after the start.
abbrev up : Feed Cents
up = record (new_feed start) {
  running = true;
  has_thread = true;
  tick_callback = true;
  connection_callback = true;
  error_callback = true;
}

-- An order is posted, and then a trade comes in.
abbrev ordered : Program Cents
ordered = record booted { service = (post_orders sample_reader ticking "buy" booted.service).0 }

abbrev told_up : Feed Cents
told_up = on_read trade_reader ticking booted.config (ok "trade") up

abbrev ticked : Program Cents
ticked = record ordered {
  service = receive_all (told_since up told_up) ordered.service;
  feed = some told_up;
}

one_tick : length (told_ticks told_up.effects) ≡ 1
unfolding on_read handle_message broadcast_book_update new_feed
one_tick = refl

boot_cases_example :
    let p = boot {D = Cents} credentials start start in
    ((complete credentials defaults ≡ true)
      × ((f : Feed Cents) × (p.feed ≡ some f) × IsUp f × (shutdown p.feed ≡ true)))
    ⊎ ((complete credentials defaults ≡ false)
        × (p.feed ≡ none)
        × ((body : String)
            → market_subscribe sample_reader body p.feed
              ≡ (none, response 400 (plain "Market data feed not initialized"))))
boot_cases_example = boot_cases sample_reader credentials start start

shutdown_iff_example : (shutdown (some up) ≡ true) ↔ (up.running || not up.has_thread ≡ true)
shutdown_iff_example = shutdown_iff up
