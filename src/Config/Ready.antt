-- ===== src/Config/Ready.antt =====
-- When `main` finds the configuration complete (src/Config.h, src/main.cpp).
use text.Mathlib.Text.{◌==◌ as str_eq}
use velocore.Base.{
  ◌≡◌, ◌↔◌, Bool, true, false, not, ◌&&◌, Option, none, some, String, Result, ok, throws, arith, ℤ,
}
use velocore.Chars.{stoi}
use velocore.Config.{Configuration, configure}

-- The variable is set, to a text that is not empty.
abbrev pub is_given : Option String → Bool
is_given none = false
is_given (some s) = not (str_eq s "")

abbrev pub is_number : Result ℤ → Bool
is_number (ok n) = true
is_number (throws e) = false

-- The variable is not set, or to a text that `stoi` reads.
abbrev pub is_port : Option String → Bool
is_port none = true
is_port (some s) = is_number (stoi s)

-- The variable is set to a text that is not empty, or it is not set and the old value is not empty.
abbrev pub is_url : Option String → String → Bool
is_url none old = not (str_eq old "")
is_url (some s) old = not (str_eq s "")

module _ (env : String → Option String) (c : Configuration) where
  abbrev pub complete : Bool
  complete =
      is_given (env "ALPACA_API_KEY")
      && is_given (env "ALPACA_API_SECRET")
      && is_port (env "SERVER_PORT")
      && is_url (env "ALPACA_DATA_URL") c.alpaca.data_url

-- The market data feed is started exactly if the two credentials are set and not empty, the port is
-- not set or a number, and the URL of the data, set or from before, is not empty.
pub configure_iff :
    (env : String → Option String) (c : Configuration)
    → ((configure env c).1 ≡ ok tt) ↔ (complete env c ≡ true)
unfolding configure
configure_iff env c = ground arith
