-- ===== src/Config.antt =====
-- `class Configuration` of src/Config.h. The environment is a function from names to values.
pub mod Ready
use text.Mathlib.Text.{◌==◌ as str_eq}
use Prim.Native.String.{◌++◌ as concat}
use velocore.Base.{
  Bool, true, false, ◌||◌, Option, none, some, String, Result, ok, throws, ℤ, pos, if◌then◌else◌,
}
use velocore.Chars.{stoi}

pub record AlpacaConfig : Type 0 where
  pub api_key : String
  pub api_secret : String
  pub base_url : String
  pub data_url : String
  pub is_paper_trading : Bool

pub record MarketDataConfig : Type 0 where
  pub reconnect_delay_ms : ℤ
  pub max_reconnect_attempts : ℤ
  pub heartbeat_interval_ms : ℤ
  pub connection_timeout_ms : ℤ

pub record GeneralConfig : Type 0 where
  pub server_port : ℤ
  pub log_level : String
  pub debug_mode : Bool

pub record Configuration : Type 0 where
  pub alpaca : AlpacaConfig
  pub market_data : MarketDataConfig
  pub general : GeneralConfig

-- The members' initial values.
abbrev pub defaults : Configuration
defaults = record {
  alpaca = record {
    api_key = "";
    api_secret = "";
    base_url = "https://paper-api.alpaca.markets";
    data_url = "wss://stream.data.alpaca.markets/v2/iex";
    is_paper_trading = true;
  };
  market_data = record {
    reconnect_delay_ms = pos 5000;
    max_reconnect_attempts = pos 10;
    heartbeat_interval_ms = pos 30_000;
    connection_timeout_ms = pos 30_000;
  };
  general = record { server_port = pos 8080; log_level = "INFO"; debug_mode = false };
}

module _ (env : String → Option String) where
  -- `getEnvVar`.
  unfoldable pub get_env_var : String → Result String
  get_env_var key = elim (env key) [
    | some value ↦ ok value
    | none ↦ throws (concat (concat "Environment variable " key) " is required but not set.")
  ]

  -- An optional override: the variable's value through `read`, or what is there.
  abbrev pub override {ℓ} : {A : Type ℓ} → String → (String → A) → A → A
  override key read old = elim (env key) [ some value ↦ read value | none ↦ old ]

  -- The overrides of `alpaca_`.
  unfoldable pub override_alpaca : AlpacaConfig → AlpacaConfig
  override_alpaca a = record a {
    base_url = override "ALPACA_BASE_URL" (λ v. v) a.base_url;
    data_url = override "ALPACA_DATA_URL" (λ v. v) a.data_url;
    is_paper_trading = override "ALPACA_PAPER_TRADING" (λ v. str_eq v "true") a.is_paper_trading;
  }

  -- The overrides of `general_`, the port being read before the other two.
  unfoldable pub override_general : GeneralConfig → GeneralConfig × Result (Unit {0})
  override_general g = elim (override "SERVER_PORT" stoi (ok g.server_port)) [
    | throws e ↦ (g, throws e)
    | ok port ↦ (
      record {
        server_port = port;
        log_level = override "LOG_LEVEL" (λ v. v) g.log_level;
        debug_mode = override "DEBUG_MODE" (λ v. str_eq v "true") g.debug_mode;
      },
      ok tt,
    )
  ]

  -- `loadFromEnvironment`: what it leaves, also where it throws.
  unfoldable pub load_from_environment : Configuration → Configuration × Result (Unit {0})
  unfolding get_env_var override_alpaca override_general
  load_from_environment c = elim (get_env_var "ALPACA_API_KEY") [
    | throws e ↦ (c, throws e)
    | ok key ↦
        let keyed = record c { alpaca = record (c.alpaca) { api_key = key } } in
        elim (get_env_var "ALPACA_API_SECRET") [
          | throws e ↦ (keyed, throws e)
          | ok secret ↦
              let alpaca = override_alpaca (record (keyed.alpaca) { api_secret = secret }) in
              let (general, r) = override_general c.general in
              (record c { alpaca = alpaca; general = general }, r)
        ]
  ]

-- `validateConfiguration`.
unfoldable pub validate_configuration : Configuration → Result (Unit {0})
validate_configuration c =
    if str_eq c.alpaca.api_key "" || str_eq c.alpaca.api_secret ""
    then throws
        "Alpaca API credentials are required. Set ALPACA_API_KEY and ALPACA_API_SECRET environment variables."
    else if str_eq c.alpaca.data_url ""
    then throws "Alpaca data URL is required."
    else ok tt

-- `main`: load, then validate. What it leaves, and whether the market data feed is then started.
unfoldable pub configure :
    (String → Option String) → Configuration → Configuration × Result (Unit {0})
unfolding load_from_environment validate_configuration
configure env c =
    let (loaded, r) = load_from_environment env c in
    elim r [ throws e ↦ (loaded, throws e) | ok u ↦ (loaded, validate_configuration loaded) ]
