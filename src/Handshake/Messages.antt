-- ===== src/Handshake/Messages.antt =====
-- The messages of a handshake, of broker/schemas/publisher_schema.py, and what its consumer keeps and finds.
use algo_trading_broker.Prelude.{ℕ, String, Bool, Option, List, string_eq}
use algo_trading_broker.Prelude.Ints.{ℤ}
use algo_trading_broker.Prelude.Texts.{Text}
use algo_trading_broker.Webhook.{TradingSignal}
use algo_trading_broker.Signals.{Table}
use algo_trading_broker.Accounts.{Market, market_eq, Registry}
use algo_trading_broker.Handshake.Settings.{AccountSettings, MagicText}

pub record WorkerConnected : Type 0 where
  pub account_id : String
  pub market : Market
  pub gateway : String
  pub strategies : List String

-- `data.get("account_id")` of a payload that was refused: no value or null, a text, or any other
-- JSON value.
pub data IdValue : Type 0 where
  no_id other_value : IdValue
  text_id : String → IdValue

-- What the data of a message decodes to, bytes that are no UTF-8 apart, which raise. With another
-- action it is none of the broker's business.
pub data Body : Type 0 where
  malformed other_action : Body
  refused_payload : IdValue → Body
  connected : WorkerConnected → Body

pub record SystemMessage : Type 0 where
  pub body : Body
  pub reply : Option String

pub record CryptoLeverageConfig : Type 0 where
  pub symbols : List Text
  pub default_leverage : ℕ

pub record Ack : Type 0 where
  pub account_id : String
  pub strategy_magic_map : List (String × ℤ)
  pub retry_signals : List TradingSignal
  pub settings : AccountSettings
  pub crypto_leverage_init : Option CryptoLeverageConfig

-- A reply goes to the inbox of the request, an acknowledgement without one to the shared subject.
pub data SystemReply : Type 0 where
  ack : Option String → Ack → SystemReply
  error : String → Option String → String → SystemReply

-- The rows of `broker_settings` that a handshake reads.
pub record Stored : Type 0 where
  pub crypto_symbols : Option String
  pub crypto_leverage : Option String
  pub magic_map : MagicText
  pub max_retry_timeout : Option String
  pub max_open_orders : Option String

-- What the consumer finds when it handles a message: the clocks, the tables, the fresh ids, and
-- which of its calls succeed. A setting that cannot be read is one that is not there.
pub record Moment : Type 0 where
  pub monotonic : ℕ
  pub now : ℕ
  pub stored : Stored
  pub signals : Table
  pub account_new : ℕ
  pub token_new : ℕ
  pub remember_up : Bool
  pub accounts_up : Bool
  pub crypto_up : Bool
  pub magic_up : Bool
  pub retry_up : Bool
  pub cap_up : Bool
  pub signals_up : Bool
  pub publish_up : Bool

-- The registry of accounts, and the two caches with the time of their reads.
pub record Desk : Type 0 where
  pub registry : Registry
  pub crypto_cache : Option ((Option String × Option String) × ℕ)
  pub magic_cache : Option (List (String × ℤ) × ℕ)
