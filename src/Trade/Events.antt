-- ===== src/Trade/Events.antt =====
-- broker/schemas/trade_event_schema.py and the rows of broker/db/models.py that a report makes.
use algo_trading_broker.Prelude.{
  ℕ, String, Bool, true, not, Option, none, some, List, is_some, if◌then◌else◌, ◌==◌, nat_eq,
  string_eq, option_eq,
}
use algo_trading_broker.Prelude.Ints.{ℤ, pos, negsuc}
use algo_trading_broker.Prelude.Texts.{Text, text_eq}
use algo_trading_broker.Accounts.{Market, market_eq, Account}
use algo_trading_broker.Trade.{TradeStatus, to_trade_status}

pub record PositionEvent : Type 0 where
  pub market : Market
  pub strategy : String
  pub strategy_code : Option String
  pub ref_source_id : String
  pub symbol : String
  pub action : Text
  pub volume : ℤ
  pub sl : Option ℤ
  pub tp1 : Option ℤ
  pub tp2 : Option ℤ
  pub risk_percent : ℤ
  pub opened_price : ℤ
  pub closed_price : Option ℤ
  pub status : String
  pub reject_reason : Option String
  pub gateway_return_code : Option ℤ
  pub comment : Option String
  pub account_leverage : Option ℕ
  pub account_balance : Option ℤ
  pub account_id : String
  pub account_name : Option String
  pub gateway : Option String

pub record TradeRow : Type 0 where
  pub id : ℕ
  pub account_id : String
  pub market : Option Market
  pub gateway : Option String
  pub account_leverage : Option ℕ
  pub account_balance_init : Option ℤ
  pub account_balance : Option ℤ
  pub strategy : String
  pub strategy_code : String
  pub ref_id : Option String
  pub symbol : String
  pub action : Text
  pub price : ℤ
  pub quantity : ℤ
  pub sl : Option ℤ
  pub tp1 : Option ℤ
  pub tp2 : Option ℤ
  pub is_running : Bool
  pub risk_percent : ℤ
  pub comment : Option String
  pub gateway_return_code : Option ℤ
  pub status : TradeStatus
  pub last_action : Option String
  pub reject_reason : Option String

pub record Book : Type 0 where
  pub trades : List TradeRow
  pub accounts : List Account

-- `to_last_action`.
unfoldable pub to_last_action : String → Option String
to_last_action s =
    if is_some (to_trade_status s) then some (if s == "FLATTED" then "FLAT" else s) else none

abbrev pub is_nonzero : ℤ → Bool
is_nonzero (pos n) = not (n == 0)
is_nonzero (negsuc n) = true

-- A close price of 0 is none.
unfoldable pub event_price : PositionEvent → ℤ
event_price ev = elim ev.closed_price [
  | none ↦ ev.opened_price
  | some c ↦ if is_nonzero c then c else ev.opened_price
]

-- `if value is not None: column = value`.
abbrev pub given {ℓ} : {A : Type ℓ} → Option A → Option A → Option A
given none old = old
given (some v) old = some v
