-- ===== src/Trade/Rows.antt =====
-- broker/db/repository/trade.py and broker/schemas/trade_event_schema.py: the report of a worker on
-- one of its positions, the row of a trade, and how the first makes the second. Amounts are
-- integers; a select takes rows in the order of insertion; `up` says whether the session commits.
-- A write that the unique constraint of a table refuses raises, and so does the insert of an
-- action that is no member of its enum; what raises leaves both tables as they are.
use algo_trading_broker.Prelude.{
  ℕ, String, Bool, true, false, not, ◌&&◌, ◌||◌, Option, none, some, List, [], ◌∷◌, ◌++◌, is_some,
  or_else, if◌then◌else◌, ◌==◌, nat_eq, string_eq, option_eq,
}
use algo_trading_broker.Prelude.Texts.{Text, codes, upper, text_eq}
use algo_trading_broker.Prelude.Finds.{any, find, update_first}
use algo_trading_broker.Core.{SignalAction, action_value}
use algo_trading_broker.Accounts.{Market, market_eq, Account, is_worker, is_exactly}
use algo_trading_broker.Trade.{TradeStatus, to_trade_status, is_open, is_downgrade}
use algo_trading_broker.Trade.Events.{
  PositionEvent, TradeRow, Book, to_last_action, event_price, given,
}

abbrev pub refresh_account : PositionEvent → ℕ → Account → Account
refresh_account ev now a = record a {
  account_name = given ev.account_name a.account_name;
  market = ev.market;
  gateway = given ev.gateway a.gateway;
  account_balance = given ev.account_balance a.account_balance;
  last_activity_at = some now;
}

abbrev pub first_account : PositionEvent → ℕ → ℕ → Account
first_account ev new_id now = record {
  id = new_id;
  account_id = ev.account_id;
  account_name = ev.account_name;
  account_balance = ev.account_balance;
  market = ev.market;
  gateway = ev.gateway;
  last_activity_at = some now;
  settings = [];
}

abbrev pub of_event : PositionEvent → Account → Bool
of_event ev a = is_worker ev.account_id ev.market ev.gateway a

-- A row that gets its gateway now meets another that has it.
abbrev pub account_clash : PositionEvent → Account → List Account → Bool
account_clash ev row accounts = elim ev.gateway [
  | none ↦ false
  | some g ↦ not (is_some row.gateway) && any (is_exactly ev.account_id ev.market g) accounts
]

abbrev pub upsert_account_at :
    PositionEvent → ℕ → ℕ → List Account → Option Account → Option (List Account)
upsert_account_at ev new_id now accounts none =
    if any (λ a. a.id == new_id) accounts
    then none
    else some (accounts ++ first_account ev new_id now ∷ [])
upsert_account_at ev new_id now accounts (some row) =
    if account_clash ev row accounts
    then none
    else some (update_first (of_event ev) (refresh_account ev now) accounts)

-- `_upsert_account`; `none` where it raises.
unfoldable pub upsert_account : PositionEvent → ℕ → ℕ → List Account → Option (List Account)
upsert_account ev new_id now accounts =
    upsert_account_at ev new_id now accounts (find (of_event ev) accounts)

-- What tells the trade that an event is about.
abbrev pub TradeKey : Type 0
TradeKey = String × String × Market × Option String

abbrev pub key_of : PositionEvent → TradeKey
key_of ev = (ev.account_id, ev.ref_source_id, ev.market, ev.gateway)

unfoldable pub is_trade : TradeKey → TradeRow → Bool
is_trade (account_id, ref, market, gateway) t =
    t.account_id == account_id
    && (t.ref_id == some ref
        && (t.market == some market
            && (elim gateway [ none ↦ false | some g ↦ t.gateway == some g ]
                || not (is_some t.gateway))))

abbrev pub is_trade_of : PositionEvent → TradeRow → Bool
is_trade_of ev t = is_trade (key_of ev) t

abbrev pub has_trade_key : PositionEvent → String → TradeRow → Bool
has_trade_key ev g t =
    t.account_id == ev.account_id
    && (t.ref_id == some ev.ref_source_id && (t.market == some ev.market && t.gateway == some g))

abbrev pub trade_clash : PositionEvent → TradeRow → List TradeRow → Bool
trade_clash ev row trades = elim ev.gateway [
  | none ↦ false
  | some g ↦ not (is_some row.gateway) && any (has_trade_key ev g) trades
]

-- The assignments to a row that is there.
abbrev pub assign : PositionEvent → TradeStatus → TradeRow → TradeRow
assign ev status t = record t {
  status = status;
  last_action = to_last_action ev.status;
  is_running = is_open ev.status;
  price = event_price ev;
  quantity = ev.volume;
  market = some ev.market;
  gateway = given ev.gateway t.gateway;
  reject_reason = given ev.reject_reason t.reject_reason;
  comment = given ev.comment t.comment;
  account_balance = given ev.account_balance t.account_balance;
  gateway_return_code = given ev.gateway_return_code t.gateway_return_code;
}

abbrev pub new_trade : PositionEvent → TradeStatus → ℕ → TradeRow
new_trade ev status new_id = record {
  id = new_id;
  account_id = ev.account_id;
  market = some ev.market;
  gateway = ev.gateway;
  account_leverage = ev.account_leverage;
  account_balance_init = ev.account_balance;
  account_balance = ev.account_balance;
  strategy = ev.strategy;
  strategy_code = or_else ev.strategy_code "";
  ref_id = some ev.ref_source_id;
  symbol = ev.symbol;
  action = upper ev.action;
  price = event_price ev;
  quantity = ev.volume;
  sl = ev.sl;
  tp1 = ev.tp1;
  tp2 = ev.tp2;
  is_running = is_open ev.status;
  risk_percent = ev.risk_percent;
  comment = ev.comment;
  gateway_return_code = ev.gateway_return_code;
  status = status;
  last_action = to_last_action ev.status;
  reject_reason = ev.reject_reason;
}

-- A member of `SignalActionEnum`, by its name.
unfoldable pub is_action : Text → Bool
is_action t =
    any (λ a. t == codes (action_value a))
      (SignalAction.long ∷ SignalAction.short ∷ SignalAction.tp1 ∷ SignalAction.tp2
        ∷ SignalAction.r_sl ∷ SignalAction.sl ∷ SignalAction.flat ∷ [])

-- `none` where it raises, and the rows with the one that is answered.
abbrev pub upsert_trade_at :
    PositionEvent
    → TradeStatus
    → ℕ
    → List TradeRow
    → Option TradeRow
    → Option (TradeRow × List TradeRow)
upsert_trade_at ev status new_id trades none =
    if is_action (upper ev.action) && not (any (λ t. t.id == new_id) trades)
    then some (new_trade ev status new_id, trades ++ new_trade ev status new_id ∷ [])
    else none
upsert_trade_at ev status new_id trades (some row) =
    if is_downgrade status row.status
    then some (row, trades)
    else if trade_clash ev row trades
    then none
    else some (assign ev status row, update_first (is_trade_of ev) (assign ev status) trades)

pub data Upsert : Type 0 where
  ignored raised : Upsert
  stored : TradeRow → Upsert

abbrev pub commit :
    Bool → Book → Option (List Account) → Option (TradeRow × List TradeRow) → Upsert × Book
commit true b (some accounts) (some x) = (stored x.0, record { trades = x.1; accounts = accounts })
commit _ b _ _ = (raised, b)

abbrev pub upsert_known :
    Bool
    → PositionEvent
    → (account_new trade_new now : ℕ) → Book
    → Option TradeStatus
    → Upsert × Book
upsert_known up ev account_new trade_new now b none = (ignored, b)
upsert_known up ev account_new trade_new now b (some status) =
    commit up b (upsert_account ev account_new now b.accounts)
      (upsert_trade_at ev status trade_new b.trades (find (is_trade_of ev) b.trades))

unfoldable pub upsert_by_position_event :
    Bool → PositionEvent → (account_new trade_new now : ℕ) → Book → Upsert × Book
upsert_by_position_event up ev account_new trade_new now b =
    upsert_known up ev account_new trade_new now b (to_trade_status ev.status)
