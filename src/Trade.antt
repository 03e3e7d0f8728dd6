-- ===== src/Trade.antt =====
-- broker/domain/trade_status.py: how the position status that a worker reports maps to the status of
-- a trade, and which move of a trade would be a downgrade; with the guard that
-- `upsert_by_position_event` of broker/db/repository/trade.py puts before the row of a trade.
pub mod Lifecycle
pub mod Events
pub mod Rows
pub mod Written
pub mod Standings
pub mod Repeats
pub mod Queries
pub mod Reports
pub mod Deliveries
pub mod Settling
use algo_trading_broker.Prelude.{
  ℕ, String, Bool, true, false, ◌||◌, Option, none, some, List, [], ◌∷◌, ltb, if◌then◌else◌, ◌==◌,
  string_eq,
}

pub data TradeStatus : Type 0 where
  opened rejected partially_closed closed flat : TradeStatus

unfoldable pub to_trade_status : String → Option TradeStatus
to_trade_status s =
    if s == "OPENED"
    then some TradeStatus.opened
    else if s == "REJECTED"
    then some TradeStatus.rejected
    else if s == "TP1"
    then some TradeStatus.partially_closed
    else if s == "TP2"
    then some TradeStatus.closed
    else if s == "SL"
    then some TradeStatus.closed
    else if s == "R_SL"
    then some TradeStatus.closed
    else if s == "TERMINAL_CLOSED"
    then some TradeStatus.closed
    else if s == "FORCED_CLOSED"
    then some TradeStatus.closed
    else if s == "FLATTED"
    then some TradeStatus.flat
    else none

unfoldable pub is_open : String → Bool
is_open s = s == "OPENED" || s == "TP1"

-- One more than the source's numbers, of which that of REJECTED is -1.
abbrev pub lifecycle_order : TradeStatus → ℕ
lifecycle_order TradeStatus.rejected = 0
lifecycle_order TradeStatus.opened = 1
lifecycle_order TradeStatus.partially_closed = 2
lifecycle_order TradeStatus.closed = 3
lifecycle_order TradeStatus.flat = 3

unfoldable pub is_downgrade : TradeStatus → TradeStatus → Bool
is_downgrade new_status current_status =
    ltb (lifecycle_order new_status) (lifecycle_order current_status)

-- The two columns of a trade that its lifecycle is about.
pub record Standing : Type 0 where
  pub status : TradeStatus
  pub is_running : Bool

abbrev pub standing_after : Standing → String → Option TradeStatus → Standing
standing_after row s none = row
standing_after row s (some new_status) =
    if is_downgrade new_status row.status
    then row
    else record { status = new_status; is_running = is_open s }

-- What an event with that position status makes of the columns of a stored trade.
unfoldable pub advance : Standing → String → Standing
unfolding to_trade_status is_open is_downgrade
advance row s = standing_after row s (to_trade_status s)

unfoldable pub advance_all : Standing → List String → Standing
unfolding advance
advance_all row [] = row
advance_all row (s ∷ ss) = advance_all (advance row s) ss
