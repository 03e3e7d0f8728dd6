-- ===== src/Examples/Turns.antt =====
-- Dispatches of one cycle, and reports on one trade, in concrete orders.
use algo_trading_broker.Prelude.{
  ℕ, ltb, suc, ◌≤◌, String, ◌≡◌, refl, true, false, none, some, List, [], ◌∷◌, length, get_elem?,
}
use mathlib.Core.Option
use algo_trading_broker.Prelude.Finds.{any, find}
use algo_trading_broker.Prelude.Ints.{pos}
use algo_trading_broker.Prelude.Texts.{codes, upper, upper_char}
use algo_trading_broker.Core.{action_value}
use algo_trading_broker.Accounts.{Market}
use algo_trading_broker.CycleLock.{
  Locks, no_locks, set_object, enter, arrive, LockEvent, arrives, finishes, wakes, cancelled,
  happen, happen_all,
}
use algo_trading_broker.CycleLock.Use.{IsSerial}
use algo_trading_broker.CycleLock.Exclusion.{happen_all-IsSerial, happen_all-one_inside}
use algo_trading_broker.CycleLock.Rounds.{rounds}
use algo_trading_broker.CycleLock.Fairness.{rounds-served}
use algo_trading_broker.CycleLock.Draining.{quiet, served, IsFree, rounds-drained}
use algo_trading_broker.Trade.{TradeStatus, is_open, lifecycle_order, to_trade_status}
use algo_trading_broker.Trade.Events.{TradeRow, PositionEvent, Book}
use algo_trading_broker.Trade.Rows.{
  first_account, new_trade, TradeKey, is_trade, is_action, upsert_account, upsert_by_position_event,
}
use algo_trading_broker.Trade.Written.{standing}
use algo_trading_broker.Trade.Lifecycle.{Agrees}
use algo_trading_broker.Trade.Reports.{Ledger, Delivered}
use algo_trading_broker.Trade.Standings.{
  apply_reports-forward, Report, apply_report, apply_reports, is_raised, taken, track_all,
  apply_reports-track,
}
use algo_trading_broker.Trade.Repeats.{apply_report-again}

abbrev busy_events : List LockEvent
busy_events = arrives 1 ∷ arrives 2 ∷ cancelled 2 0 ∷ arrives 3 ∷ finishes 1 ∷ wakes 0 ∷ []

happen_all-one_inside_example :
    (length (happen_all busy_events no_locks).inside ≤ 1)
    × ((happen_all busy_events no_locks).entry ≡ none
        → (happen_all busy_events no_locks).inside ≡ [])
happen_all-one_inside_example = happen_all-one_inside busy_events

-- The first is inside, the second waits.
abbrev two_arrived : Locks
two_arrived = happen_all (arrives 1 ∷ arrives 2 ∷ []) no_locks

two_arrived-IsSerial : IsSerial two_arrived
two_arrived-IsSerial = happen_all-IsSerial (arrives 1 ∷ arrives 2 ∷ []) no_locks ((λ o. refl), refl)

two_arrived-entry : two_arrived.entry ≡ some 0
unfolding happen_all happen arrive enter set_object
two_arrived-entry = refl

two_arrived-place : get_elem? (two_arrived.objects 0).waiters 0 ≡ some 2
unfolding happen_all happen arrive enter set_object
two_arrived-place = refl

rounds-served_example : (rounds ((3 ∷ 4 ∷ []) ∷ []) two_arrived).inside ≡ (2, 0) ∷ []
rounds-served_example =
    rounds-served 0 0 2 two_arrived ((3 ∷ 4 ∷ []) ∷ [])
      (record {
        serial = two_arrived-IsSerial;
        entry = two_arrived-entry;
        place = two_arrived-place;
      })
      refl

rounds-drained_example :
    (served (length (two_arrived.objects 0).waiters) two_arrived ≡ (two_arrived.objects 0).waiters)
    × IsFree (rounds (quiet (suc (length (two_arrived.objects 0).waiters))) two_arrived)
rounds-drained_example = rounds-drained 0 two_arrived two_arrived-IsSerial two_arrived-entry

abbrev reported : String → PositionEvent
reported status = record {
  market = Market.forex;
  strategy = "trend";
  strategy_code = none;
  ref_source_id = "ref";
  symbol = "XAUUSD";
  action = codes "long";
  volume = pos 1;
  sl = none;
  tp1 = none;
  tp2 = none;
  risk_percent = pos 0;
  opened_price = pos 100;
  closed_price = none;
  status = status;
  reject_reason = none;
  gateway_return_code = none;
  comment = none;
  account_leverage = none;
  account_balance = some (pos 500);
  account_id = "12";
  account_name = none;
  gateway = some "MT5";
}

abbrev report : String → Report
report status = record {
  event = reported status;
  up = true;
  account_new = 1;
  trade_new = 2;
  now = 50;
}

abbrev empty_book : Book
empty_book = record { trades = []; accounts = [] }

abbrev opened_row : TradeRow
opened_row = new_trade (reported "OPENED") TradeStatus.opened 2

abbrev opened_book : Book
opened_book = record {
  trades = opened_row ∷ [];
  accounts = first_account (reported "OPENED") 1 50 ∷ [];
}

abbrev one_key : TradeKey
one_key = ("12", "ref", Market.forex, some "MT5")

apply_reports-track_example :
    Option.map standing (
      find
        (is_trade one_key)
        (apply_reports (report "OPENED" ∷ report "SL" ∷ []) empty_book).trades)
    ≡ track_all
        (Option.map standing (find (is_trade one_key) empty_book.trades))
        (taken (report "OPENED" ∷ report "SL" ∷ []) empty_book)
apply_reports-track_example =
    apply_reports-track one_key (report "OPENED" ∷ report "SL" ∷ []) (refl, (refl, tt)) empty_book

opens : is_raised (apply_report (report "OPENED") empty_book).0 ≡ false
unfolding apply_report upsert_by_position_event to_trade_status upsert_account find any is_action
    upper upper_char action_value
opens = refl

apply_report-again_example :
    (apply_report (report "OPENED") (apply_report (report "OPENED") empty_book).1).1.trades
    ≡ (apply_report (report "OPENED") empty_book).1.trades
apply_report-again_example =
    apply_report-again (report "OPENED") (report "OPENED") empty_book refl opens

opened_row-found : find (is_trade one_key) opened_book.trades ≡ some opened_row
unfolding find is_trade
opened_row-found = refl

opened_row-Agrees : Agrees (standing opened_row)
unfolding is_open
opened_row-Agrees = refl

apply_reports-forward_example :
    (t : TradeRow) × (find
        (is_trade one_key)
        (apply_reports (report "SL" ∷ report "OPENED" ∷ []) opened_book).trades
      ≡ some t)
    × (lifecycle_order TradeStatus.opened ≤ lifecycle_order t.status)
    × Agrees (standing t)
apply_reports-forward_example =
    apply_reports-forward one_key (report "SL" ∷ report "OPENED" ∷ []) (refl, (refl, tt))
      opened_book opened_row opened_row-found opened_row-Agrees

-- The database is down for the first delivery.
abbrev late_passes : ℕ → Delivered
late_passes n = record {
  up = ltb 1 n;
  account_new = 1;
  trade_new = 2;
  now = 50;
  settle_up = ltb 2 n;
}

abbrev empty_ledger : Ledger
empty_ledger = record { book = empty_book; handed = [] }
