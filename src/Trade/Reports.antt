-- ===== src/Trade/Reports.antt =====
-- broker/services/nats_service.py, `TradeEventConsumer`: how one TRADE message is handled and
-- settled. What its bytes decode to is data here, and `upsert_by_position_event` fails as the
-- report of that delivery says. The cards and the broadcast are handed what was applied; when they
-- fail nothing here changes.
use algo_trading_broker.Prelude.{
  ℕ, zero, suc, Bool, true, false, Option, none, some, List, [], ◌∷◌, ◌++◌, leb, if◌then◌else◌,
}
use algo_trading_broker.Worker.{Settlement}
use algo_trading_broker.Trade.Events.{PositionEvent, Book}
use algo_trading_broker.Trade.Rows.{Upsert, raised}
use algo_trading_broker.Trade.Standings.{Report, apply_report}

pub data TradeOutcome : Type 0 where
  persisted unreadable retry : TradeOutcome

abbrev pub trade_max_deliveries : ℕ
trade_max_deliveries = 720

-- The trades, and what was handed to the cards and the broadcast.
pub record Ledger : Type 0 where
  pub book : Book
  pub handed : List (PositionEvent × Upsert)

abbrev pub after_upsert : PositionEvent → Upsert × Book → Ledger → TradeOutcome × Ledger
after_upsert event (raised, book) l =
    (TradeOutcome.retry, record { book = book; handed = l.handed })
after_upsert event (trade, book) l =
    (TradeOutcome.persisted, record { book = book; handed = l.handed ++ (event, trade) ∷ [] })

-- How the call of one delivery ends, with its ids and its clock, and whether the ack, NAK or term
-- that the broker then sends arrives; when it does not, that is only logged.
pub record Delivered : Type 0 where
  pub up : Bool
  pub account_new : ℕ
  pub trade_new : ℕ
  pub now : ℕ
  pub settle_up : Bool

abbrev pub report_of : PositionEvent → Delivered → Report
report_of event d = record {
  event = event;
  up = d.up;
  account_new = d.account_new;
  trade_new = d.trade_new;
  now = d.now;
}

-- `none` is a message that is no report.
unfoldable pub handle_subject_trade :
    Option PositionEvent → Delivered → Ledger → TradeOutcome × Ledger
handle_subject_trade none d l = (TradeOutcome.unreadable, l)
handle_subject_trade (some event) d l =
    after_upsert event (apply_report (report_of event d) l.book) l

abbrev pub settle : ℕ → TradeOutcome → Settlement
settle deliveries TradeOutcome.persisted = Settlement.ack
settle deliveries TradeOutcome.unreadable = Settlement.term
settle deliveries TradeOutcome.retry =
    if leb trade_max_deliveries deliveries then Settlement.term else Settlement.nak

abbrev pub settle_outcome : ℕ → TradeOutcome × Ledger → Settlement × Ledger
settle_outcome deliveries x = (settle deliveries x.0, x.1)

unfoldable pub handle_report : Option PositionEvent → Delivered → ℕ → Ledger → Settlement × Ledger
handle_report content d deliveries l = settle_outcome deliveries (handle_subject_trade content d l)

-- JetStream delivers a message again after a NAK, and after an answer that did not arrive.
abbrev pub unless_again :
    Bool → Settlement × Ledger → Option Settlement × Ledger → Option Settlement × Ledger
unless_again false (t, l) later = later
unless_again true (Settlement.nak, l) later = later
unless_again true (Settlement.ack, l) later = (some Settlement.ack, l)
unless_again true (Settlement.term, l) later = (some Settlement.term, l)

-- At most `fuel` deliveries of one message from the k-th on: `passes n` is what the n-th finds.
-- `none` is a message that they leave unsettled.
unfoldable pub deliver_report :
    Option PositionEvent → (ℕ → Delivered) → (fuel k : ℕ) → Ledger → Option Settlement × Ledger
deliver_report content passes zero k l = (none, l)
deliver_report content passes (suc fuel) k l =
    let this = handle_report content (passes k) k l in
    unless_again (passes k).settle_up this (deliver_report content passes fuel (suc k) this.1)
