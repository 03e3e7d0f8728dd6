-- ===== src/Trade/Settling.antt =====
-- How a TRADE message ends.
use algo_trading_broker.Prelude.{ℕ, ◌≤◌, ◌<◌, ◌≡◌, ◌⊎◌, Option, true, false, none, some}
use algo_trading_broker.Worker.{Settlement}
use algo_trading_broker.Trade.Events.{PositionEvent}
use algo_trading_broker.Trade.Standings.{apply_report, is_raised}
use algo_trading_broker.Trade.Reports.{trade_max_deliveries, Ledger, Delivered, report_of}
use algo_trading_broker.Trade.Deliveries.{Fails, applied, Repeated}

-- One delivery applied the report, all before it having failed: its ack arrived and that was all, or
-- it did not and the later deliveries repeat it. Or every delivery up to the limit failed, and the
-- message was given up with nothing changed, unless that last answer did not arrive.
abbrev pub IsSettled :
    PositionEvent → (ℕ → Delivered) → ℕ → Ledger → Option Settlement × Ledger → Type 0
IsSettled event passes k l x =
    ((n : ℕ) × (k ≤ n)
      × (n ≤ trade_max_deliveries)
      × ((i : ℕ) → k ≤ i → i < n → Fails event (passes i) l.book)
      × (is_raised (apply_report (report_of event (passes n)) l.book).0 ≡ false)
      × ((((passes n).settle_up ≡ true) × (x ≡ (some Settlement.ack, applied event (passes n) l)))
          ⊎ (((passes n).settle_up ≡ false) × Repeated event (applied event (passes n) l) x.1)))
    ⊎ (((i : ℕ) → k ≤ i → i ≤ trade_max_deliveries → Fails event (passes i) l.book)
        × (((passes trade_max_deliveries).settle_up ≡ true) × (x ≡ (some Settlement.term, l))
            ⊎ (((passes trade_max_deliveries).settle_up ≡ false) × (x ≡ (none, l)))))
