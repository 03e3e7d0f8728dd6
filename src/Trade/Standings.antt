-- ===== src/Trade/Standings.antt =====
-- The stored trade goes through the states of the abstract lifecycle.
use mathlib.Core.Option
use mathlib.Core.Path.{subst}
use algo_trading_broker.Prelude.{
  sym, ◌≤◌, ℕ, String, ◌≡◌, ◌≢◌, refl, ap, ◌∙◌, Bool, true, false, Option, none, some, List, [],
  ◌∷◌, if◌then◌else◌, nat_eq, string_eq, option_eq, Bool-cases, inl, inr, All,
}
use algo_trading_broker.Prelude.Finds.{find}
use algo_trading_broker.Accounts.{market_eq, Account}
use algo_trading_broker.Trade.{
  TradeStatus, to_trade_status, Standing, lifecycle_order, advance, advance_all,
}
use algo_trading_broker.Trade.Lifecycle.{Agrees, advance_all-forward}
use algo_trading_broker.Trade.Events.{PositionEvent, TradeRow, Book}
use algo_trading_broker.Trade.Rows.{
  TradeKey, key_of, is_trade, is_trade_of, upsert_trade_at, upsert_account, Upsert, ignored, raised,
  stored, commit, upsert_known, upsert_by_position_event,
}
use algo_trading_broker.Trade.Written.{standing, track, upsert_known-track}

-- One delivery of a report, with the ids and the clock of its call.
pub record Report : Type 0 where
  pub event : PositionEvent
  pub up : Bool
  pub account_new : ℕ
  pub trade_new : ℕ
  pub now : ℕ

unfoldable pub apply_report : Report → Book → Upsert × Book
apply_report r b = upsert_by_position_event r.up r.event r.account_new r.trade_new r.now b

unfoldable pub apply_reports : List Report → Book → Book
apply_reports [] b = b
apply_reports (r ∷ rs) b = apply_reports rs (apply_report r b).1

abbrev pub is_raised : Upsert → Bool
is_raised raised = true
is_raised _ = false

-- The statuses of the reports that did not raise, in their order.
unfoldable pub taken : List Report → Book → List String
taken [] b = []
taken (r ∷ rs) b =
    let rest = taken rs (apply_report r b).1 in
    if is_raised (apply_report r b).0 then rest else r.event.status ∷ rest

unfoldable pub track_all : Option Standing → List String → Option Standing
track_all row [] = row
track_all row (s ∷ ss) = track_all (track row s) ss

commit-raised :
    (up : Bool) (b : Book) (accounts : Option (List Account))
    (x : Option (TradeRow × List TradeRow))
    → (commit up b accounts x).0 ≡ raised
    → (commit up b accounts x).1 ≡ b
commit-raised true b (some l) (some y) h = cc
commit-raised true b (some l) none h = refl
commit-raised true b none x h = refl
commit-raised false b accounts x h = refl

known-raised :
    (up : Bool) (ev : PositionEvent) (i j now : ℕ) (b : Book) (status : Option TradeStatus)
    → (upsert_known up ev i j now b status).0 ≡ raised
    → (upsert_known up ev i j now b status).1 ≡ b
known-raised up ev i j now b none h = cc
known-raised up ev i j now b (some st) h =
    commit-raised up b (upsert_account ev i now b.accounts)
      (upsert_trade_at ev st j b.trades (find (is_trade_of ev) b.trades)) h

is_raised-true : (o : Upsert) → is_raised o ≡ true → o ≡ raised
is_raised-true ignored h = cc
is_raised-true raised h = refl
is_raised-true (stored t) h = cc

pub is_raised-false : (o : Upsert) → is_raised o ≡ false → o ≢ raised
is_raised-false ignored h e = cc
is_raised-false raised h e = cc
is_raised-false (stored t) h e = cc

pub apply_report-track :
    (r : Report) (b : Book)
    → is_raised (apply_report r b).0 ≡ false
    → Option.map standing (find (is_trade_of r.event) (apply_report r b).1.trades)
      ≡ track (Option.map standing (find (is_trade_of r.event) b.trades)) r.event.status
unfolding apply_report upsert_by_position_event
apply_report-track r b h =
    upsert_known-track r.up r.event r.account_new r.trade_new r.now b
      (to_trade_status r.event.status) refl (is_raised-false (apply_report r b).0 h)

pub apply_report-raised :
    (r : Report) (b : Book) → is_raised (apply_report r b).0 ≡ true → (apply_report r b).1 ≡ b
unfolding apply_report upsert_by_position_event
apply_report-raised r b h =
    known-raised r.up r.event r.account_new r.trade_new r.now b (to_trade_status r.event.status)
      (is_raised-true (apply_report r b).0 h)

-- The row of a trade refines the abstract lifecycle: after any reports about that trade, with any
-- of their calls failing, its status and `is_running` columns are those to which the statuses of
-- the reports that did not raise lead, the trade being absent until the first known one.
pub apply_reports-track :
    (k : TradeKey) (rs : List Report)
    → All (λ r. key_of r.event ≡ k) rs
    → (b : Book)
    → Option.map standing (find (is_trade k) (apply_reports rs b).trades)
      ≡ track_all (Option.map standing (find (is_trade k) b.trades)) (taken rs b)
unfolding apply_reports taken track_all
apply_reports-track k [] h b = refl
apply_reports-track k (r ∷ rs) h b =
    let next = apply_reports-track k rs h.1 (apply_report r b).1 in
    let later = taken rs (apply_report r b).1 in
    elim (Bool-cases (is_raised (apply_report r b).0)) [
      | inl e ↦ rw e (
          next
          ∙ ap (λ c. track_all (Option.map standing (find (is_trade k) c.trades)) later)
              (apply_report-raised r b e))
      | inr e ↦ rw e (
          next
          ∙ ap (λ row. track_all row later)
              (subst
                (λ q.
                  Option.map standing (find (is_trade q) (apply_report r b).1.trades)
                  ≡ track (Option.map standing (find (is_trade q) b.trades)) r.event.status)
                h.0 (apply_report-track r b e)))
    ]

track_all-some :
    (row : Standing) (ss : List String) → track_all (some row) ss ≡ some (advance_all row ss)
unfolding track_all track advance_all
track_all-some row [] = refl
track_all-some row (s ∷ ss) = track_all-some (advance row s) ss

the_row :
    (found : Option TradeRow) (st : Standing)
    → Option.map standing found ≡ some st
    → (t : TradeRow) × (found ≡ some t) × (standing t ≡ st)
the_row none st h = cc
the_row (some t) st h = (t, refl, ap (λ o. elim o [ none ↦ st | some x ↦ x ]) h)

-- A stored trade whose `is_running` column tells whether its status is a live one is still stored
-- after any reports about it, with any of their calls failing; it has not moved back in its
-- lifecycle, and the column goes on telling that.
pub apply_reports-forward :
    (k : TradeKey) (rs : List Report)
    → All (λ r. key_of r.event ≡ k) rs
    → (b : Book) (row : TradeRow) → find (is_trade k) b.trades ≡ some row
    → Agrees (standing row)
    → (t : TradeRow) × (find (is_trade k) (apply_reports rs b).trades ≡ some t)
      × (lifecycle_order row.status ≤ lifecycle_order t.status)
      × Agrees (standing t)
apply_reports-forward k rs h b row f a =
    let ss = taken rs b in
    let (t, found, same) =
      the_row (find (is_trade k) (apply_reports rs b).trades) (advance_all (standing row) ss) (
        apply_reports-track k rs h b
        ∙ ap (λ o. track_all (Option.map standing o) ss) f
        ∙ track_all-some (standing row) ss) in
    let (forward, agrees) = advance_all-forward (standing row) ss a in
    (
      t,
      found,
      subst (λ s. lifecycle_order row.status ≤ lifecycle_order s.status) (sym same) forward,
      subst Agrees (sym same) agrees,
    )
