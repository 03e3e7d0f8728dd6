-- ===== src/Trade/Repeats.antt =====
-- A report that is delivered again at once. With a report of another status on the same trade in
-- between, CLOSED and FLAT are of one rank and replace each other, so nothing is said of that here.
use mathlib.Core.Path.{subst}
use algo_trading_broker.Prelude.{
  ℕ, ◌≡◌, ◌≢◌, refl, sym, ap, ◌∙◌, Bool, true, false, Option, none, some, List, ◌⊎◌, inl, inr,
  Bool-cases,
}
use algo_trading_broker.Prelude.Finds.{find, update_first-fixed}
use algo_trading_broker.Trade.{TradeStatus, to_trade_status, is_downgrade}
use algo_trading_broker.Trade.Events.{PositionEvent, TradeRow, Book, given}
use algo_trading_broker.Trade.Rows.{
  is_trade_of, assign, new_trade, upsert_trade_at, upsert_account, raised, upsert_known,
  upsert_by_position_event,
}
use algo_trading_broker.Trade.Written.{
  Written, inserted, kept, assigned, upsert_trade-Written, find-new, find-assigned, commit-cases,
}
use algo_trading_broker.Trade.Standings.{
  Report, apply_report, is_raised, is_raised-false, apply_report-raised,
}

given-twice : {A : Type 0} (o x : Option A) → given o (given o x) ≡ given o x
given-twice none x = refl
given-twice (some v) x = refl

given_self : {A : Type 0} (o : Option A) → given o o ≡ o
given_self none = refl
given_self (some v) = refl

assign-twice :
    (ev : PositionEvent) (st : TradeStatus) (t : TradeRow)
    → assign ev st (assign ev st t) ≡ assign ev st t
assign-twice ev st t = cc (
  given-twice ev.gateway t.gateway,
  given-twice ev.reject_reason t.reject_reason,
  given-twice ev.comment t.comment,
  given-twice ev.account_balance t.account_balance,
  given-twice ev.gateway_return_code t.gateway_return_code,
)

assign-new :
    (ev : PositionEvent) (st : TradeStatus) (i : ℕ)
    → assign ev st (new_trade ev st i) ≡ new_trade ev st i
assign-new ev st i = cc (
  given_self ev.gateway,
  given_self ev.reject_reason,
  given_self ev.comment,
  given_self ev.account_balance,
  given_self ev.gateway_return_code,
)

-- A row on which the event has nothing left to do.
IsDone : PositionEvent → TradeStatus → TradeRow → Type 0
IsDone ev st t = (is_downgrade st t.status ≡ true) ⊎ (assign ev st t ≡ t)

Written-again :
    (ev : PositionEvent) (st : TradeStatus) (i : ℕ) (trades : List TradeRow) (t : TradeRow)
    (x : TradeRow × List TradeRow)
    → find (is_trade_of ev) trades ≡ some t
    → IsDone ev st t
    → Written ev st i trades x (some t)
    → x.1 ≡ trades
unfolding IsDone
Written-again ev st i trades t x f d (kept e h) = ap (λ y. y.1) h
Written-again ev st i trades t x f (inl d) (assigned e h) = cc
Written-again ev st i trades t x f (inr d) (assigned e h) =
    ap (λ y. y.1) h ∙ update_first-fixed (is_trade_of ev) (assign ev st) trades t f d

IsDone-after :
    (ev : PositionEvent) (st : TradeStatus) (i : ℕ) (trades : List TradeRow)
    (found : Option TradeRow) (x : TradeRow × List TradeRow)
    → find (is_trade_of ev) trades ≡ found
    → Written ev st i trades x found
    → (t : TradeRow) × (find (is_trade_of ev) x.1 ≡ some t) × IsDone ev st t
unfolding IsDone
IsDone-after ev st i trades none x f (inserted h) = (
  new_trade ev st i,
  ap (λ y. find (is_trade_of ev) y.1) h ∙ find-new ev st i trades f,
  inr (assign-new ev st i),
)
IsDone-after ev st i trades (some row) x f (kept d h) =
    (row, ap (λ y. find (is_trade_of ev) y.1) h ∙ f, inl d)
IsDone-after ev st i trades (some row) x f (assigned d h) = (
  assign ev st row,
  ap (λ y. find (is_trade_of ev) y.1) h ∙ find-assigned ev st trades row f,
  inr (assign-twice ev st row),
)

known-again :
    (ev : PositionEvent) (i j now i' j' later : ℕ) (up up' : Bool) (b : Book)
    (status : Option TradeStatus)
    → (upsert_known up ev i j now b status).0 ≢ raised
    → (upsert_known up' ev i' j' later (upsert_known up ev i j now b status).1 status).0 ≢ raised
    → (upsert_known up' ev i' j' later (upsert_known up ev i j now b status).1 status).1.trades
      ≡ (upsert_known up ev i j now b status).1.trades
known-again ev i j now i' j' later up up' b none h g = refl
known-again ev i j now i' j' later up up' b (some st) h g =
    let c = (upsert_known up ev i j now b (some st)).1 in
    let (l, y, ha, hx, done) =
      commit-cases up b (upsert_account ev i now b.accounts)
        (upsert_trade_at ev st j b.trades (find (is_trade_of ev) b.trades)) h in
    let (t, ft, dt) =
      IsDone-after ev st j b.trades (find (is_trade_of ev) b.trades) y refl
        (upsert_trade-Written ev st j b.trades (find (is_trade_of ev) b.trades) y hx) in
    let (l', y', ha', hx', done') =
      commit-cases up' c (upsert_account ev i' later c.accounts)
        (upsert_trade_at ev st j' c.trades (find (is_trade_of ev) c.trades)) g in
    let there : find (is_trade_of ev) c.trades ≡ some t =
      ap (λ z. find (is_trade_of ev) z.1.trades) done ∙ ft in
    ap (λ z. z.1.trades) done'
    ∙ Written-again ev st j' c.trades t y' there dt (
        subst (Written ev st j' c.trades y') there
          (upsert_trade-Written ev st j' c.trades (find (is_trade_of ev) c.trades) y' hx'))

-- Once a report is applied, a delivery of the same report directly after it leaves the trades as
-- they are, whether or not its call raises.
pub apply_report-again :
    (r s : Report) (b : Book)
    → s.event ≡ r.event
    → is_raised (apply_report r b).0 ≡ false
    → (apply_report s (apply_report r b).1).1.trades ≡ (apply_report r b).1.trades
unfolding apply_report upsert_by_position_event
apply_report-again r s b e h =
    let c = (apply_report r b).1 in
    elim (Bool-cases (is_raised (apply_report s c).0)) [
      | inl f ↦ ap (λ z. z.trades) (apply_report-raised s c f)
      | inr f ↦
          subst
            (λ v.
              (upsert_by_position_event s.up v s.account_new s.trade_new s.now c).0 ≢ raised
              → (upsert_by_position_event s.up v s.account_new s.trade_new s.now c).1.trades
                ≡ c.trades)
            (sym e)
            (known-again r.event r.account_new r.trade_new r.now s.account_new s.trade_new s.now
              r.up s.up b (to_trade_status r.event.status) (is_raised-false (apply_report r b).0 h))
            (is_raised-false (apply_report s c).0 f)
    ]
