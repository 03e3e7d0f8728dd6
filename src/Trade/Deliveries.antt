-- ===== src/Trade/Deliveries.antt =====
-- What one delivery of a TRADE message does, and what the deliveries after one that applied it do.
use mathlib.Core.List.{append-nil, append_assoc}
use mathlib.Core.Path.{subst}
use algo_trading_broker.Prelude.{
  ℕ, zero, suc, ◌≤◌, ◌≡◌, inl, inr, refl, sym, ap, ◌∙◌, All, Bool, Option, true, false, some, List,
  [], ◌∷◌, ◌++◌, leb, if◌then◌else◌, arith, Bool-cases, nat_beq,
}
use algo_trading_broker.Worker.{Settlement}
use algo_trading_broker.Trade.Events.{PositionEvent, Book}
use algo_trading_broker.Trade.Rows.{Upsert, ignored, raised, stored}
use algo_trading_broker.Trade.Standings.{Report, apply_report, is_raised, apply_report-raised}
use algo_trading_broker.Trade.Repeats.{apply_report-again}
use algo_trading_broker.Trade.Reports.{
  TradeOutcome, trade_max_deliveries, Ledger, after_upsert, Delivered, report_of,
  handle_subject_trade, settle_outcome, handle_report, unless_again, deliver_report,
}

-- The call of that delivery raises.
abbrev pub Fails : PositionEvent → Delivered → Book → Type 0
Fails event d b = is_raised (apply_report (report_of event d) b).0 ≡ true

-- The tables after that delivery, and what it hands on.
abbrev pub applied : PositionEvent → Delivered → Ledger → Ledger
applied event d l = record {
  book = (apply_report (report_of event d) l.book).1;
  handed = l.handed ++ (event, (apply_report (report_of event d) l.book).0) ∷ [];
}

-- Later deliveries of that report left the trades alone and did no more than hand it on again.
abbrev pub Repeated : PositionEvent → Ledger → Ledger → Type 0
Repeated event l l' =
    (l'.book.trades ≡ l.book.trades)
    × (more : List (PositionEvent × Upsert)) × (l'.handed ≡ l.handed ++ more)
    × All (λ h. h.0 ≡ event) more

after_upsert-applied :
    (event : PositionEvent) (x : Upsert × Book) (l : Ledger)
    → is_raised x.0 ≡ false
    → after_upsert event x l
      ≡ (TradeOutcome.persisted, record { book = x.1; handed = l.handed ++ (event, x.0) ∷ [] })
after_upsert-applied event (ignored, b) l h = refl
after_upsert-applied event (raised, b) l h = cc
after_upsert-applied event (stored t, b) l h = refl

after_upsert-raised :
    (event : PositionEvent) (x : Upsert × Book) (l : Ledger)
    → is_raised x.0 ≡ true
    → x.1 ≡ l.book
    → after_upsert event x l ≡ (TradeOutcome.retry, l)
after_upsert-raised event (ignored, b) l h e = cc
after_upsert-raised event (raised, b) l h e =
    ap (λ c. (TradeOutcome.retry, record { book = c; handed = l.handed })) e
after_upsert-raised event (stored t, b) l h e = cc

pub handled_failed :
    (event : PositionEvent) (d : Delivered) (k : ℕ) (l : Ledger)
    → Fails event d l.book
    → handle_report (some event) d k l
      ≡ ((if leb trade_max_deliveries k then Settlement.term else Settlement.nak), l)
unfolding handle_report handle_subject_trade
handled_failed event d k l h = ap (settle_outcome k) (
    after_upsert-raised event (apply_report (report_of event d) l.book) l h
      (apply_report-raised (report_of event d) l.book h))

pub handled_applied :
    (event : PositionEvent) (d : Delivered) (k : ℕ) (l : Ledger)
    → is_raised (apply_report (report_of event d) l.book).0 ≡ false
    → handle_report (some event) d k l ≡ (Settlement.ack, applied event d l)
unfolding handle_report handle_subject_trade
handled_applied event d k l h =
    ap (settle_outcome k) (after_upsert-applied event (apply_report (report_of event d) l.book) l h)

pub from_here : (P : ℕ → Type 0) (k i : ℕ) → P k → (suc k ≤ i → P i) → k ≤ i → P i
from_here P k i here next h = elim (Bool-cases (nat_beq k i)) [
  | inl e ↦ subst P (ground (arith, e)) here
  | inr e ↦ next (ground (arith, e, h))
]

-- The tables are those that a delivery of that report left.
abbrev pub HasApplied : PositionEvent → Book → Type 0
HasApplied event c =
    (r : Report) × (b : Book) × (r.event ≡ event)
    × (is_raised (apply_report r b).0 ≡ false)
    × (c ≡ (apply_report r b).1)

same-trades :
    (event : PositionEvent) (d : Delivered) (c : Book)
    → HasApplied event c
    → (apply_report (report_of event d) c).1.trades ≡ c.trades
same-trades event d c (r, b, e, h, same) =
    subst (λ t. (apply_report (report_of event d) t).1.trades ≡ t.trades) (sym same)
      (apply_report-again r (report_of event d) b (sym e) h)

unless_again-either :
    (P : Option Settlement × Ledger → Type 0) (up : Bool) (t : Settlement) (l : Ledger)
    (later : Option Settlement × Ledger)
    → ((o : Option Settlement) → P (o, l))
    → P later
    → P (unless_again up (t, l) later)
unless_again-either P false t l later stop next = next
unless_again-either P true Settlement.nak l later stop next = next
unless_again-either P true Settlement.ack l later stop next = stop (some Settlement.ack)
unless_again-either P true Settlement.term l later stop next = stop (some Settlement.term)

Repeated-refl : (event : PositionEvent) (l : Ledger) → Repeated event l l
Repeated-refl event l = (refl, [], sym (append-nil l.handed), tt)

Repeated-applied :
    (event : PositionEvent) (d : Delivered) (l l' : Ledger)
    → HasApplied event l.book
    → Repeated event (applied event d l) l'
    → Repeated event l l'
Repeated-applied event d l l' h (t, more, e, a) =
    let one : PositionEvent × Upsert = (event, (apply_report (report_of event d) l.book).0) in
    (
      t ∙ same-trades event d l.book h,
      one ∷ more,
      e ∙ append_assoc l.handed (one ∷ []) more,
      (refl, a),
    )

pub repeats :
    (event : PositionEvent) (passes : ℕ → Delivered) (fuel k : ℕ) (l : Ledger)
    → HasApplied event l.book
    → Repeated event l (deliver_report (some event) passes fuel k l).1
unfolding deliver_report
repeats event passes zero k l h = Repeated-refl event l
repeats event passes (suc fuel) k l h =
    let later = λ (m : Ledger). deliver_report (some event) passes fuel (suc k) m in
    let next = λ (y : Settlement × Ledger). unless_again (passes k).settle_up y (later y.1) in
    elim (Bool-cases (is_raised (apply_report (report_of event (passes k)) l.book).0)) [
      | inl e ↦
          let t = if leb trade_max_deliveries k then Settlement.term else Settlement.nak in
          subst (λ y. Repeated event l (next y).1) (sym (handled_failed event (passes k) k l e))
            (unless_again-either (λ x. Repeated event l x.1) (passes k).settle_up t l (later l)
              (λ o. Repeated-refl event l) (repeats event passes fuel (suc k) l h))
      | inr e ↦
          let m = applied event (passes k) l in
          let there : HasApplied event m.book =
            (report_of event (passes k), l.book, refl, e, refl) in
          subst (λ y. Repeated event l (next y).1) (sym (handled_applied event (passes k) k l e))
            (unless_again-either (λ x. Repeated event l x.1) (passes k).settle_up Settlement.ack m
              (later m) (λ o. Repeated-applied event (passes k) l m h (Repeated-refl event m))
              (Repeated-applied event (passes k) l (later m).1 h
                (repeats event passes fuel (suc k) m there)))
    ]
