-- ===== src/Trade/Lifecycle.antt =====
-- The lifecycle of a stored trade under the events of its worker.
use mathlib.Core.Path.{subst}
use algo_trading_broker.Prelude.{
  ◌≤◌, ◌≡◌, ◌⊎◌, inl, inr, String, Bool, true, false, some, List, [], ◌∷◌, arith, sym, Option-cases,
  Bool-cases, ◌==◌, string_eq,
}
use algo_trading_broker.Trade.{
  TradeStatus, to_trade_status, is_open, lifecycle_order, is_downgrade, Standing, advance,
  advance_all,
}

-- A trade that runs is one that is open or partially closed.
abbrev pub is_live : TradeStatus → Bool
is_live TradeStatus.opened = true
is_live TradeStatus.partially_closed = true
is_live _ = false

abbrev pub Agrees : Standing → Type 0
Agrees row = row.is_running ≡ is_live row.status

at_tp1 : (t : TradeStatus) → to_trade_status "TP1" ≡ some t → is_open "TP1" ≡ is_live t
unfolding to_trade_status is_open
at_tp1 t h = ground arith

other_name :
    (s : String) (t : TradeStatus)
    → (s == "TP1") ≡ false
    → to_trade_status s ≡ some t
    → is_open s ≡ is_live t
unfolding to_trade_status is_open
other_name s t e h = ground (arith, e, h)

is_open-live : (s : String) (t : TradeStatus) → to_trade_status s ≡ some t → is_open s ≡ is_live t
is_open-live s t h = elim (Bool-cases (s == "TP1")) [
  | inl e ↦
      let s' = (string_eq.decides s "TP1").0 e in
      subst (λ c. is_open c ≡ is_live t) (sym s')
        (at_tp1 t (subst (λ c. to_trade_status c ≡ some t) s' h))
  | inr e ↦ other_name s t e h
]

pub advance-Agrees : (row : Standing) (s : String) → Agrees row → Agrees (advance row s)
unfolding advance
advance-Agrees row s a = elim (Option-cases (to_trade_status s)) [
  | inl e ↦ rw (e, advance) a
  | inr (t, e) ↦ elim (Bool-cases (is_downgrade t row.status)) [
    | inl d ↦ rw (e, d, advance) a
    | inr d ↦ rw (e, d, advance) (is_open-live s t e)
  ]
]

pub advance-forward :
    (row : Standing) (s : String)
    → lifecycle_order row.status ≤ lifecycle_order (advance row s).status
unfolding advance is_downgrade
advance-forward row s = elim (Option-cases (to_trade_status s)) [
  | inl e ↦ rw (e, advance) (omega arith)
  | inr (t, e) ↦ elim (Bool-cases (is_downgrade t row.status)) [
    | inl d ↦ rw (e, d, advance) (omega arith)
    | inr d ↦ rw (e, d, advance) (ground arith)
  ]
]

-- Whatever events a worker sends, in any order, known or not: a trade whose `is_running` column
-- tells whether its status is a live one never moves back in its lifecycle, and the column goes
-- on telling that.
pub advance_all-forward :
    (row : Standing) (ss : List String)
    → Agrees row
    → (lifecycle_order row.status ≤ lifecycle_order (advance_all row ss).status)
      × Agrees (advance_all row ss)
unfolding advance_all
advance_all-forward row [] a = (omega arith, a)
advance_all-forward row (s ∷ ss) a =
    let rest = advance_all-forward (advance row s) ss (advance-Agrees row s a) in
    (omega (arith, rest.0, advance-forward row s), rest.1)

-- A trade that is closed or flat, with an `is_running` column that agrees, does not run after
-- any events.
pub advance_all-ended :
    (row : Standing) (ss : List String)
    → Agrees row
    → (row.status ≡ TradeStatus.closed) ⊎ (row.status ≡ TradeStatus.flat)
    → (advance_all row ss).is_running ≡ false
advance_all-ended row ss a e = let h = advance_all-forward row ss a in ground (arith, h.0, h.1, e)
