-- ===== src/Signals/Operations.antt =====
-- The invariant of the table and its rows under each operation.
use mathlib.Core.Path.{subst}
use algo_trading_broker.Prelude.{
  ℕ, ◌<◌, ◌≡◌, refl, sym, String, Bool, true, false, Option, none, some, [], ◌∷◌, ◌++◌, arith,
  is_some, or_else, Option-cases, Bool-cases, inl, inr, nat_eq,
}
use algo_trading_broker.Core.{IdText, uuid, malformed}
use algo_trading_broker.Webhook.{WebhookPayload}
use algo_trading_broker.Signals.{
  Signal, Table, find_row, key_taken, new_signal, log_signal, with_row, published_row, failed_row,
  spent_row, mark_published, mark_failed, record_attempt_failure,
}
use algo_trading_broker.Signals.Table.{
  Plain, IsCoherent, IsTable, IsTable-update, IsTable-append_one, find_row-update,
  find_row-append_one,
}

-- The table has a row with that id.
abbrev pub Known : Table → ℕ → Type 0
Known rows i = is_some (find_row i rows) ≡ true

pub published-Plain : Plain published_row
published-Plain = record { same_id = λ r. refl; same_key = λ r. refl }

pub failed-Plain : (now : ℕ) → Plain (failed_row now)
failed-Plain now = record { same_id = λ r. refl; same_key = λ r. refl }

pub spent-Plain : (now : ℕ) → Plain (spent_row now)
spent-Plain now = record { same_id = λ r. ground arith; same_key = λ r. ground arith }

published-IsCoherent : (r : Signal) → IsCoherent r → IsCoherent (published_row r)
published-IsCoherent r h = ground arith

failed-IsCoherent : (now : ℕ) (r : Signal) → IsCoherent r → IsCoherent (failed_row now r)
failed-IsCoherent now r h = ground arith

spent-IsCoherent : (now : ℕ) (r : Signal) → IsCoherent r → IsCoherent (spent_row now r)
spent-IsCoherent now r h = ground arith

module _ (up : Bool) (f : Signal → Signal) (p : Plain f) (rows : Table) where
  with_row-IsTable :
      (signal_id : IdText)
      → ((r : Signal) → IsCoherent r → IsCoherent (f r))
      → IsTable rows
      → IsTable (with_row up signal_id f rows).0
  with_row-IsTable (malformed t) c h = h
  with_row-IsTable (uuid i) c h = elim (Bool-cases up) [
    | inl e ↦ elim (Option-cases (find_row i rows)) [
      | inl n ↦ rw (e, n) h
      | inr (r, s) ↦ rw (e, s) (IsTable-update i f p c rows h)
    ]
    | inr e ↦ rw e h
  ]

  with_row-Known :
      (signal_id : IdText) (j : ℕ) → Known rows j → Known (with_row up signal_id f rows).0 j
  with_row-Known (malformed t) j h = h
  with_row-Known (uuid i) j h = ground (arith, find_row-update i j f p rows)

module _ (up : Bool) (now : ℕ) (signal_id : IdText) (rows : Table) where
  pub mark_published-IsTable : IsTable rows → IsTable (mark_published up signal_id rows).0
  unfolding mark_published
  mark_published-IsTable h =
      with_row-IsTable up published_row published-Plain rows signal_id published-IsCoherent h

  pub mark_failed-IsTable : IsTable rows → IsTable (mark_failed up now signal_id rows).0
  unfolding mark_failed
  mark_failed-IsTable h =
      with_row-IsTable up (failed_row now) (failed-Plain now) rows signal_id (failed-IsCoherent now)
        h

  pub record_attempt_failure-IsTable :
      IsTable rows → IsTable (record_attempt_failure up now signal_id rows).0
  unfolding record_attempt_failure
  record_attempt_failure-IsTable h =
      with_row-IsTable up (spent_row now) (spent-Plain now) rows signal_id (spent-IsCoherent now) h

  pub mark_published-Known : (j : ℕ) → Known rows j → Known (mark_published up signal_id rows).0 j
  unfolding mark_published
  mark_published-Known j h = with_row-Known up published_row published-Plain rows signal_id j h

  pub mark_failed-Known : (j : ℕ) → Known rows j → Known (mark_failed up now signal_id rows).0 j
  unfolding mark_failed
  mark_failed-Known j h = with_row-Known up (failed_row now) (failed-Plain now) rows signal_id j h

  pub record_attempt_failure-Known :
      (j : ℕ) → Known rows j → Known (record_attempt_failure up now signal_id rows).0 j
  unfolding record_attempt_failure
  record_attempt_failure-Known j h =
      with_row-Known up (spent_row now) (spent-Plain now) rows signal_id j h

module _ (up : Bool) (new_id now default_attempts : ℕ) (payload : WebhookPayload)
    (delivery_key : Option String) (attempts : Option ℕ) (rows : Table) where
  abbrev logged : Table × Option ℕ
  logged = log_signal up new_id now default_attempts payload delivery_key attempts rows

  -- An insert that lands is the new row at the end, under a fresh id and a fresh key.
  pub log_signal-some :
      (i : ℕ)
      → logged.1 ≡ some i
      → (i ≡ new_id)
        × (logged.0
            ≡ rows
              ++ new_signal new_id now payload delivery_key (or_else attempts default_attempts)
                ∷ [])
        × (find_row new_id rows ≡ none)
        × (key_taken delivery_key rows ≡ false)
  unfolding log_signal
  log_signal-some i h = ground arith

  pub log_signal-none : logged.1 ≡ none → logged.0 ≡ rows
  unfolding log_signal
  log_signal-none h = ground arith

  new_signal-IsCoherent :
      0 < or_else attempts default_attempts
      → IsCoherent (new_signal new_id now payload delivery_key (or_else attempts default_attempts))
  unfolding new_signal
  new_signal-IsCoherent h = ground arith

  pub log_signal-IsTable : 0 < or_else attempts default_attempts → IsTable rows → IsTable logged.0
  log_signal-IsTable b h = elim (Option-cases logged.1) [
    | inl n ↦ subst IsTable (sym (log_signal-none n)) h
    | inr (i, s) ↦
        let (e, t, fresh, free) = log_signal-some i s in
        subst IsTable (sym t) (
          IsTable-append_one rows _ (unfold new_signal in fresh) (unfold new_signal in free)
            (new_signal-IsCoherent b) h)
  ]

  pub log_signal-Known : (j : ℕ) → Known rows j → Known logged.0 j
  unfolding log_signal
  log_signal-Known j h = ground (
    arith,
    find_row-append_one j rows
        (new_signal new_id now payload delivery_key (or_else attempts default_attempts)),
  )

  -- The id that an insert answers is that of a row, which is the new one.
  pub log_signal-find :
      (i : ℕ)
      → logged.1 ≡ some i
      → find_row i logged.0
        ≡ some (new_signal new_id now payload delivery_key (or_else attempts default_attempts))
  unfolding log_signal
  log_signal-find i h = ground (
    arith,
    find_row-append_one i rows
        (new_signal new_id now payload delivery_key (or_else attempts default_attempts)),
  )
