-- ===== src/Cycles/Writing.antt =====
-- Recording events of a cycle: which row an event lands on, races and replays.
use mathlib.Core.Path.{subst, ap₂}
use algo_trading_broker.Prelude.{
  ℕ, suc, ◌≡◌, refl, sym, ap, ◌∙◌, inl, inr, String, true, Option, none, some, List, [], ◌∷◌, ◌++◌,
  if◌then◌else◌, Bool-cases, Option-cases, string_eq,
}
use algo_trading_broker.Prelude.Texts.{text_eq}
use algo_trading_broker.Core.{action_eq}
use algo_trading_broker.Cycles.{
  BroadcastEvent, Cycle, CycleKey, locked_cycle, replace_cycle, is_duplicate_event, new_cycle,
  add_event, fold_event, record_tries, record_event,
}
use algo_trading_broker.Cycles.Folding.{
  has_key-fold_event, has_key-new_cycle, locked_cycle-replace, locked_cycle-append,
  replace_cycle-same, EndsWith, is_same, EndsWith-test, EndsWith-duplicate, fold_event-EndsWith,
  new_cycle-EndsWith,
}

-- The table holds the answered row under its key, and that row ends with the event.
abbrev pub Recorded : CycleKey → BroadcastEvent → List Cycle × Option Cycle → Type 0
Recorded k event (rows, answer) =
    (c : Cycle) × (answer ≡ some c) × (locked_cycle k rows ≡ some c) × EndsWith c.events event

module _ (k : CycleKey) (timeframe : Option String) (event : BroadcastEvent) (now : ℕ) where
  found :
      (rows : List Cycle) (c : Cycle)
      → locked_cycle k rows ≡ some c
      → Recorded k event
          (replace_cycle k (fold_event event now) rows, some (fold_event event now c))
  found rows c e = (
    fold_event event now c,
    refl,
    locked_cycle-replace k (fold_event event now) (has_key-fold_event k event now) rows c e,
    fold_event-EndsWith event now c,
  )

  opened :
      (rows : List Cycle)
      → locked_cycle k rows ≡ none
      → Recorded k event
          (rows ++ new_cycle k timeframe event now ∷ [], some (new_cycle k timeframe event now))
  opened rows e = (
    new_cycle k timeframe event now,
    refl,
    locked_cycle-append k rows _ (has_key-new_cycle k timeframe event now) e,
    new_cycle-EndsWith k timeframe event now,
  )

module _ (rival : ℕ → List Cycle → List Cycle) (k : CycleKey) (timeframe : Option String)
    (event : BroadcastEvent) (now : ℕ) where
  record_tries-found :
      (tries : ℕ) (rows : List Cycle) (c : Cycle)
      → locked_cycle k rows ≡ some c
      → record_tries (suc tries) rival k timeframe event now rows
        ≡ (replace_cycle k (fold_event event now) rows, some (fold_event event now c))
  unfolding record_tries
  record_tries-found tries rows c e = rw (e, record_tries)

  record_tries-opened :
      (tries : ℕ) (rows : List Cycle)
      → locked_cycle k rows ≡ none
      → locked_cycle k (rival tries rows) ≡ none
      → record_tries (suc tries) rival k timeframe event now rows ≡ (
        rival tries rows ++ new_cycle k timeframe event now ∷ [],
        some (new_cycle k timeframe event now),
      )
  unfolding record_tries
  record_tries-opened tries rows e f = rw (e, f, record_tries)

  record_tries-raced :
      (tries : ℕ) (rows : List Cycle) (c : Cycle)
      → locked_cycle k rows ≡ none
      → locked_cycle k (rival tries rows) ≡ some c
      → record_tries (suc tries) rival k timeframe event now rows
        ≡ record_tries tries rival k timeframe event now (rival tries rows)
  unfolding record_tries
  record_tries-raced tries rows c e f = rw (e, f, record_tries)

-- Whatever other transactions commit between the lookup and the insert, a recording that can
-- reach the database answers the row that the table then holds under the key, and the last event
-- of that row has the action and the timestamp of the recorded one: two passes are enough.
pub record_event-Recorded :
    (rival : ℕ → List Cycle → List Cycle) (k : CycleKey) (timeframe : Option String)
    (event : BroadcastEvent) (now : ℕ) (rows : List Cycle)
    → Recorded k event (record_event true rival k timeframe event now rows)
unfolding record_event
record_event-Recorded rival k timeframe event now rows = elim (Option-cases (locked_cycle k rows)) [
  | inr (c, e) ↦
      subst (Recorded k event) (sym (record_tries-found rival k timeframe event now 1 rows c e))
        (found k timeframe event now rows c e)
  | inl e ↦ elim (Option-cases (locked_cycle k (rival 1 rows))) [
    | inr (c, f) ↦
        subst (Recorded k event)
          (sym (
            record_tries-raced rival k timeframe event now 1 rows c e f
            ∙ record_tries-found rival k timeframe event now 0 (rival 1 rows) c f))
          (found k timeframe event now (rival 1 rows) c f)
    | inl f ↦
        subst (Recorded k event) (sym (record_tries-opened rival k timeframe event now 1 rows e f))
          (opened k timeframe event now (rival 1 rows) f)
  ]
]

fold_event-again :
    (event : BroadcastEvent) (now : ℕ) (c : Cycle)
    → is_duplicate_event c.events event ≡ true
    → fold_event event now c ≡ c
fold_event-again event now c e = rw e

-- Recording an event that the row of its key already ends with.
record_event-again :
    (rival : ℕ → List Cycle → List Cycle) (k : CycleKey) (timeframe : Option String)
    (event : BroadcastEvent) (now : ℕ) (s : List Cycle × Option Cycle)
    → Recorded k event s
    → record_event true rival k timeframe event now s.0 ≡ s
unfolding record_event
record_event-again rival k timeframe event now (rows, answer) (c, a, e, d) =
    let dup = EndsWith-duplicate c.events event d in
    record_tries-found rival k timeframe event now 1 rows c e
    ∙ ap₂ (λ x y. (x, y))
        (replace_cycle-same k (fold_event event now) rows c e (fold_event-again event now c dup))
        (ap some (fold_event-again event now c dup) ∙ sym a)

fold_event-next :
    (event other : BroadcastEvent) (now : ℕ) (c : Cycle)
    → EndsWith c.events event
    → (fold_event other now c).events
      ≡ (if is_same event other then c.events else c.events ++ other ∷ [])
unfolding add_event
fold_event-next event other now c h =
    let test = EndsWith-test c.events event other h in
    elim (Bool-cases (is_same event other)) [
      | inl e ↦ rw (test, e) refl
      | inr e ↦ rw (test, e) refl
    ]

-- What a recording leaves, and what another one directly after it makes of the row.
abbrev pub Followed : CycleKey → (event other : BroadcastEvent) → List Cycle → List Cycle → Type 0
Followed k event other rows rows' =
    (c : Cycle) × (c' : Cycle) × (locked_cycle k rows ≡ some c)
    × (locked_cycle k rows' ≡ some c')
    × (c'.events ≡ (if is_same event other then c.events else c.events ++ other ∷ []))

record_event-next :
    (rival : ℕ → List Cycle → List Cycle) (k : CycleKey) (timeframe : Option String)
    (event other : BroadcastEvent) (now : ℕ) (s : List Cycle × Option Cycle)
    → Recorded k event s
    → Followed k event other s.0 (record_event true rival k timeframe other now s.0).0
unfolding record_event
record_event-next rival k timeframe event other now (rows, answer) (c, a, e, d) = (
  c,
  fold_event other now c,
  e,
  ap (λ x. locked_cycle k x.0) (record_tries-found rival k timeframe other now 1 rows c e)
      ∙ locked_cycle-replace k (fold_event other now) (has_key-fold_event k other now) rows c e,
  fold_event-next event other now c d,
)

-- A replay is free on a live database, and only a replay is: recording an event once more directly
-- after it was recorded leaves the whole table and the answer as they were, and recording another
-- one there appends it to the events of the row unless it has the same action and the same
-- timestamp.
pub record_event-replay :
    (rival rival' : ℕ → List Cycle → List Cycle) (k : CycleKey)
    (timeframe timeframe' : Option String) (event other : BroadcastEvent) (now now' : ℕ)
    (rows : List Cycle)
    → (record_event true rival' k timeframe' event now'
          (record_event true rival k timeframe event now rows).0
        ≡ record_event true rival k timeframe event now rows)
      × Followed k event other
          (record_event true rival k timeframe event now rows).0
          (record_event true rival' k timeframe' other now'
            (record_event true rival k timeframe event now rows).0).0
record_event-replay rival rival' k timeframe timeframe' event other now now' rows =
    let first = record_event true rival k timeframe event now rows in
    let recorded = record_event-Recorded rival k timeframe event now rows in
    (
      record_event-again rival' k timeframe' event now' first recorded,
      record_event-next rival' k timeframe' event other now' first recorded,
    )
