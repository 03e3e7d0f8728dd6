-- ===== src/Signals/Retryable.antt =====
-- The rows that the retry job takes up.
use mathlib.Core.List.{Perm}
use mathlib.Core.List.Perm
use algo_trading_broker.Prelude.{
  ℕ, ◌+◌, ◌≤◌, ◌<◌, ◌≡◌, ◌↔◌, refl, Option, none, Bool, true, false, some, [], ◌∷◌, arith, All,
  All-map, Bool-cases, inl, inr, leb, keep, if◌then◌else◌, nat_eq,
}
use algo_trading_broker.Core.{SignalStatus, is_queued}
use algo_trading_broker.Signals.{
  Signal, Table, find_row, insert_by_age, sort_by_age, is_retryable, attempted_before,
  list_retryable,
}
use algo_trading_broker.Signals.Table.{Distinct, find_row-id}

-- No row is younger than one after it.
abbrev pub OldestFirst : Table → Type 0
OldestFirst [] = Unit
OldestFirst (r ∷ rows) = All (λ (s : Signal). r.created_at ≤ s.created_at) rows × OldestFirst rows

module _ {κ} (P : Signal → Type κ) where
  pub All-keep : (p : Signal → Bool) (rows : Table) → All P rows → All P (keep p rows)
  unfolding keep
  All-keep p [] h = tt
  All-keep p (r ∷ rows) h = elim (Bool-cases (p r)) [
    | inl e ↦ rw e (h.0, All-keep p rows h.1)
    | inr e ↦ rw e (All-keep p rows h.1)
  ]

  All-insert : (r : Signal) (rows : Table) → P r → All P rows → All P (insert_by_age r rows)
  unfolding insert_by_age
  All-insert r [] p h = (p, tt)
  All-insert r (s ∷ rows) p h = elim (Bool-cases (leb r.created_at s.created_at)) [
    | inl e ↦ rw e (p, h)
    | inr e ↦ rw e (h.0, All-insert r rows p h.1)
  ]

  pub All-sort : (rows : Table) → All P rows → All P (sort_by_age rows)
  unfolding sort_by_age
  All-sort [] h = tt
  All-sort (r ∷ rows) h = All-insert r (sort_by_age rows) h.0 (All-sort rows h.1)

insert-OldestFirst :
    (r : Signal) (rows : Table) → OldestFirst rows → OldestFirst (insert_by_age r rows)
unfolding insert_by_age
insert-OldestFirst r [] h = (tt, tt)
insert-OldestFirst r (s ∷ rows) h = elim (Bool-cases (leb r.created_at s.created_at)) [
  | inl e ↦ rw e (
    (
      ground arith,
      All-map (λ (x : Signal). s.created_at ≤ x.created_at)
          (λ (x : Signal). r.created_at ≤ x.created_at) (λ x p. ground arith) rows h.0,
    ),
    h,
  )
  | inr e ↦ rw e (
    All-insert (λ (x : Signal). s.created_at ≤ x.created_at) r rows (ground arith) h.0,
    insert-OldestFirst r rows h.1,
  )
]

sort-OldestFirst : (rows : Table) → OldestFirst (sort_by_age rows)
unfolding sort_by_age
sort-OldestFirst [] = tt
sort-OldestFirst (r ∷ rows) = insert-OldestFirst r (sort_by_age rows) (sort-OldestFirst rows)

insert-perm : (r : Signal) (rows : Table) → Perm (insert_by_age r rows) (r ∷ rows)
unfolding insert_by_age
insert-perm r [] = Perm.refl _
insert-perm r (s ∷ rows) = elim (Bool-cases (leb r.created_at s.created_at)) [
  | inl e ↦ rw e (Perm.refl _)
  | inr e ↦ rw e (Perm.trans (Perm.cons s (insert-perm r rows)) (Perm.swap r s rows))
]

sort-perm : (rows : Table) → Perm (sort_by_age rows) rows
unfolding sort_by_age
sort-perm [] = Perm.refl _
sort-perm (r ∷ rows) = Perm.trans (insert-perm r (sort_by_age rows)) (Perm.cons r (sort-perm rows))

keep-All : (p : Signal → Bool) (rows : Table) → All (λ r. p r ≡ true) (keep p rows)
unfolding keep
keep-All p [] = tt
keep-All p (r ∷ rows) = elim (Bool-cases (p r)) [
  | inl e ↦ rw e (e, keep-All p rows)
  | inr e ↦ rw e (keep-All p rows)
]

-- A row of the table is what the table has under its id.
pub rows-found : (rows : Table) → Distinct rows → All (λ r. find_row r.id rows ≡ some r) rows
unfolding find_row
rows-found [] d = tt
rows-found (s ∷ rows) d = (
  ground (arith, find_row-id s.id rows s),
  All-map (λ (x : Signal). find_row x.id rows ≡ some x) _
      (λ x e. ground (arith, d.0, find_row-id x.id rows x)) rows (rows-found rows d.1),
)

-- Queued, with attempts left and a failed attempt on record that is longer ago than the interval.
abbrev pub Eligible : ℕ → ℕ → Signal → Type 0
Eligible now interval r =
    (r.status ≡ SignalStatus.queued)
    × (0 < r.attempts)
    × (t : ℕ) × (r.last_attempt ≡ some t)
    × (t + interval < now)

Attempted : ℕ → ℕ → Option ℕ → Type 0
Attempted now interval last = (t : ℕ) × (last ≡ some t) × (t + interval < now)

attempted_before-true :
    (now interval : ℕ) (last : Option ℕ)
    → attempted_before now interval last ≡ true
    → Attempted now interval last
unfolding Attempted
attempted_before-true now interval none h = cc
attempted_before-true now interval (some t) h = (t, refl, ground (arith, h))

attempted_before-holds :
    (now interval : ℕ) (last : Option ℕ)
    → Attempted now interval last
    → attempted_before now interval last ≡ true
unfolding Attempted
attempted_before-holds now interval none (t, e, h) = cc
attempted_before-holds now interval (some u) (t, e, h) =
    let same : u ≡ t = cc in ground (arith, same, h)

is_queued-status : (s : SignalStatus) → (is_queued s ≡ true) ↔ (s ≡ SignalStatus.queued)
is_queued-status s = ground arith

is_retryable-Eligible :
    (now interval : ℕ) (r : Signal) → (is_retryable now interval r ≡ true) ↔ Eligible now interval r
unfolding is_retryable Attempted
is_retryable-Eligible now interval r = (
  λ h.
      let late : attempted_before now interval r.last_attempt ≡ true = ground (arith, h) in
      let (t, e, l) = attempted_before-true now interval r.last_attempt late in
      ((is_queued-status r.status).0 (ground (arith, h)), ground (arith, h), t, e, l),
  λ (s, a, t, e, l).
      let late = attempted_before-holds now interval r.last_attempt (t, e, l) in
      let waits = (is_queued-status r.status).1 s in ground (arith, late, waits, a),
)

pub list_retryable-taken :
    (up : Bool) (now interval : ℕ) (rows : Table)
    → All (λ r. is_retryable now interval r ≡ true) (list_retryable up now interval rows)
unfolding list_retryable
list_retryable-taken true now interval rows =
    All-sort _ (keep (is_retryable now interval) rows) (keep-All (is_retryable now interval) rows)
list_retryable-taken false now interval rows = tt

-- The rows that the job is given are those of the table that the query takes, each once, oldest
-- first, and none when the database is down. The query takes exactly the eligible rows: queued, with
-- attempts left and a failed attempt on record longer ago than the interval.
pub list_retryable-Eligible :
    (up : Bool) (now interval : ℕ) (rows : Table)
    → OldestFirst (list_retryable up now interval rows)
      × All (Eligible now interval) (list_retryable up now interval rows)
      × Perm
          (list_retryable up now interval rows)
          (if up then keep (is_retryable now interval) rows else [])
      × ((r : Signal) → (is_retryable now interval r ≡ true) ↔ Eligible now interval r)
unfolding list_retryable
list_retryable-Eligible true now interval rows =
    let eligible = keep (is_retryable now interval) rows in
    (
      sort-OldestFirst eligible,
      All-sort _ eligible (
          All-map (λ (r : Signal). is_retryable now interval r ≡ true) (Eligible now interval)
            (λ r. (is_retryable-Eligible now interval r).0) eligible
            (keep-All (is_retryable now interval) rows)),
      sort-perm eligible,
      is_retryable-Eligible now interval,
    )
list_retryable-Eligible false now interval rows =
    (tt, tt, Perm.refl _, is_retryable-Eligible now interval)
