-- ===== src/Cycles/Consistent.antt =====
-- What the columns of a cycle have to do with its list of events and with its write log.
use algo_trading_broker.Prelude.{
  ℕ, zero, suc, ◌+◌, ◌≡◌, refl, sym, ap, ◌∙◌, ◌↔◌, inl, inr, String, Bool, true, false, Option,
  some, List, [], ◌∷◌, ◌++◌, map, arith, length, length-append, last?, last?-append_one, Bool-cases,
  Option-cases, keep, All, All-append,
}
use algo_trading_broker.Prelude.Texts.{split, join, Lacks}
use algo_trading_broker.Prelude.Texts.Laws.{split-join}
use algo_trading_broker.Core.{SignalAction, BroadcastStatus, BroadcastLogKind, action_value}
use algo_trading_broker.Cycle.{status_for_action, merge_status, merge, merge_actions}
use algo_trading_broker.Cycle.Order.{any_closing, merge_actions-closed_iff}
use algo_trading_broker.Cycles.{
  BroadcastEvent, LogEntry, Cycle, CycleKey, Execution, locked_cycle, replace_cycle,
  is_duplicate_event, log_entry, has_key, is_nonempty, action_codes, append_action, new_cycle,
  add_event, fold_event, record_tries, record_event, find_worker, is_unchanged, add_execution,
  record_worker_execution,
}

-- The seqs of a log count on from `n`, without a gap.
abbrev pub Numbered : ℕ → List LogEntry → Type 0
Numbered n [] = Unit
Numbered n (l ∷ ls) = (l.seq ≡ n) × Numbered (suc n) ls

abbrev pub actions_of : List BroadcastEvent → List SignalAction
actions_of = map (λ e. e.action)

-- The columns of a cycle agree with its events: the status is the merge of the actions, the
-- `actions` text lists them, `latest_action` is the last; and its log is numbered 1 to `last_seq`.
pub record IsCycle (c : Cycle) : Type 0 where
  pub numbered : Numbered 1 c.logs
  pub counted : c.last_seq ≡ length c.logs
  pub merged : c.status ≡ merge_actions BroadcastStatus.running (actions_of c.events)
  pub listed : c.actions ≡ join 44 (map action_codes (actions_of c.events))
  pub latest : last? (actions_of c.events) ≡ some c.latest_action

Numbered-append_one :
    (n : ℕ) (ls : List LogEntry) (l : LogEntry)
    → Numbered n ls
    → l.seq ≡ n + length ls
    → Numbered n (ls ++ l ∷ [])
Numbered-append_one n [] l h e = (omega (arith, e), tt)
Numbered-append_one n (m ∷ ls) l h e =
    (h.0, Numbered-append_one (suc n) ls l h.1 (omega (arith, e)))

map-append_one {ℓ κ} :
    {A : Type ℓ} {B : Type κ} (f : A → B) (xs : List A) (x : A)
    → map f (xs ++ x ∷ []) ≡ map f xs ++ f x ∷ []
map-append_one f [] x = refl
map-append_one f (y ∷ xs) x = ap (λ l. f y ∷ l) (map-append_one f xs x)

merge_actions-append_one :
    (s : BroadcastStatus) (as' : List SignalAction) (a : SignalAction)
    → merge_actions s (as' ++ a ∷ []) ≡ merge (merge_actions s as') (status_for_action a)
merge_actions-append_one s [] a = refl
merge_actions-append_one s (b ∷ as') a =
    merge_actions-append_one (merge s (status_for_action b)) as' a

action_codes-Lacks : (a : SignalAction) → Lacks 44 (action_codes a)
unfolding action_value
action_codes-Lacks SignalAction.long = ground arith
action_codes-Lacks SignalAction.short = ground arith
action_codes-Lacks SignalAction.tp1 = ground arith
action_codes-Lacks SignalAction.tp2 = ground arith
action_codes-Lacks SignalAction.r_sl = ground arith
action_codes-Lacks SignalAction.sl = ground arith
action_codes-Lacks SignalAction.flat = ground arith

action_codes-nonempty : (a : SignalAction) → is_nonempty (action_codes a) ≡ true
unfolding action_value
action_codes-nonempty SignalAction.long = refl
action_codes-nonempty SignalAction.short = refl
action_codes-nonempty SignalAction.tp1 = refl
action_codes-nonempty SignalAction.tp2 = refl
action_codes-nonempty SignalAction.r_sl = refl
action_codes-nonempty SignalAction.sl = refl
action_codes-nonempty SignalAction.flat = refl

All-action_codes : (as' : List SignalAction) → All (Lacks 44) (map action_codes as')
All-action_codes [] = tt
All-action_codes (a ∷ as') = (action_codes-Lacks a, All-action_codes as')

keep-action_codes :
    (as' : List SignalAction) → keep is_nonempty (map action_codes as') ≡ map action_codes as'
unfolding keep
keep-action_codes [] = refl
keep-action_codes (a ∷ as') =
    rw (action_codes-nonempty a) (ap (λ l. action_codes a ∷ l) (keep-action_codes as'))

pieces :
    (as' : List SignalAction)
    → keep is_nonempty (split 44 (join 44 (map action_codes as'))) ≡ map action_codes as'
unfolding keep split join
pieces [] = refl
pieces (a ∷ as') =
    ap (keep is_nonempty)
      (split-join 44 (action_codes a) (map action_codes as') (All-action_codes (a ∷ as')))
    ∙ keep-action_codes (a ∷ as')

append_action-join :
    (as' : List SignalAction) (a : SignalAction)
    → append_action (join 44 (map action_codes as')) a ≡ join 44 (map action_codes (as' ++ a ∷ []))
unfolding append_action
append_action-join as' a =
    ap (λ ps. join 44 (ps ++ action_codes a ∷ [])) (pieces as')
    ∙ ap (join 44) (sym (map-append_one action_codes as' a))

-- A new cycle is consistent, and an event appended to a consistent one keeps it so.
merge-running : (s : BroadcastStatus) → merge BroadcastStatus.running s ≡ s
unfolding merge_status
merge-running s = ground arith

new_cycle-IsCycle :
    (k : CycleKey) (timeframe : Option String) (event : BroadcastEvent) (now : ℕ)
    → IsCycle (new_cycle k timeframe event now)
unfolding new_cycle log_entry join
new_cycle-IsCycle k timeframe event now = record {
  numbered = (refl, tt);
  counted = refl;
  merged = sym (merge-running (status_for_action event.action));
  listed = refl;
  latest = refl;
}

add_event-IsCycle :
    (event : BroadcastEvent) (now : ℕ) (c : Cycle) → IsCycle c → IsCycle (add_event event now c)
unfolding add_event log_entry
add_event-IsCycle event now c w =
    let e = map-append_one (λ e. e.action) c.events event in
    record {
      numbered =
          Numbered-append_one 1 c.logs (log_entry (c.last_seq + 1) BroadcastLogKind.signal now)
            w.numbered (omega (arith, w.counted));
      counted = omega (
        arith,
        w.counted,
        length-append c.logs (log_entry (c.last_seq + 1) BroadcastLogKind.signal now ∷ []),
      );
      merged =
          ap (λ s. merge s (status_for_action event.action)) w.merged
          ∙ sym
              (merge_actions-append_one BroadcastStatus.running (actions_of c.events) event.action)
          ∙ ap (merge_actions BroadcastStatus.running) (sym e);
      listed =
          ap (λ t. append_action t event.action) w.listed
          ∙ append_action-join (actions_of c.events) event.action
          ∙ ap (λ l. join 44 (map action_codes l)) (sym e);
      latest = ap last? e ∙ last?-append_one (actions_of c.events) event.action;
    }

fold_event-IsCycle :
    (event : BroadcastEvent) (now : ℕ) (c : Cycle) → IsCycle c → IsCycle (fold_event event now c)
fold_event-IsCycle event now c w = elim (Bool-cases (is_duplicate_event c.events event)) [
  | inl e ↦ rw e w
  | inr e ↦ rw e (add_event-IsCycle event now c w)
]

add_execution-IsCycle :
    (x : Execution) (now : ℕ) (c : Cycle) → IsCycle c → IsCycle (add_execution x now c)
unfolding add_execution log_entry
add_execution-IsCycle x now c w =
    elim (Bool-cases (is_unchanged x (find_worker x.worker_id c.workers))) [
      | inl e ↦ rw e w
      | inr e ↦ rw e (record {
        numbered =
            Numbered-append_one 1 c.logs (log_entry (c.last_seq + 1) BroadcastLogKind.execution now)
              w.numbered (omega (arith, w.counted));
        counted = omega (
          arith,
          w.counted,
          length-append c.logs (log_entry (c.last_seq + 1) BroadcastLogKind.execution now ∷ []),
        );
        merged = w.merged;
        listed = w.listed;
        latest = w.latest;
      })
    ]

All-replace :
    (k : CycleKey) (f : Cycle → Cycle)
    → ((c : Cycle) → IsCycle c → IsCycle (f c))
    → (rows : List Cycle) → All IsCycle rows
    → All IsCycle (replace_cycle k f rows)
unfolding replace_cycle
All-replace k f g [] h = tt
All-replace k f g (c ∷ rows) h = elim (Bool-cases (has_key k c)) [
  | inl e ↦ rw e (g c h.0, h.1)
  | inr e ↦ rw e (h.0, All-replace k f g rows h.1)
]

record_tries-IsCycle :
    (rival : ℕ → List Cycle → List Cycle)
    → ((n : ℕ) (rows : List Cycle) → All IsCycle rows → All IsCycle (rival n rows))
    → (k : CycleKey) (timeframe : Option String) (event : BroadcastEvent) (now tries : ℕ)
      (rows : List Cycle)
    → All IsCycle rows
    → All IsCycle (record_tries tries rival k timeframe event now rows).0
unfolding record_tries
record_tries-IsCycle rival g k timeframe event now zero rows h = h
record_tries-IsCycle rival g k timeframe event now (suc n) rows h =
    elim (Option-cases (locked_cycle k rows)) [
      | inr (c, e) ↦
          rw (e, record_tries)
            (All-replace k (fold_event event now) (fold_event-IsCycle event now) rows h)
      | inl e ↦ elim (Option-cases (locked_cycle k (rival n rows))) [
        | inr (c, f) ↦
            rw (e, f, record_tries)
              (record_tries-IsCycle rival g k timeframe event now n (rival n rows) (g n rows h))
        | inl f ↦
            rw (e, f, record_tries)
              (All-append IsCycle (rival n rows) _ (g n rows h)
                (new_cycle-IsCycle k timeframe event now, tt))
      ]
    ]

-- Recording an event in a table of consistent cycles keeps every cycle consistent, with or
-- without a database, as long as the transactions that race with it do.
pub record_event-IsCycle :
    (up : Bool) (rival : ℕ → List Cycle → List Cycle)
    → ((n : ℕ) (rows : List Cycle) → All IsCycle rows → All IsCycle (rival n rows))
    → (k : CycleKey) (timeframe : Option String) (event : BroadcastEvent) (now : ℕ)
      (rows : List Cycle)
    → All IsCycle rows
    → All IsCycle (record_event up rival k timeframe event now rows).0
unfolding record_event
record_event-IsCycle true rival g k timeframe event now rows h =
    record_tries-IsCycle rival g k timeframe event now 2 rows h
record_event-IsCycle false rival g k timeframe event now rows h = h

-- Recording what a worker reported in a table of consistent cycles, with or without a database,
-- keeps every cycle consistent.
pub record_worker_execution-IsCycle :
    (up : Bool) (k : CycleKey) (x : Execution) (now : ℕ) (rows : List Cycle)
    → All IsCycle rows
    → All IsCycle (record_worker_execution up k x now rows).0
unfolding record_worker_execution
record_worker_execution-IsCycle false k x now rows h = h
record_worker_execution-IsCycle true k x now rows h = elim (Option-cases (locked_cycle k rows)) [
  | inl e ↦ rw e h
  | inr (c, e) ↦ rw e (All-replace k (add_execution x now) (add_execution-IsCycle x now) rows h)
]

-- A consistent cycle is stored as closed exactly when one of its events closes it.
pub closed-iff_closing :
    (c : Cycle)
    → IsCycle c
    → (c.status ≡ BroadcastStatus.closed) ↔ (any_closing (actions_of c.events) ≡ true)
closed-iff_closing c w =
    ground (arith, w.merged, merge_actions-closed_iff BroadcastStatus.running (actions_of c.events))
