-- ===== src/Cycles/Folding.antt =====
-- The row on which an event lands, and the event that it ends with afterwards.
use algo_trading_broker.Prelude.{
  ℕ, ◌≡◌, refl, sym, ◌∙◌, inl, inr, String, true, Option, none, some, List, [], ◌∷◌, ◌++◌, ◌&&◌,
  Bool, ◌==◌, last?, arith, last?-append_one, Bool-cases, Option-cases, beq_refl, string_eq,
}
use algo_trading_broker.Prelude.Texts.{text_eq}
use algo_trading_broker.Core.{action_eq}
use algo_trading_broker.Cycles.{
  BroadcastEvent, Cycle, CycleKey, has_key, locked_cycle, replace_cycle, is_duplicate_event,
  new_cycle, add_event, fold_event,
}

pub has_key-fold_event :
    (k : CycleKey) (event : BroadcastEvent) (now : ℕ) (c : Cycle)
    → has_key k (fold_event event now c) ≡ has_key k c
unfolding add_event
has_key-fold_event k event now c = elim (Bool-cases (is_duplicate_event c.events event)) [
  | inl e ↦ rw e
  | inr e ↦ rw e
]

pub has_key-new_cycle :
    (k : CycleKey) (timeframe : Option String) (event : BroadcastEvent) (now : ℕ)
    → has_key k (new_cycle k timeframe event now) ≡ true
unfolding new_cycle
has_key-new_cycle k timeframe event now =
    rw (beq_refl k.symbol, beq_refl k.strategy, beq_refl k.signal_uxid)

pub locked_cycle-replace :
    (k : CycleKey) (f : Cycle → Cycle)
    → ((c : Cycle) → has_key k (f c) ≡ has_key k c)
    → (rows : List Cycle) (c : Cycle) → locked_cycle k rows ≡ some c
    → locked_cycle k (replace_cycle k f rows) ≡ some (f c)
unfolding locked_cycle replace_cycle
locked_cycle-replace k f h [] c e = cc
locked_cycle-replace k f h (d ∷ rows) c e = ground (arith, h d, locked_cycle-replace k f h rows c)

pub locked_cycle-append :
    (k : CycleKey) (rows : List Cycle) (c : Cycle)
    → has_key k c ≡ true
    → locked_cycle k rows ≡ none
    → locked_cycle k (rows ++ c ∷ []) ≡ some c
unfolding locked_cycle
locked_cycle-append k [] c h e = rw h
locked_cycle-append k (d ∷ rows) c h e = ground (arith, locked_cycle-append k rows c)

pub replace_cycle-same :
    (k : CycleKey) (f : Cycle → Cycle) (rows : List Cycle) (c : Cycle)
    → locked_cycle k rows ≡ some c
    → f c ≡ c
    → replace_cycle k f rows ≡ rows
unfolding locked_cycle replace_cycle
replace_cycle-same k f [] c e s = refl
replace_cycle-same k f (d ∷ rows) c e s = ground (arith, replace_cycle-same k f rows c)

-- The last of the events has the action and the timestamp of that one.
abbrev pub EndsWith : List BroadcastEvent → BroadcastEvent → Type 0
EndsWith events event =
    (last : BroadcastEvent) × (last? events ≡ some last)
    × (last.action ≡ event.action)
    × (last.timestamp ≡ event.timestamp)

-- The test of an event against the last one, from the action and the timestamp alone.
abbrev pub is_same : BroadcastEvent → BroadcastEvent → Bool
is_same last event = last.action == event.action && last.timestamp == event.timestamp

is_duplicate-last :
    (events : List BroadcastEvent) (last event : BroadcastEvent)
    → last? events ≡ some last
    → is_duplicate_event events event ≡ is_same last event
unfolding is_duplicate_event
is_duplicate-last events last event h = rw (h, is_duplicate_event) refl

is_same-of :
    (last event : BroadcastEvent)
    → is_same last event ≡ true
    → (last.action ≡ event.action) × (last.timestamp ≡ event.timestamp)
is_same-of last event h =
    let (a, t) : (last.action == event.action ≡ true) × (last.timestamp == event.timestamp ≡ true) =
      (ground (arith, h), ground (arith, h)) in
    (
      (action_eq.decides last.action event.action).0 a,
      (string_eq.decides last.timestamp event.timestamp).0 t,
    )

is_same-equal :
    (last event other : BroadcastEvent)
    → last.action ≡ event.action
    → last.timestamp ≡ event.timestamp
    → is_same last other ≡ is_same event other
is_same-equal last event other a t = cc

duplicate-EndsWith :
    (events : List BroadcastEvent) (event : BroadcastEvent)
    → is_duplicate_event events event ≡ true
    → EndsWith events event
unfolding is_duplicate_event
duplicate-EndsWith events event h = elim (Option-cases (last? events)) [
  | inl e ↦ absurd (cc (rw (e, is_duplicate_event) at h))
  | inr (last, e) ↦
      let (a, t) = is_same-of last event (sym (is_duplicate-last events last event e) ∙ h) in
      (last, e, a, t)
]

pub EndsWith-test :
    (events : List BroadcastEvent) (event other : BroadcastEvent)
    → EndsWith events event
    → is_duplicate_event events other ≡ is_same event other
EndsWith-test events event other (last, e, a, t) =
    is_duplicate-last events last other e ∙ is_same-equal last event other a t

pub EndsWith-duplicate :
    (events : List BroadcastEvent) (event : BroadcastEvent)
    → EndsWith events event
    → is_duplicate_event events event ≡ true
EndsWith-duplicate events event h =
    EndsWith-test events event event h
    ∙ ground (arith, beq_refl event.action, beq_refl event.timestamp)

EndsWith-append :
    (events : List BroadcastEvent) (event : BroadcastEvent) → EndsWith (events ++ event ∷ []) event
EndsWith-append events event = (event, last?-append_one events event, refl, refl)

pub fold_event-EndsWith :
    (event : BroadcastEvent) (now : ℕ) (c : Cycle) → EndsWith (fold_event event now c).events event
unfolding add_event
fold_event-EndsWith event now c = elim (Bool-cases (is_duplicate_event c.events event)) [
  | inl e ↦ rw e (duplicate-EndsWith c.events event e)
  | inr e ↦ rw e (EndsWith-append c.events event)
]

pub new_cycle-EndsWith :
    (k : CycleKey) (timeframe : Option String) (event : BroadcastEvent) (now : ℕ)
    → EndsWith (new_cycle k timeframe event now).events event
unfolding new_cycle
new_cycle-EndsWith k timeframe event now = EndsWith-append [] event
