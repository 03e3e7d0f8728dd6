-- ===== src/Cycles.antt =====
-- broker/db/repository/broadcast_message.py: the signal cycles, one per (symbol, strategy, uxid),
-- each with the rows of the child tables that name it: its write log, its chats and its workers.
-- `up` says whether the session of a call commits; ids and times are numbers.
pub mod Folding
pub mod Writing
pub mod Consistent
use algo_trading_broker.Prelude.{
  ℕ, zero, suc, ◌+◌, ◌-◌, String, Bool, true, false, not, ◌&&◌, ◌||◌, Option, none, some, List, [],
  ◌∷◌, ◌++◌, map, leb, ltb, is_some, or_else, last?, if◌then◌else◌, keep, ◌==◌, nat_eq, string_eq,
  option_eq, length,
}
use algo_trading_broker.Prelude.Ints.{ℤ}
use algo_trading_broker.Prelude.Texts.{Text, codes, split, join, text_eq}
use algo_trading_broker.Core.{
  SignalAction, BroadcastStatus, BroadcastLogKind, BroadcastLogStatus, BroadcastAudience,
  action_value, action_eq, is_pending, is_sending,
}
use algo_trading_broker.Cycle.{status_for_action, merge}
use algo_trading_broker.Webhook.{WebhookPayload}

-- The entry that a cycle keeps for one signal (`build_broadcast_event`).
pub record BroadcastEvent : Type 0 where
  pub action : SignalAction
  pub timestamp : String
  pub price : Option ℤ
  pub quantity : Option ℤ
  pub sl : Option ℤ
  pub tp1 : Option ℤ
  pub tp2 : Option ℤ
  pub risk_percent : Option ℤ
  pub tp1_percent : Option ℤ
  pub move_sl_to_be : Option Bool
  pub use_equity_sizing : Option Bool
  pub is_running : Option Bool
  pub is_scale_position : Option Bool
  pub scale_strategy : Option String
  pub attempt : Option ℕ
  pub indicators : Option String
  pub inputs : Option String

abbrev pub event_risk : WebhookPayload → Option ℤ
event_risk payload = elim payload.position.risk_percent [
  | some r ↦ some r
  | none ↦ elim payload.inputs [ none ↦ none | some i ↦ i.risk_percent ]
]

unfoldable pub build_broadcast_event : WebhookPayload → Option ℕ → BroadcastEvent
build_broadcast_event payload attempt_number =
    let pos = payload.position in
    record {
      action = pos.action;
      timestamp = payload.timestamp;
      price = pos.price;
      quantity = pos.quantity;
      sl = pos.sl;
      tp1 = pos.tp1;
      tp2 = pos.tp2;
      risk_percent = event_risk payload;
      tp1_percent = pos.tp1_percent;
      move_sl_to_be = pos.move_sl_to_be;
      use_equity_sizing = pos.use_equity_sizing;
      is_running = pos.is_running;
      is_scale_position = pos.is_scale_position;
      scale_strategy = pos.scale_strategy;
      attempt = attempt_number;
      indicators = payload.indicators;
      inputs = elim payload.inputs [ none ↦ none | some i ↦ some i.others ];
    }

pub record LogEntry : Type 0 where
  pub seq : ℕ
  pub kind : BroadcastLogKind
  pub status : BroadcastLogStatus
  pub attempts : ℕ
  pub last_error : Option String
  pub updated_at : ℕ

pub record Chat : Type 0 where
  pub audience : BroadcastAudience
  pub chat_id : String
  pub message_id : Option String
  pub message : Option String
  pub delivered_seq : ℕ
  pub notified_event_count : Option ℕ
  pub last_error : Option String

pub record CycleWorker : Type 0 where
  pub worker_id : String
  pub latest_status : String
  pub latest_action : Option String
  pub reject_reason : Option String
  pub gateway : Option String

pub record Cycle : Type 0 where
  pub symbol : Text
  pub strategy : String
  pub signal_uxid : Text
  pub timeframe : Option String
  pub actions : Text
  pub latest_action : SignalAction
  pub status : BroadcastStatus
  pub events : List BroadcastEvent
  pub last_seq : ℕ
  pub logs : List LogEntry
  pub workers : List CycleWorker

pub record CycleKey : Type 0 where
  pub symbol : Text
  pub strategy : String
  pub signal_uxid : Text

abbrev pub has_key : CycleKey → Cycle → Bool
has_key k c = c.symbol == k.symbol && (c.strategy == k.strategy && c.signal_uxid == k.signal_uxid)

-- `_locked_cycle`.
unfoldable pub locked_cycle : CycleKey → List Cycle → Option Cycle
locked_cycle k [] = none
locked_cycle k (c ∷ rows) = let rest = locked_cycle k rows in if has_key k c then some c else rest

-- The assignments to the row that `locked_cycle` found.
unfoldable pub replace_cycle : CycleKey → (Cycle → Cycle) → List Cycle → List Cycle
replace_cycle k f [] = []
replace_cycle k f (c ∷ rows) =
    let rest = replace_cycle k f rows in if has_key k c then f c ∷ rows else c ∷ rest

-- An event of the same action and timestamp as the last one is a replay.
unfoldable pub is_duplicate_event : List BroadcastEvent → BroadcastEvent → Bool
is_duplicate_event events event = elim (last? events) [
  | none ↦ false
  | some last ↦ last.action == event.action && last.timestamp == event.timestamp
]

unfoldable pub log_entry : ℕ → BroadcastLogKind → ℕ → LogEntry
log_entry seq kind now = record {
  seq = seq;
  kind = kind;
  status = BroadcastLogStatus.pending;
  attempts = 0;
  last_error = none;
  updated_at = now;
}

abbrev pub is_nonempty : Text → Bool
is_nonempty [] = false
is_nonempty (c ∷ t) = true

abbrev pub action_codes : SignalAction → Text
action_codes a = codes (action_value a)

-- `",".join([part for part in actions.split(",") if part] + [action.value])`.
unfoldable pub append_action : Text → SignalAction → Text
unfolding keep split join action_value
append_action actions action =
    join 44 (keep is_nonempty (split 44 actions) ++ action_codes action ∷ [])

unfoldable pub new_cycle : CycleKey → Option String → BroadcastEvent → ℕ → Cycle
unfolding log_entry action_value
new_cycle k timeframe event now = record {
  symbol = k.symbol;
  strategy = k.strategy;
  signal_uxid = k.signal_uxid;
  timeframe = timeframe;
  actions = action_codes event.action;
  latest_action = event.action;
  status = status_for_action event.action;
  events = event ∷ [];
  last_seq = 1;
  logs = log_entry 1 BroadcastLogKind.signal now ∷ [];
  workers = [];
}

unfoldable pub add_event : BroadcastEvent → ℕ → Cycle → Cycle
unfolding log_entry append_action
add_event event now c = record c {
  events = c.events ++ event ∷ [];
  actions = append_action c.actions event.action;
  latest_action = event.action;
  status = merge c.status (status_for_action event.action);
  last_seq = c.last_seq + 1;
  logs = c.logs ++ log_entry (c.last_seq + 1) BroadcastLogKind.signal now ∷ [];
}

abbrev pub fold_event : BroadcastEvent → ℕ → Cycle → Cycle
fold_event event now c = if is_duplicate_event c.events event then c else add_event event now c

-- The passes of `record_event`, `tries` of them. `rival` is what other transactions commit between
-- the lookup that finds no cycle and the insert, which the unique key may then refuse.
unfoldable pub record_tries :
    (tries : ℕ) (rival : ℕ → List Cycle → List Cycle) (k : CycleKey) (timeframe : Option String)
    (event : BroadcastEvent) (now : ℕ)
    → List Cycle
    → List Cycle × Option Cycle
record_tries zero rival k timeframe event now rows = (rows, none)
record_tries (suc tries) rival k timeframe event now rows =
    let rows' = rival tries rows in
    let again = record_tries tries rival k timeframe event now rows' in
    elim (locked_cycle k rows) [
      | some c ↦ (replace_cycle k (fold_event event now) rows, some (fold_event event now c))
      | none ↦ elim (locked_cycle k rows') [
        | some c ↦ again
        | none ↦
            (rows' ++ new_cycle k timeframe event now ∷ [], some (new_cycle k timeframe event now))
      ]
    ]

unfoldable pub record_event :
    (up : Bool) (rival : ℕ → List Cycle → List Cycle) (k : CycleKey) (timeframe : Option String)
    (event : BroadcastEvent) (now : ℕ)
    → List Cycle
    → List Cycle × Option Cycle
unfolding record_tries
record_event up rival k timeframe event now rows =
    if up then record_tries 2 rival k timeframe event now rows else (rows, none)

-- What a worker reported of a cycle.
pub record Execution : Type 0 where
  pub worker_id : String
  pub status : String
  pub action : Option String
  pub reject_reason : Option String
  pub gateway : Option String

abbrev pub find_worker : String → List CycleWorker → Option CycleWorker
find_worker id [] = none
find_worker id (w ∷ ws) = let rest = find_worker id ws in if w.worker_id == id then some w else rest

abbrev pub new_gateway : Option String → Option String → Option String
new_gateway none old = old
new_gateway (some g) old = some g

abbrev pub upsert_worker : Execution → List CycleWorker → List CycleWorker
upsert_worker x [] =
    record {
      worker_id = x.worker_id;
      latest_status = x.status;
      latest_action = x.action;
      reject_reason = x.reject_reason;
      gateway = x.gateway;
    }
    ∷ []
upsert_worker x (w ∷ ws) =
    let rest = upsert_worker x ws in
    if w.worker_id == x.worker_id
    then record w {
      latest_status = x.status;
      latest_action = x.action;
      reject_reason = x.reject_reason;
      gateway = new_gateway x.gateway w.gateway;
    }
      ∷ ws
    else w ∷ rest

abbrev pub is_unchanged : Execution → Option CycleWorker → Bool
is_unchanged x none = false
is_unchanged x (some w) = w.latest_status == x.status && w.latest_action == x.action

unfoldable pub add_execution : Execution → ℕ → Cycle → Cycle
unfolding log_entry
add_execution x now c = if is_unchanged x (find_worker x.worker_id c.workers) then c else record c {
  workers = upsert_worker x c.workers;
  last_seq = c.last_seq + 1;
  logs = c.logs ++ log_entry (c.last_seq + 1) BroadcastLogKind.execution now ∷ [];
}

unfoldable pub record_worker_execution :
    Bool → CycleKey → Execution → ℕ → List Cycle → List Cycle × Option Cycle
record_worker_execution up k x now rows =
    if up
    then elim (locked_cycle k rows) [
      | none ↦ (rows, none)
      | some c ↦ (replace_cycle k (add_execution x now) rows, some (add_execution x now c))
    ]
    else (rows, none)
