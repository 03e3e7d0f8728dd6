-- ===== src/Signals.antt =====
-- broker/db/repository/signal.py: the table of persisted signals and the operations on it.
-- A table is the list of its rows in the order of insertion. `up` says whether the session of one
-- call commits; an id is the number of a UUID; times are seconds; `uuid4()` and the clock are
-- arguments. An insert fails on a taken id or delivery key, as the table's constraints have it.
pub mod Table
pub mod Operations
pub mod Retryable
use algo_trading_broker.Prelude.{
  ℕ, suc, ◌+◌, ◌-◌, String, Bool, true, false, not, ◌&&◌, ◌||◌, Option, none, some, List, [], ◌∷◌,
  ◌++◌, map, leb, ltb, is_some, or_else, if◌then◌else◌, keep, ◌==◌, nat_eq, string_eq, option_eq,
}
use algo_trading_broker.Prelude.Ints.{ℤ, or_zero}
use algo_trading_broker.Prelude.Texts.{Text}
use algo_trading_broker.Core.{SignalAction, SignalStatus, IdText, uuid, malformed, is_queued}
use algo_trading_broker.Webhook.{WebhookPayload, effective_risk, truthy}

-- The JSON of the `raw` column: that of a payload, an object that the schema refuses, a value that
-- is no object, or one that is false in Python (`null`, `{}`).
pub data Raw : Type 0 where
  payload_object : WebhookPayload → Raw
  refused_object : Raw
  no_object : Raw
  empty : Raw

pub record Signal : Type 0 where
  pub id : ℕ
  pub strategy : String
  pub symbol : Text
  pub timeframe : String
  pub timestamp : String
  pub signal_uxid : Option Text
  pub action : SignalAction
  pub price : ℤ
  pub quantity : ℤ
  pub sl : Option ℤ
  pub tp1 : Option ℤ
  pub tp2 : Option ℤ
  pub is_running : Bool
  pub risk_percent : ℤ
  pub is_scale_position : Bool
  pub scale_strategy : Option String
  pub status : SignalStatus
  pub attempts : ℕ
  pub last_attempt : Option ℕ
  pub delivery_key : Option String
  pub indicators : Option String
  pub inputs : Option String
  pub raw : Raw
  pub created_at : ℕ

abbrev pub Table : Type 0
Table = List Signal

-- `select(Signal).where(Signal.id == row_id)`, first row.
unfoldable pub find_row : ℕ → Table → Option Signal
find_row i [] = none
find_row i (r ∷ rows) = let rest = find_row i rows in if r.id == i then some r else rest

-- `select(Signal).where(Signal.delivery_key == key)`, first row.
unfoldable pub find_key : String → Table → Option Signal
find_key k [] = none
find_key k (r ∷ rows) =
    let rest = find_key k rows in if r.delivery_key == some k then some r else rest

-- The assignments to the fields of the row with that id.
unfoldable pub update_row : ℕ → (Signal → Signal) → Table → Table
update_row i f [] = []
update_row i f (r ∷ rows) =
    let rest = update_row i f rows in if r.id == i then f r ∷ rows else r ∷ rest

-- `uuid.UUID(signal_id)`.
abbrev pub parse_uuid : IdText → Option ℕ
parse_uuid (uuid n) = some n
parse_uuid (malformed t) = none

abbrev pub inputs_text : WebhookPayload → Option String
inputs_text payload = elim payload.inputs [ none ↦ none | some i ↦ some i.others ]

unfoldable pub new_signal : ℕ → ℕ → WebhookPayload → Option String → ℕ → Signal
new_signal new_id now payload delivery_key attempts =
    let pos = payload.position in
    record {
      id = new_id;
      strategy = payload.strategy;
      symbol = payload.symbol;
      timeframe = payload.timeframe;
      timestamp = payload.timestamp;
      signal_uxid = some payload.signal_uxid;
      action = pos.action;
      price = or_zero pos.price;
      quantity = or_zero pos.quantity;
      sl = pos.sl;
      tp1 = pos.tp1;
      tp2 = pos.tp2;
      is_running = or_else pos.is_running false;
      risk_percent = effective_risk payload;
      is_scale_position = truthy pos.is_scale_position;
      scale_strategy = pos.scale_strategy;
      status = SignalStatus.queued;
      attempts = attempts;
      last_attempt = none;
      delivery_key = delivery_key;
      indicators = payload.indicators;
      inputs = inputs_text payload;
      raw = payload_object payload;
      created_at = now;
    }

-- The unique constraint on `delivery_key`; NULLs never clash.
abbrev pub key_taken : Option String → Table → Bool
key_taken none rows = false
key_taken (some k) rows = is_some (find_key k rows)

-- `default_attempts` is `settings.signal.MAX_ATTEMPTS`.
unfoldable pub log_signal :
    (up : Bool) (new_id now default_attempts : ℕ) (payload : WebhookPayload)
    (delivery_key : Option String) (attempts : Option ℕ)
    → Table
    → Table × Option ℕ
unfolding new_signal
log_signal up new_id now default_attempts payload delivery_key attempts rows =
    if up && not (is_some (find_row new_id rows)) && not (key_taken delivery_key rows)
    then (
      rows ++ new_signal new_id now payload delivery_key (or_else attempts default_attempts) ∷ [],
      some new_id,
    )
    else (rows, none)

-- A session that finds the row of `signal_id` and assigns to it.
abbrev pub with_row : Bool → IdText → (Signal → Signal) → Table → Table × Option Signal
with_row up signal_id f rows = elim (parse_uuid signal_id) [
  | none ↦ (rows, none)
  | some i ↦
      if up
      then elim (find_row i rows) [
        | none ↦ (rows, none)
        | some r ↦ (update_row i f rows, some (f r))
      ]
      else (rows, none)
]

abbrev pub published_row : Signal → Signal
published_row r = record r { status = SignalStatus.published }

unfoldable pub mark_published : Bool → IdText → Table → Table × Bool
mark_published up signal_id rows =
    let (rows', r) = with_row up signal_id published_row rows in (rows', is_some r)

-- A redelivery check: a database error is raised (`none`), never read as "no such row".
unfoldable pub get_by_delivery_key : Bool → String → Table → Option (Option Signal)
get_by_delivery_key up key rows = if up then some (find_key key rows) else none

abbrev pub failed_row : ℕ → Signal → Signal
failed_row now r = record r { status = SignalStatus.failed; attempts = 0; last_attempt = some now }

unfoldable pub mark_failed : Bool → ℕ → IdText → Table → Table × Bool
mark_failed up now signal_id rows =
    let (rows', r) = with_row up signal_id (failed_row now) rows in (rows', is_some r)

unfoldable pub get_by_id : Bool → IdText → Table → Option Signal
get_by_id up signal_id rows = (with_row up signal_id (λ r. r) rows).1

abbrev pub spent_row : ℕ → Signal → Signal
spent_row now r =
    if leb r.attempts 1
    then record r { status = SignalStatus.failed; attempts = 0; last_attempt = some now }
    else record r { attempts = r.attempts - 1; last_attempt = some now }

unfoldable pub record_attempt_failure : Bool → ℕ → IdText → Table → Table × Option Signal
record_attempt_failure up now signal_id rows = with_row up signal_id (spent_row now) rows

-- `ORDER BY "createdAt" ASC`.
unfoldable pub insert_by_age : Signal → Table → Table
insert_by_age r [] = r ∷ []
insert_by_age r (s ∷ rows) =
    let rest = insert_by_age r rows in
    if leb r.created_at s.created_at then r ∷ s ∷ rows else s ∷ rest

unfoldable pub sort_by_age : Table → Table
unfolding insert_by_age
sort_by_age [] = []
sort_by_age (r ∷ rows) = insert_by_age r (sort_by_age rows)

-- Recorded more than `interval` ago; a row with no attempt on record never is.
abbrev pub attempted_before : ℕ → ℕ → Option ℕ → Bool
attempted_before now interval none = false
attempted_before now interval (some t) = ltb (t + interval) now

unfoldable pub is_retryable : ℕ → ℕ → Signal → Bool
is_retryable now interval r =
    is_queued r.status && ltb 0 r.attempts && attempted_before now interval r.last_attempt

unfoldable pub list_retryable : Bool → ℕ → ℕ → Table → Table
unfolding is_retryable sort_by_age keep
list_retryable up now interval rows =
    if up then sort_by_age (keep (is_retryable now interval) rows) else []

abbrev pub member_of : String → List String → Bool
member_of s [] = false
member_of s (t ∷ ts) = s == t || member_of s ts

abbrev pub is_recent : List String → ℕ → ℕ → Signal → Bool
is_recent strategies now since r = member_of r.strategy strategies && leb now (r.created_at + since)

abbrev pub has_raw : Signal → Bool
has_raw r = elim r.raw [ empty ↦ false | _ ↦ true ]

abbrev pub envelope : Signal → ℕ × Raw
envelope r = (r.id, r.raw)

abbrev is_nil : List String → Bool
is_nil [] = true
is_nil (s ∷ ss) = false

unfoldable pub list_recent_by_strategies : Bool → ℕ → List String → ℕ → Table → List (ℕ × Raw)
unfolding sort_by_age keep
list_recent_by_strategies up now strategies since rows =
    if is_nil strategies || leb since 0
    then []
    else if up
    then map envelope (keep has_raw (sort_by_age (keep (is_recent strategies now since) rows)))
    else []
