-- ===== src/Processing.antt =====
-- broker/services/signal_processing_service.py, the service: the handler of a JetStream envelope,
-- the retry of a persisted signal, and the fan-out that both share. A pass is one run of a handler;
-- its record holds how each call of the database, of NATS and of Telegram ends in that run, so a
-- theorem over all passes is one over all patterns of failure.
mod Monad
pub mod Invariant
pub mod Runs
pub mod Settled
pub mod Handled
pub mod Retries
pub use Monad.{
  Failure, signal_error, runtime_error, parse_error, publish_error, store_error, Result, ok, raised,
  Message, signal_message, flat_message, World, M, pure, raise, follow, catch, on_rows, ◌>>=◌, ◌>>◌,
}
use algo_trading_broker.Prelude.{
  ℕ, ◌+◌, ◌-◌, String, Bool, true, false, ◌&&◌, Option, none, some, List, [], ◌∷◌, ◌++◌, ltb,
  is_some, if◌then◌else◌, ◌==◌, string_eq, option_eq,
}
use algo_trading_broker.Prelude.Texts.{Text}
use algo_trading_broker.Core.{SignalAction, IdText, uuid, is_queued, action_eq}
use algo_trading_broker.Webhook.{WebhookPayload, TradingSignal, normalise_symbol, parse_signal}
use algo_trading_broker.Signals.{
  Signal, Raw, payload_object, Table, log_signal, mark_published, get_by_delivery_key, mark_failed,
  get_by_id, record_attempt_failure, list_retryable,
}

-- How a publish on the strategy's subject ends. `unconfirmed` raises too, though the message got
-- through.
pub data Publish : Type 0 where
  delivered lost unconfirmed : Publish

-- What the world outside answers in one pass. `gate` is what `get_strict(SIGNAL_BLOCKED)` reads,
-- `none` when it raises; `parses` says whether the schema of `TradingSignal` accepts the fields.
pub record Pass : Type 0 where
  pub now : ℕ
  pub new_id : ℕ
  pub gate : Option (Option String)
  pub parses : Bool
  pub publish : Publish
  pub lookup_up : Bool
  pub insert_up : Bool
  pub mark_up : Bool
  pub record_up : Bool
  pub fetch_up : Bool

pub record Config : Type 0 where
  pub max_attempts : ℕ
  pub broadcasting : Bool

-- The `status` of the reply, with the ids that it carries.
pub data Outcome : Type 0 where
  accepted : IdText → String → Outcome
  blocked : Outcome
  invalid : IdText → Outcome
  retry_scheduled : IdText → ℕ → Outcome
  duplicate : IdText → Outcome
  not_found : Outcome
  skipped : IdText → Outcome

-- The integer difference stops at 0 here; a row never counts from more than `max_attempts`.
unfoldable pub attempt_number_for_notification : ℕ → ℕ → Option ℕ
attempt_number_for_notification attempts_before max_attempts =
    if ltb 2 attempts_before then none else some (max_attempts + 1 - attempts_before)

unfoldable pub first_fanout_unconfirmed : Signal → Bool
first_fanout_unconfirmed r =
    is_queued r.status && (elim r.last_attempt [ none ↦ true | some t ↦ false ])

unfoldable pub is_blocked : Pass → WebhookPayload → M Bool
is_blocked pass payload w = elim pass.gate [
  | none ↦ (raised store_error, w)
  | some value ↦
      if value == some "1" then (ok true, record w { notices = w.notices + 1 }) else (ok false, w)
]

unfoldable pub send : Pass → Message → M (Unit {0})
send pass m w = elim pass.publish [
  | delivered ↦ (ok tt, record w { sent = w.sent ++ m ∷ [] })
  | lost ↦ (raised publish_error, w)
  | unconfirmed ↦ (raised publish_error, record w { sent = w.sent ++ m ∷ [] })
]

unfoldable pub publish_flat : Pass → WebhookPayload → IdText → M (Unit {0})
unfolding send
publish_flat pass payload signal_id = send pass (
    flat_message signal_id payload.signal_uxid (normalise_symbol payload.symbol) payload.timestamp
      payload.strategy)

unfoldable pub publish_signal : Pass → WebhookPayload → IdText → M (Unit {0})
unfolding send
publish_signal pass payload signal_id =
    if pass.parses
    then send pass (signal_message (parse_signal payload signal_id))
    else raise parse_error

-- The broadcaster's exceptions are swallowed, so only the call is on record.
unfoldable pub broadcast : Config → WebhookPayload → ℕ → M (Unit {0})
unfolding attempt_number_for_notification
broadcast cfg payload attempts_before w =
    if cfg.broadcasting
    then (
      ok tt,
      record w {
        broadcasts =
            w.broadcasts
            ++ (payload, attempt_number_for_notification attempts_before cfg.max_attempts) ∷ [];
      },
    )
    else (ok tt, w)

unfoldable pub publish : Pass → WebhookPayload → IdText → M (Unit {0})
unfolding publish_flat publish_signal
publish pass payload signal_id =
    if payload.position.action == SignalAction.flat
    then publish_flat pass payload signal_id
    else publish_signal pass payload signal_id

-- The two `except` branches of the fan-out, and what follows its `try`.
unfoldable pub after_publish :
    Pass → Config → IdText → WebhookPayload → ℕ → Result (Unit {0}) → M Outcome
unfolding broadcast
after_publish pass cfg signal_id payload attempts_before (ok _) = do
  broadcast cfg payload attempts_before
  on_rows (mark_published pass.mark_up signal_id)
  pure (accepted signal_id payload.timestamp)
after_publish pass cfg signal_id payload attempts_before (raised parse_error) = do
  done ← on_rows (mark_failed pass.mark_up pass.now signal_id)
  if done then pure (invalid signal_id) else raise runtime_error
after_publish pass cfg signal_id payload attempts_before (raised e) = do
  row ← on_rows (record_attempt_failure pass.record_up pass.now signal_id)
  if is_some row then pure (retry_scheduled signal_id attempts_before) else raise runtime_error

unfoldable pub fanout : Pass → Config → IdText → WebhookPayload → ℕ → M Outcome
unfolding publish after_publish
fanout pass cfg signal_id payload attempts_before = do
  result ← catch (publish pass payload signal_id)
  after_publish pass cfg signal_id payload attempts_before result

unfoldable pub handle_redelivery : Pass → Config → Signal → WebhookPayload → M Outcome
unfolding first_fanout_unconfirmed
handle_redelivery pass cfg row payload =
    if first_fanout_unconfirmed row
    then fanout pass cfg (uuid row.id) payload row.attempts
    else pure (duplicate (uuid row.id))

-- The lookup of the row that an earlier delivery of this message wrote.
unfoldable pub find_existing : Pass → Option String → Bool → M (Option Signal)
find_existing pass none redelivered w = (ok none, w)
find_existing pass (some key) false w = (ok none, w)
find_existing pass (some key) true w = elim (get_by_delivery_key pass.lookup_up key w.rows) [
  | none ↦ (raised store_error, w)
  | some row ↦ (ok row, w)
]

-- Under a block the interrupted first fan-out is not resumed: its row is closed.
unfoldable pub close_blocked : Pass → Option Signal → M Outcome
unfolding first_fanout_unconfirmed
close_blocked pass none = pure blocked
close_blocked pass (some row) =
    if first_fanout_unconfirmed row
    then (do
      done ← on_rows (mark_failed pass.mark_up pass.now (uuid row.id))
      if done then pure blocked else raise runtime_error)
    else pure blocked

unfoldable pub first_delivery : Pass → Config → WebhookPayload → Option String → M Outcome
first_delivery pass cfg payload delivery_key = do
  signal_id ← on_rows (
      log_signal pass.insert_up pass.new_id pass.now cfg.max_attempts payload delivery_key
        (some cfg.max_attempts))
  elim signal_id [
    | none ↦ raise runtime_error
    | some i ↦ fanout pass cfg (uuid i) payload cfg.max_attempts
  ]

unfoldable pub open_gate :
    Pass → Config → WebhookPayload → Option String → Option Signal → M Outcome
open_gate pass cfg payload delivery_key none = first_delivery pass cfg payload delivery_key
open_gate pass cfg payload delivery_key (some row) = handle_redelivery pass cfg row payload

unfoldable pub handle_enqueued :
    Pass
    → Config
    → WebhookPayload
    → (delivery_key : Option String) → (redelivered : Bool) → M Outcome
handle_enqueued pass cfg payload delivery_key redelivered = do
  existing ← find_existing pass delivery_key redelivered
  stop ← is_blocked pass payload
  if stop then close_blocked pass existing else open_gate pass cfg payload delivery_key existing

-- A stored payload that the schema refuses uses up one attempt.
unfoldable pub retry_raw : Pass → Config → IdText → ℕ → Raw → M Outcome
retry_raw pass cfg signal_id attempts (payload_object payload) =
    fanout pass cfg signal_id payload attempts
retry_raw pass cfg signal_id attempts _ = do
  on_rows (record_attempt_failure pass.record_up pass.now signal_id)
  pure (invalid signal_id)

unfoldable pub retry_row : Pass → Config → IdText → Option Signal → M Outcome
unfolding retry_raw
retry_row pass cfg signal_id none = pure not_found
retry_row pass cfg signal_id (some row) =
    if is_queued row.status && ltb 0 row.attempts
    then retry_raw pass cfg signal_id row.attempts row.raw
    else pure (skipped signal_id)

unfoldable pub retry_signal : Pass → Config → IdText → M Outcome
unfolding retry_row
retry_signal pass cfg signal_id w =
    retry_row pass cfg signal_id (get_by_id pass.fetch_up signal_id w.rows) w
