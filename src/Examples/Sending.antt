-- ===== src/Examples/Sending.antt =====
-- The signal pipeline on concrete deliveries, retries and ticks.
use mathlib.Core.List.{Perm}
use mathlib.Core.Path.{subst}
use algo_trading_broker.Prelude.{
  ℕ, ◌↔◌, ◌+◌, ◌<◌, ◌≡◌, refl, ap, get_elem?, nat_beq, String, true, false, none, some, List, [],
  ◌∷◌, ◌++◌, length, arith, All, if◌then◌else◌, keep, nat_eq,
}
use algo_trading_broker.Prelude.Ints.{pos, or_zero}
use algo_trading_broker.Core.{SignalStatus, uuid, action_value}
use algo_trading_broker.Webhook.{parse_signal, normalise_symbol, effective_risk}
use algo_trading_broker.Prelude.Texts.{upper, strip, split, lstrip, rstrip}
use algo_trading_broker.Signals.{
  Signal, payload_object, find_row, find_key, log_signal, record_attempt_failure,
  get_by_delivery_key, mark_published, update_row, new_signal, is_retryable, list_retryable,
  published_row, spent_row,
}
use algo_trading_broker.Signals.Table.{IsCoherent}
use algo_trading_broker.Signals.Retryable.{Eligible, OldestFirst, list_retryable-Eligible}
use algo_trading_broker.Processing.{
  delivered, lost, unconfirmed, World, Pass, Message, signal_message, handle_enqueued,
  find_existing, is_blocked, open_gate, first_delivery, fanout, publish, publish_signal,
  publish_flat, send, after_publish, handle_redelivery, broadcast, attempt_number_for_notification,
  first_fanout_unconfirmed,
}
use algo_trading_broker.Processing.Invariant.{Inv, message_id}
use algo_trading_broker.Processing.Runs.{Event, delivery, step, run, row_of, sent-same_id}
use algo_trading_broker.Processing.Settled.{Settled, of_id, run-Settled}
use algo_trading_broker.Processing.Handled.{Ends, handle_enqueued-Ends}
use algo_trading_broker.Processing.Retries.{Fails, retries, retries-exhaust}
use algo_trading_broker.Worker.{JetStreamMessage, Envelope, handle_one}
use algo_trading_broker.Worker.Settling.{SettlesContent, handle_one-settles}
use algo_trading_broker.RetryJob.{tick_once}
use algo_trading_broker.RetryJob.Untouched.{tick_once-untouched}
use algo_trading_broker.Deferred
use algo_trading_broker.Deferred.{start, stop, pending, enqueue, Publish, acked, unanswered, missed}
use algo_trading_broker.Deferred.Replies.{Replied, enqueue-Replied}
use algo_trading_broker.Deferred.Books.{count}
use algo_trading_broker.Deferred.Ledger.{Accounted, OnStream, run-accounts, stop-accounts}
use algo_trading_broker.Examples.{long_payload, three_attempts, pass_with, empty_world}

empty_world-Inv : Inv empty_world
unfolding find_row
empty_world-Inv = record {
  table = record { distinct = tt; keys = λ i j r s k hi hj kr ks. cc; coherent = λ i r h. cc };
  known = tt;
}

-- The row of the alert, written on its first delivery.
abbrev first_row : Signal
first_row = record {
  id = 7;
  strategy = "trend";
  symbol = long_payload.symbol;
  timeframe = "15";
  timestamp = long_payload.timestamp;
  signal_uxid = some long_payload.signal_uxid;
  action = long_payload.position.action;
  price = or_zero long_payload.position.price;
  quantity = or_zero long_payload.position.quantity;
  sl = long_payload.position.sl;
  tp1 = long_payload.position.tp1;
  tp2 = long_payload.position.tp2;
  is_running = false;
  risk_percent = pos 0;
  is_scale_position = false;
  scale_strategy = none;
  status = SignalStatus.queued;
  attempts = 3;
  last_attempt = none;
  delivery_key = some "1-5";
  indicators = none;
  inputs = none;
  raw = payload_object long_payload;
  created_at = 1000;
}

abbrev world_of : Signal → World
world_of r = record { rows = r ∷ []; sent = []; broadcasts = []; notices = 0 }

find_row-one : (i : ℕ) (r s : Signal) → find_row i (r ∷ []) ≡ some s → (r.id ≡ i) × (r ≡ s)
unfolding find_row
find_row-one i r s h = ground arith

world_of-Inv : (r : Signal) → IsCoherent r → Inv (world_of r)
unfolding find_row
world_of-Inv r c = record {
  table = record {
    distinct = (refl, tt);
    keys = λ i j a b k hi hj ka kb.
        omega (arith, (find_row-one i r a hi).0, (find_row-one j r b hj).0);
    coherent = λ i s h. subst IsCoherent (find_row-one i r s h).1 c;
  };
  known = tt;
}

queued-IsCoherent : (r : Signal) → r.status ≡ SignalStatus.queued → 0 < r.attempts → IsCoherent r
queued-IsCoherent r e h = record {
  failed_spent = λ f. cc;
  failed_stamped = λ f n. cc;
  queued_left = λ q. h;
}

abbrev raced_pass : Pass
raced_pass = record (pass_with unconfirmed 7) { record_up = false }

-- A first delivery whose publish gets through but is not confirmed, in a pass that cannot record
-- the failure; then the redelivery of the same message.
abbrev two_deliveries : List Event
two_deliveries =
    delivery raced_pass long_payload (some "1-5") false
    ∷ delivery (pass_with delivered 8) long_payload (some "1-5") true
    ∷ []

abbrev long_message : Message
long_message = signal_message (parse_signal long_payload (uuid 7))

two_deliveries-sent :
    (run three_attempts two_deliveries empty_world).sent ≡ long_message ∷ long_message ∷ []
unfolding run step handle_enqueued find_existing is_blocked open_gate first_delivery log_signal
    new_signal find_row find_key fanout publish publish_signal publish_flat send parse_signal
    normalise_symbol after_publish record_attempt_failure get_by_delivery_key handle_redelivery
    first_fanout_unconfirmed broadcast mark_published action_value upper strip split lstrip rstrip
    effective_risk update_row attempt_number_for_notification
two_deliveries-sent = refl

sent-same_id_example :
    (r : Signal) × (s : Signal) × (row_of
        (run three_attempts two_deliveries empty_world).rows
        (message_id long_message)
      ≡ some r)
    × (row_of (run three_attempts two_deliveries empty_world).rows (message_id long_message)
        ≡ some s)
    × ((k : String)
        → r.delivery_key ≡ some k
        → s.delivery_key ≡ some k
        → message_id long_message ≡ message_id long_message)
sent-same_id_example =
    sent-same_id three_attempts two_deliveries empty_world (omega arith) empty_world-Inv 0 1
      long_message long_message (ap (λ l. get_elem? l 0) two_deliveries-sent)
      (ap (λ l. get_elem? l 1) two_deliveries-sent)

published-IsCoherent : IsCoherent (published_row first_row)
published-IsCoherent = record {
  failed_spent = λ f. cc;
  failed_stamped = λ f n. cc;
  queued_left = λ q. cc;
}

abbrev published_world : World
published_world = world_of (published_row first_row)

published_world-Settled : Settled 7 published_world
unfolding find_row
published_world-Settled = record { row = published_row first_row; found = refl; over = refl }

run-Settled_example :
    (find_row 7 (run three_attempts two_deliveries published_world).rows
      ≡ find_row 7 published_world.rows)
    × (of_id 7 (run three_attempts two_deliveries published_world).sent
        ≡ of_id 7 published_world.sent)
run-Settled_example =
    run-Settled three_attempts 7 two_deliveries published_world (omega arith)
      (world_of-Inv (published_row first_row) published-IsCoherent) published_world-Settled

abbrev long_delivery : JetStreamMessage
long_delivery = record {
  content = Envelope.envelope long_payload;
  delivery_key = some "1-5";
  num_delivered = some 1;
}

abbrev lossy_passes : ℕ → Pass
lossy_passes k = pass_with lost (k + 7)

handle_one-settles_example :
    SettlesContent three_attempts lossy_passes long_delivery long_delivery.content empty_world
      (handle_one three_attempts lossy_passes long_delivery empty_world)
    × Inv (handle_one three_attempts lossy_passes long_delivery empty_world).1
handle_one-settles_example =
    handle_one-settles three_attempts lossy_passes long_delivery empty_world (omega arith)
      empty_world-Inv

handle_enqueued-Ends_example :
    Ends
      (pass_with lost 7)
      empty_world.sent
      (handle_enqueued (pass_with lost 7) three_attempts long_payload (some "1-5") true empty_world)
handle_enqueued-Ends_example =
    handle_enqueued-Ends (pass_with lost 7) three_attempts long_payload (some "1-5") true
      empty_world empty_world-Inv

lost-Fails : (k : ℕ) → Fails (pass_with lost k)
lost-Fails k = record { down = λ e. cc; parses = refl; fetches = refl; records = refl }

abbrev first_world : World
first_world = world_of first_row

abbrev two_lost : List Pass
two_lost = pass_with lost 8 ∷ pass_with lost 9 ∷ []

first_row-found : find_row 7 first_world.rows ≡ some first_row
unfolding find_row
first_row-found = refl

retries-exhaust_example :
    ((s : Signal) × (find_row 7 (retries three_attempts 7 two_lost first_world).rows ≡ some s)
      × (s.status ≡ SignalStatus.queued)
      × (s.attempts ≡ 1))
    × ((s : Signal) × (find_row 7
            (retries three_attempts 7 (two_lost ++ pass_with lost 10 ∷ []) first_world).rows
          ≡ some s)
        × (s.status ≡ SignalStatus.failed)
        × (s.attempts ≡ 0))
retries-exhaust_example =
    retries-exhaust three_attempts 7 two_lost (pass_with lost 10) first_world first_row long_payload
      (lost-Fails 8, (lost-Fails 9, tt)) (lost-Fails 10) first_row-found refl refl refl

first_row-unconfirmed : first_fanout_unconfirmed first_row ≡ true
unfolding first_fanout_unconfirmed
first_row-unconfirmed = refl

tick_once-untouched_example :
    (find_row 7 (tick_once three_attempts true 2000 60 lossy_passes first_world).rows
      ≡ some first_row)
    × (of_id 7 (tick_once three_attempts true 2000 60 lossy_passes first_world).sent
        ≡ of_id 7 first_world.sent)
tick_once-untouched_example =
    tick_once-untouched three_attempts true 2000 60 lossy_passes first_world 7 first_row
      (world_of-Inv first_row (queued-IsCoherent first_row refl (omega arith))) first_row-found
      first_row-unconfirmed

list_retryable-Eligible_example :
    OldestFirst (list_retryable true 2000 60 (first_row ∷ spent_row 1000 first_row ∷ []))
    × All
        (Eligible 2000 60)
        (list_retryable true 2000 60 (first_row ∷ spent_row 1000 first_row ∷ []))
    × Perm (list_retryable true 2000 60 (first_row ∷ spent_row 1000 first_row ∷ [])) (
        if true
        then keep (is_retryable 2000 60) (first_row ∷ spent_row 1000 first_row ∷ [])
        else [])
    × ((r : Signal) → (is_retryable 2000 60 r ≡ true) ↔ Eligible 2000 60 r)
list_retryable-Eligible_example =
    list_retryable-Eligible true 2000 60 (first_row ∷ spent_row 1000 first_row ∷ [])

abbrev backlog_events : List Deferred.Event
backlog_events =
    Deferred.Event.submitted "trend" long_payload 1
    ∷ Deferred.Event.picked
    ∷ Deferred.Event.submitted "trend" long_payload 2
    ∷ Deferred.Event.published unanswered
    ∷ Deferred.Event.slept
    ∷ []

run-accounts_example : Accounted (Deferred.run backlog_events (start 3 1))
run-accounts_example = run-accounts 3 1 backlog_events (omega arith)

abbrev one_answered : ℕ → Publish
one_answered k = if nat_beq k 0 then acked else missed

abbrev backlog : Deferred.Enqueuer
backlog = Deferred.run backlog_events (start 3 1)

stop-accounts_example :
    (pending (stop one_answered backlog).0 ≡ 0)
    × ((i : ℕ)
        → count i backlog.taken
          ≡ count i (stop one_answered backlog).0.confirmed
            + count i (stop one_answered backlog).0.gone)
    × OnStream (stop one_answered backlog).0
    × (length (stop one_answered backlog).0.gone
        ≡ length backlog.gone + (stop one_answered backlog).1)
stop-accounts_example =
    stop-accounts one_answered backlog (run-accounts 3 1 backlog_events (omega arith)).0
      (run-accounts 3 1 backlog_events (omega arith)).2

enqueue-Replied_example :
    Replied "secret" false 1 long_payload
      (some (start 3 1))
      (enqueue "secret" false 1 long_payload (some (start 3 1)))
enqueue-Replied_example = enqueue-Replied "secret" false 1 long_payload (some (start 3 1))
