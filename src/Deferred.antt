-- ===== src/Deferred.antt =====
-- broker/services/signal_processing_service.py, the webhook's enqueue path: the token check, the
-- publish onto JetStream under a deadline, and `DeferredEnqueuer`, the in-memory backlog behind it.
-- The loop of the enqueuer and the HTTP handlers interleave at its two waits, so the loop is a
-- state machine and a run is a sequence of events. A ledger beside the state holds what became of
-- the envelopes; it has no counterpart in the code but its log lines.
pub mod Books
pub mod Ledger
pub mod Replies
use algo_trading_broker.Prelude.{
  ℕ, suc, ◌+◌, String, Bool, true, false, ◌&&◌, Option, none, some, List, [], ◌∷◌, ◌++◌, ltb, leb,
  length, if◌then◌else◌, ◌==◌, string_eq,
}
use algo_trading_broker.Webhook.{WebhookPayload}

pub record DeferredEnvelope : Type 0 where
  pub strategy : String
  pub payload : WebhookPayload
  pub msg_id : ℕ
  pub attempts : ℕ

-- Where the loop waits with the envelope that it has taken off the queue: for the publish, or for
-- the interval before it puts the envelope back.
pub data Phase : Type 0 where
  publishing waiting : Phase

pub record Enqueuer : Type 0 where
  pub max_attempts : ℕ
  pub maxsize : ℕ
  pub queue : List DeferredEnvelope
  pub in_flight : Option (DeferredEnvelope × Phase)
  -- The ledger: taken over by `submit`, acknowledged by JetStream, and reported lost; and the
  -- publishes that JetStream stored, acknowledged in time or not. Its duplicate window, which drops
  -- the later ones of an id, is not modelled.
  pub taken : List DeferredEnvelope
  pub confirmed : List DeferredEnvelope
  pub gone : List DeferredEnvelope
  pub stream : List DeferredEnvelope

-- How a publish ends: acknowledged; stored, but the call raised for want of the answer; or not
-- stored.
pub data Publish : Type 0 where
  acked unanswered missed : Publish

-- `asyncio.Queue.full()`: a `maxsize` of 0 is no bound.
abbrev pub is_full : Enqueuer → Bool
is_full d = ltb 0 d.maxsize && leb d.maxsize (length d.queue)

abbrev pub flying : Option (DeferredEnvelope × Phase) → List DeferredEnvelope
flying none = []
flying (some (item, phase)) = item ∷ []

-- `pending`: the queue, and the envelope in flight.
unfoldable pub pending : Enqueuer → ℕ
pending d = length d.queue + length (flying d.in_flight)

unfoldable pub submit : String → WebhookPayload → ℕ → Enqueuer → Enqueuer × Bool
submit strategy payload msg_id d =
    let item : DeferredEnvelope = record {
      strategy = strategy;
      payload = payload;
      msg_id = msg_id;
      attempts = 0;
    } in
    if is_full d
    then (d, false)
    else (record d { queue = d.queue ++ item ∷ []; taken = d.taken ++ item ∷ [] }, true)

-- `_run` takes the next envelope and begins an attempt.
abbrev pub pick_from :
    Option (DeferredEnvelope × Phase) → List DeferredEnvelope → Enqueuer → Enqueuer
pick_from none (item ∷ rest) d = record d {
  queue = rest;
  in_flight = some (record item { attempts = item.attempts + 1 }, publishing);
}
pick_from _ _ d = d

unfoldable pub pick : Enqueuer → Enqueuer
pick d = pick_from d.in_flight d.queue d

-- After a publish that raised: the envelope is given up or waits.
abbrev pub give_up_or_wait : DeferredEnvelope → Enqueuer → Enqueuer
give_up_or_wait item d =
    if leb d.max_attempts item.attempts
    then record d { in_flight = none; gone = d.gone ++ item ∷ [] }
    else record d { in_flight = some (item, waiting) }

-- The publish of `_attempt` returned, or raised.
abbrev pub settle_attempt : Publish → Option (DeferredEnvelope × Phase) → Enqueuer → Enqueuer
settle_attempt acked (some (item, publishing)) d = record d {
  in_flight = none;
  confirmed = d.confirmed ++ item ∷ [];
  stream = d.stream ++ item ∷ [];
}
settle_attempt unanswered (some (item, publishing)) d =
    give_up_or_wait item (record d { stream = d.stream ++ item ∷ [] })
settle_attempt missed (some (item, publishing)) d = give_up_or_wait item d
settle_attempt _ _ d = d

unfoldable pub publish_ends : Publish → Enqueuer → Enqueuer
publish_ends outcome d = settle_attempt outcome d.in_flight d

-- The interval is over: the envelope goes back, or is lost when the backlog has filled up.
abbrev pub requeue : Option (DeferredEnvelope × Phase) → Enqueuer → Enqueuer
requeue (some (item, waiting)) d =
    if is_full d
    then record d { in_flight = none; gone = d.gone ++ item ∷ [] }
    else record d { in_flight = none; queue = d.queue ++ item ∷ [] }
requeue _ d = d

unfoldable pub interval_ends : Enqueuer → Enqueuer
interval_ends d = requeue d.in_flight d

abbrev pub settle_last : Publish → DeferredEnvelope → Enqueuer → Enqueuer
settle_last acked item d = record d {
  confirmed = d.confirmed ++ item ∷ [];
  stream = d.stream ++ item ∷ [];
}
settle_last unanswered item d = record d {
  gone = d.gone ++ item ∷ [];
  stream = d.stream ++ item ∷ [];
}
settle_last missed item d = record d { gone = d.gone ++ item ∷ [] }

abbrev pub lost_by : Publish → ℕ
lost_by acked = 0
lost_by _ = 1

-- `_drain`: `ends k` says how the k-th last publish ended inside the time that was left, which it
-- missed when there was none.
unfoldable pub drain : (ends : ℕ → Publish) → ℕ → List DeferredEnvelope → Enqueuer → Enqueuer × ℕ
drain ends k [] d = (d, 0)
drain ends k (item ∷ items) d =
    let (d', lost) = drain ends (suc k) items (settle_last (ends k) item d) in
    (d', lost_by (ends k) + lost)

-- `stop`: the loop is cancelled, then each envelope still owed is published once more. Answers how
-- many were lost.
unfoldable pub stop : (ends : ℕ → Publish) → Enqueuer → Enqueuer × ℕ
unfolding drain
stop ends d =
    drain ends 0 (flying d.in_flight ++ d.queue) (record d { in_flight = none; queue = [] })

-- What can happen to a running enqueuer.
pub data Event : Type 0 where
  submitted : String → WebhookPayload → ℕ → Event
  picked : Event
  published : Publish → Event
  slept : Event

unfoldable pub step : Event → Enqueuer → Enqueuer
unfolding submit pick publish_ends interval_ends
step (submitted strategy payload msg_id) d = (submit strategy payload msg_id d).0
step picked d = pick d
step (published outcome) d = publish_ends outcome d
step slept d = interval_ends d

unfoldable pub run : List Event → Enqueuer → Enqueuer
run [] d = d
run (e ∷ events) d = run events (step e d)

abbrev pub start : ℕ → ℕ → Enqueuer
start max_attempts maxsize = record {
  max_attempts = max_attempts;
  maxsize = maxsize;
  queue = [];
  in_flight = none;
  taken = [];
  confirmed = [];
  gone = [];
  stream = [];
}

-- The reply of the webhook, or the status code of a `SignalError`.
pub data Reply : Type 0 where
  queued : String → Reply
  deferred : String → Reply
  refused : ℕ → Reply

-- `_verify_token`: 500 with no secret configured, 401 for another token.
unfoldable pub verify_token : String → WebhookPayload → Option ℕ
verify_token secret payload =
    if secret == "" then some 500 else if payload.token == secret then none else some 401

unfoldable pub defer : WebhookPayload → ℕ → Option Enqueuer → Option Enqueuer × Reply
defer payload msg_id none = (none, refused 503)
defer payload msg_id (some d) =
    let (d', kept) = submit payload.strategy payload msg_id d in
    (some d', if kept then deferred payload.timestamp else refused 503)

-- `in_time`: JetStream acknowledged the publish inside the deadline. Without that the message may
-- be on the stream all the same; the retry carries its id.
unfoldable pub enqueue :
    (secret : String) (in_time : Bool) (msg_id : ℕ)
    → WebhookPayload
    → Option Enqueuer
    → Option Enqueuer × Reply
unfolding verify_token defer submit
enqueue secret in_time msg_id payload d = elim (verify_token secret payload) [
  | some code ↦ (d, refused code)
  | none ↦ if in_time then (d, queued payload.timestamp) else defer payload msg_id d
]
