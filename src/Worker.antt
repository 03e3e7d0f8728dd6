-- ===== src/Worker.antt =====
-- broker/services/signal_processing_service.py, `SignalWorker`, over
-- broker/services/jetstream_service.py: how one JetStream message is handled and settled.
-- The outcomes of the calls of the k-th try are those of `passes k`. Waiting changes no state here.
pub mod Settling
use algo_trading_broker.Prelude.{
  ℕ, suc, ◌+◌, Bool, true, ltb, String, Option, List, [], ◌∷◌, or_else,
}
use algo_trading_broker.Webhook.{WebhookPayload}
use algo_trading_broker.Processing.{
  Result, ok, raised, Outcome, World, Pass, Config, handle_enqueued,
}

-- What the bytes of a message decode to.
pub data Envelope : Type 0 where
  malformed_json : Envelope
  missing_payload : Envelope
  invalid_payload : Envelope
  envelope : WebhookPayload → Envelope

-- A message: its data, what `delivery_key_for` answers, and the delivery count of its metadata.
pub record JetStreamMessage : Type 0 where
  pub content : Envelope
  pub delivery_key : Option String
  pub num_delivered : Option ℕ

pub data Settlement : Type 0 where
  ack nak term : Settlement

-- 1 for a message with no metadata.
abbrev pub delivery_count : JetStreamMessage → ℕ
delivery_count msg = or_else msg.num_delivered 1

module _ (cfg : Config) (payload : WebhookPayload) (key : Option String) (passes : ℕ → Pass) where
  -- The `while True` of `_handle_one`: a try that raises is repeated after each delay that is left,
  -- from then on as a redelivery, and the last one is NAK-ed.
  unfoldable pub attempts :
      (delays : List ℕ) (k : ℕ) (redelivered : Bool) → World → Settlement × World
  attempts [] k redelivered w =
      let (r, w') = handle_enqueued (passes k) cfg payload key redelivered w in
      elim r [ ok o ↦ (ack, w') | raised e ↦ (nak, w') ]
  attempts (delay ∷ delays) k redelivered w =
      let (r, w') = handle_enqueued (passes k) cfg payload key redelivered w in
      elim r [ ok o ↦ (ack, w') | raised e ↦ attempts delays (suc k) true w' ]

-- The pauses before each in-place retry, in milliseconds.
abbrev pub inline_retry_delays : List ℕ
inline_retry_delays = 500 ∷ 1000 ∷ 2000 ∷ 4000 ∷ []

pub handle_content :
    Config → (passes : ℕ → Pass) → JetStreamMessage → Envelope → World → Settlement × World
handle_content cfg passes msg malformed_json w = (term, w)
handle_content cfg passes msg missing_payload w = (term, w)
handle_content cfg passes msg invalid_payload w = (term, w)
handle_content cfg passes msg (envelope payload) w =
    attempts cfg payload msg.delivery_key passes inline_retry_delays 0 (ltb 1 (delivery_count msg))
      w

unfoldable pub handle_one :
    Config → (passes : ℕ → Pass) → JetStreamMessage → World → Settlement × World
unfolding handle_content
handle_one cfg passes msg w = handle_content cfg passes msg msg.content w
