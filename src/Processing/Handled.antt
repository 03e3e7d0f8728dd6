-- ===== src/Processing/Handled.antt =====
-- What the replies of the handler of an envelope promise.
use algo_trading_broker.Prelude.{
  leb, ℕ, ◌<◌, ◌≡◌, refl, ap, ◌∙◌, ◌≢◌, ◌⊎◌, inl, inr, ◌==◌, nat_eq, string_eq, option_eq, String,
  Bool, true, false, Option, none, some, List, [], ◌∷◌, ◌++◌, arith, is_some, Bool-cases,
  Option-cases,
}
use algo_trading_broker.Core.{IdText, uuid, SignalStatus, is_queued, SignalAction, action_eq}
use algo_trading_broker.Webhook.{WebhookPayload, parse_signal}
use algo_trading_broker.Signals.{
  Signal, Table, find_row, with_row, spent_row, failed_row, new_signal, log_signal, mark_published,
  mark_failed, record_attempt_failure,
}
use algo_trading_broker.Signals.Table.{find_row-update, Plain}
use algo_trading_broker.Signals.Operations.{spent-Plain, failed-Plain, log_signal-find}
use algo_trading_broker.Processing.{
  parse_error, Result, ok, raised, Message, World, Pass, Config, Outcome, accepted, blocked,
  invalid, retry_scheduled, duplicate, not_found, skipped, send, publish, after_publish, fanout,
  handle_redelivery, first_fanout_unconfirmed, close_blocked, first_delivery, open_gate,
  handle_enqueued,
}
use algo_trading_broker.Processing.Invariant.{
  message_id, Publish-cases, Sends, publish_effect, Inv, find_existing_cases, is_blocked_cases,
}
use algo_trading_broker.Processing.Runs.{row_of}
use algo_trading_broker.Processing.Settled.{unconfirmed-queued}

-- Failed for good, or queued with the failed attempt on record, so that the retry job takes it up.
abbrev pub Waits : Signal → Type 0
Waits r =
    (r.status ≡ SignalStatus.failed)
    ⊎ ((r.status ≡ SignalStatus.queued) × (r.last_attempt ≢ none) × (0 < r.attempts))

-- What each reply of the handler promises about the world that it leaves.
abbrev pub Handled : Pass → List Message → Outcome → World → Type 0
Handled pass sent (accepted i t) w' =
    (m : Message) × (message_id m ≡ i) × (w'.sent ≡ sent ++ m ∷ [])
Handled pass sent blocked w' = (w'.sent ≡ sent) × (pass.gate ≡ some (some "1"))
Handled pass sent (invalid i) w' =
    (r : Signal) × (row_of w'.rows i ≡ some r) × (r.status ≡ SignalStatus.failed)
Handled pass sent (retry_scheduled i n) w' = (r : Signal) × (row_of w'.rows i ≡ some r) × Waits r
Handled pass sent (duplicate i) w' =
    (r : Signal) × (row_of w'.rows i ≡ some r)
    × (first_fanout_unconfirmed r ≡ false)
    × (w'.sent ≡ sent)
Handled pass sent not_found w' = ⊥
Handled pass sent (skipped i) w' = ⊥

-- A raise promises nothing: the message is left to be redelivered.
abbrev pub Ends : Pass → List Message → Result Outcome × World → Type 0
Ends pass sent (ok o, w') = Handled pass sent o w'
Ends pass sent (raised e, w') = Unit

-- A publish that does not raise has sent the message.
abbrev SendsIfOk : World → IdText → Result (Unit {0}) → World → Type 0
SendsIfOk w i (ok u) w' = (m : Message) × (message_id m ≡ i) × (w'.sent ≡ w.sent ++ m ∷ [])
SendsIfOk w i (raised e) w' = Unit

send_ok :
    (pass : Pass) (m : Message) (w : World)
    → SendsIfOk w (message_id m) (send pass m w).0 (send pass m w).1
unfolding send
send_ok pass m w = elim (Publish-cases pass.publish) [
  | inl e ↦ rw e tt
  | inr (inl e) ↦ rw e (m, refl, refl)
  | inr (inr e) ↦ rw e tt
]

publish_ok :
    (pass : Pass) (payload : WebhookPayload) (signal_id : IdText) (w : World)
    → SendsIfOk w signal_id
        (publish pass payload signal_id w).0
        (publish pass payload signal_id w).1
unfolding publish parse_signal
publish_ok pass payload signal_id w =
    elim (Bool-cases (payload.position.action == SignalAction.flat)) [
      | inl e ↦ rw e (send_ok pass _ w)
      | inr e ↦
          rw e (elim (Bool-cases pass.parses) [ inl f ↦ rw f (send_ok pass _ w) | inr f ↦ rw f tt ])
    ]

pub Sends-rows : (w w' : World) (i : IdText) → Sends w i w' → w'.rows ≡ w.rows
Sends-rows w w' i (inl e) = ap (λ (x : World). x.rows) e
Sends-rows w w' i (inr (m, e, s)) = ap (λ (x : World). x.rows) s

module _ (i : ℕ) (r : Signal) (rows : Table) (found : find_row i rows ≡ some r) where
  pub with_row-find :
      (up : Bool) (f : Signal → Signal) (p : Plain f)
      → is_some (with_row up (uuid i) f rows).1 ≡ true
      → find_row i (with_row up (uuid i) f rows).0 ≡ some (f r)
  with_row-find up f p h = ground (arith, find_row-update i i f p rows, found)

spent-Waits : (now : ℕ) (r : Signal) → is_queued r.status ≡ true → Waits (spent_row now r)
spent-Waits now r q = elim (Bool-cases (leb r.attempts 1)) [
  | inl e ↦ rw e (inl refl)
  | inr e ↦ rw e (inr (ground arith, λ h. cc, ground arith))
]

module _ (pass : Pass) (cfg : Config) (i : ℕ) (r : Signal)
    (queued : is_queued r.status ≡ true) where
  after_publish-Ends :
      (payload : WebhookPayload) (n : ℕ) (result : Result (Unit {0})) (w w' : World)
      → find_row i w'.rows ≡ some r
      → SendsIfOk w (uuid i) result w'
      → Ends pass w.sent (after_publish pass cfg (uuid i) payload n result w')
  unfolding after_publish mark_published mark_failed record_attempt_failure
  after_publish-Ends payload n (ok u) w w' f h = elim (Bool-cases cfg.broadcasting) [
    | inl e ↦ rw e h
    | inr e ↦ rw e h
  ]
  after_publish-Ends payload n (raised parse_error) w w' f h =
      elim (Bool-cases (mark_failed pass.mark_up pass.now (uuid i) w'.rows).1) [
        | inl e ↦ rw e (
          failed_row pass.now r,
          with_row-find i r w'.rows f pass.mark_up (failed_row pass.now) (failed-Plain pass.now) e,
          refl,
        )
        | inr e ↦ rw e tt
      ]
  after_publish-Ends payload n (raised e') w w' f h =
      elim (Bool-cases
        (is_some (record_attempt_failure pass.record_up pass.now (uuid i) w'.rows).1)) [
          | inl e ↦ rw e (
            spent_row pass.now r,
            with_row-find i r w'.rows f pass.record_up (spent_row pass.now) (spent-Plain pass.now)
                e,
            spent-Waits pass.now r queued,
          )
          | inr e ↦ rw e tt
        ]

  fanout-Ends :
      (payload : WebhookPayload) (n : ℕ) (w : World)
      → find_row i w.rows ≡ some r
      → Ends pass w.sent (fanout pass cfg (uuid i) payload n w)
  unfolding fanout
  fanout-Ends payload n w f =
      after_publish-Ends payload n _ w _
        (ap (find_row i) (Sends-rows w _ (uuid i) (publish_effect pass payload (uuid i) w)) ∙ f)
        (publish_ok pass payload (uuid i) w)

module _ (pass : Pass) (cfg : Config) (w : World) where
  first_delivery-Ends :
      (payload : WebhookPayload) (key : Option String)
      → Ends pass w.sent (first_delivery pass cfg payload key w)
  unfolding first_delivery
  first_delivery-Ends payload key =
      let up = pass.insert_up in
      let n = some cfg.max_attempts in
      let logged = log_signal up pass.new_id pass.now cfg.max_attempts payload key n w.rows in
      elim (Option-cases logged.1) [
        | inl e ↦ rw e tt
        | inr (i, e) ↦ rw e (
            fanout-Ends pass cfg i (new_signal pass.new_id pass.now payload key cfg.max_attempts)
              (unfold new_signal in refl) payload cfg.max_attempts (record w { rows = logged.0 })
              (log_signal-find up pass.new_id pass.now cfg.max_attempts payload key n w.rows i e))
      ]

  open_gate-Ends :
      (payload : WebhookPayload) (key : Option String) (found : Option Signal)
      → ((r : Signal) → found ≡ some r → find_row r.id w.rows ≡ some r)
      → Ends pass w.sent (open_gate pass cfg payload key found w)
  unfolding open_gate handle_redelivery
  open_gate-Ends payload key none f = first_delivery-Ends payload key
  open_gate-Ends payload key (some r) f = elim (Bool-cases (first_fanout_unconfirmed r)) [
    | inl e ↦
        rw e (fanout-Ends pass cfg r.id r (unconfirmed-queued r e) payload r.attempts w (f r refl))
    | inr e ↦ rw e (r, f r refl, e, refl)
  ]

  close_blocked-Ends :
      (found : Option Signal)
      → pass.gate ≡ some (some "1")
      → Ends pass w.sent (close_blocked pass found w)
  unfolding close_blocked
  close_blocked-Ends none g = (refl, g)
  close_blocked-Ends (some r) g = elim (Bool-cases (first_fanout_unconfirmed r)) [
    | inl e ↦ rw e (elim (Bool-cases (mark_failed pass.mark_up pass.now (uuid r.id) w.rows).1) [
      | inl f ↦ rw f (refl, g)
      | inr f ↦ rw f tt
    ])
    | inr e ↦ rw e (refl, g)
  ]

-- When the handler of an envelope returns in a world that satisfies the invariant, and so the
-- worker acknowledges the message, then: with `accepted` its signal was sent to the workers in
-- this pass; with `retry_scheduled` its row is failed, or is queued with attempts left and a
-- failed one on record, which the retry job takes up; with `invalid` its row is failed; with
-- `duplicate` its row was already past its first fan-out and nothing was sent; with `blocked`
-- the gate read "1" and nothing was sent. No other reply occurs.
pub handle_enqueued-Ends :
    (pass : Pass) (cfg : Config) (payload : WebhookPayload) (key : Option String)
    (redelivered : Bool) (w : World)
    → Inv w
    → Ends pass w.sent (handle_enqueued pass cfg payload key redelivered w)
unfolding handle_enqueued
handle_enqueued-Ends pass cfg payload key redelivered w h =
    elim (find_existing_cases pass w key redelivered h.table.distinct) [
      | inl e ↦ rw e tt
      | inr (found, e, f) ↦ rw e (elim (is_blocked_cases pass w payload) [
        | inl g ↦ rw g tt
        | inr (true, n, g, c) ↦
            rw g (close_blocked-Ends pass cfg (record w { notices = n }) found (c refl))
        | inr (false, n, g, c) ↦
            rw g (open_gate-Ends pass cfg (record w { notices = n }) payload key found f)
      ])
    ]
