-- ===== src/Processing/Retries.antt =====
-- The retries of a persisted signal, and the attempt number that a notification shows.
use mathlib.Core.Path.{subst}
use algo_trading_broker.Prelude.{
  ℕ, suc, if◌then◌else◌, ◌+◌, ◌<◌, ◌≤◌, ◌≡◌, refl, sym, ap, ◌∙◌, ◌≢◌, ◌↔◌, ◌&&◌, inl, inr, true,
  none, some, List, [], ◌∷◌, ◌++◌, arith, is_some, length, All, ltb, Bool-cases, ◌==◌,
}
use algo_trading_broker.Core.{uuid, SignalStatus, is_queued, SignalAction, action_eq}
use algo_trading_broker.Webhook.{WebhookPayload}
use algo_trading_broker.Signals.{
  Signal, payload_object, find_row, with_row, spent_row, record_attempt_failure, get_by_id,
}
use algo_trading_broker.Signals.Operations.{spent-Plain}
use algo_trading_broker.Processing.{
  publish_error, Message, raised, World, Pass, Config, delivered, send, publish, after_publish,
  fanout, retry_raw, retry_row, retry_signal, attempt_number_for_notification,
}
use algo_trading_broker.Processing.Invariant.{publish_effect, Publish-cases}
use algo_trading_broker.Processing.Handled.{Sends-rows, with_row-find}

-- A pass whose publish raises, with the database up.
pub record Fails (pass : Pass) : Type 0 where
  pub down : pass.publish ≢ delivered
  pub parses : pass.parses ≡ true
  pub fetches : pass.fetch_up ≡ true
  pub records : pass.record_up ≡ true

send-fails :
    (pass : Pass) (m : Message) (w : World)
    → pass.publish ≢ delivered
    → (send pass m w).0 ≡ raised publish_error
unfolding send
send-fails pass m w f = elim (Publish-cases pass.publish) [
  | inl e ↦ rw e
  | inr (inl e) ↦ absurd (f e)
  | inr (inr e) ↦ rw e
]

publish-Fails :
    (pass : Pass) (payload : WebhookPayload) (w : World)
    → Fails pass
    → (i : ℕ) → (publish pass payload (uuid i) w).0 ≡ raised publish_error
unfolding publish
publish-Fails pass payload w f i =
    elim (Bool-cases (payload.position.action == SignalAction.flat)) [
      | inl e ↦ rw e (send-fails pass _ w f.down)
      | inr e ↦ rw (e, f.parses) (send-fails pass _ w f.down)
    ]

module _ (pass : Pass) (cfg : Config) (i : ℕ) (r : Signal) (f : Fails pass) where
  after_publish-fails :
      (payload : WebhookPayload) (n : ℕ) (w : World)
      → find_row i w.rows ≡ some r
      → find_row i (after_publish pass cfg (uuid i) payload n (raised publish_error) w).1.rows
        ≡ some (spent_row pass.now r)
  unfolding after_publish record_attempt_failure
  after_publish-fails payload n w found =
      let landed : is_some (with_row pass.record_up (uuid i) (spent_row pass.now) w.rows).1 ≡ true =
        rw (f.records, found) in
      rw landed (
        with_row-find i r w.rows found pass.record_up (spent_row pass.now) (spent-Plain pass.now)
          landed)

  fanout-fails :
      (payload : WebhookPayload) (n : ℕ) (w : World)
      → find_row i w.rows ≡ some r
      → find_row i (fanout pass cfg (uuid i) payload n w).1.rows ≡ some (spent_row pass.now r)
  unfolding fanout
  fanout-fails payload n w found =
      let (result, w') = publish pass payload (uuid i) w in
      subst
        (λ x.
          find_row i (after_publish pass cfg (uuid i) payload n x w').1.rows
          ≡ some (spent_row pass.now r))
        (sym (publish-Fails pass payload w f i))
        (after_publish-fails payload n w' (
          ap (find_row i) (Sends-rows w w' (uuid i) (publish_effect pass payload (uuid i) w))
          ∙ found))

  fetched :
      (w : World) → find_row i w.rows ≡ some r → get_by_id pass.fetch_up (uuid i) w.rows ≡ some r
  unfolding get_by_id
  fetched w found = ground (arith, f.fetches)

  -- The row of a failed retry has used up one attempt.
  retry_signal-fails :
      (w : World) (payload : WebhookPayload)
      → find_row i w.rows ≡ some r
      → (is_queued r.status && ltb 0 r.attempts) ≡ true
      → r.raw ≡ payload_object payload
      → find_row i (retry_signal pass cfg (uuid i) w).1.rows ≡ some (spent_row pass.now r)
  unfolding retry_signal
  retry_signal-fails w payload found q raw =
      subst (λ x. find_row i (retry_row pass cfg (uuid i) x w).1.rows ≡ some (spent_row pass.now r))
        (sym (fetched w found))
        (unfold retry_row in
          rw q (
            subst
              (λ x.
                find_row i (retry_raw pass cfg (uuid i) r.attempts x w).1.rows
                ≡ some (spent_row pass.now r))
              (sym raw) (unfold retry_raw in fanout-fails payload r.attempts w found)))

-- The retries of signal `i` in these passes, one after the other.
unfoldable pub retries : Config → ℕ → List Pass → World → World
retries cfg i [] w = w
retries cfg i (pass ∷ passes) w = retries cfg i passes (retry_signal pass cfg (uuid i) w).1

retries-count :
    (cfg : Config) (i : ℕ) (passes : List Pass) (w : World) (r : Signal) (payload : WebhookPayload)
    → All Fails passes
    → find_row i w.rows ≡ some r
    → r.status ≡ SignalStatus.queued
    → r.raw ≡ payload_object payload
    → length passes < r.attempts
    → (s : Signal) × (find_row i (retries cfg i passes w).rows ≡ some s)
      × (s.status ≡ SignalStatus.queued)
      × (s.attempts + length passes ≡ r.attempts)
      × (s.raw ≡ payload_object payload)
unfolding retries
retries-count cfg i [] w r payload f found q raw b = (r, found, q, omega arith, raw)
retries-count cfg i (pass ∷ passes) w r payload f found q raw b =
    let r' = spent_row pass.now r in
    let (s, fs, qs, n, rs) =
      retries-count cfg i passes (retry_signal pass cfg (uuid i) w).1 r' payload f.1
        (retry_signal-fails pass cfg i r f.0 w payload found (ground arith) raw) (ground arith)
        (ground arith) (ground arith) in
    (s, fs, qs, ground (arith, n), rs)

retries-snoc :
    (cfg : Config) (i : ℕ) (passes : List Pass) (pass : Pass) (w : World)
    → retries cfg i (passes ++ pass ∷ []) w
      ≡ (retry_signal pass cfg (uuid i) (retries cfg i passes w)).1
unfolding retries
retries-snoc cfg i [] pass w = refl
retries-snoc cfg i (p ∷ passes) pass w = retries-snoc cfg i passes pass _

-- A queued signal whose every retry fails to publish, with the database up: while attempts are
-- left its row stays queued, one attempt fewer after each retry, and the retry that uses up the
-- last attempt leaves it failed with none.
pub retries-exhaust :
    (cfg : Config) (i : ℕ) (passes : List Pass) (last : Pass) (w : World) (r : Signal)
    (payload : WebhookPayload)
    → All Fails passes
    → Fails last
    → find_row i w.rows ≡ some r
    → r.status ≡ SignalStatus.queued
    → r.raw ≡ payload_object payload
    → length passes + 1 ≡ r.attempts
    → ((s : Signal) × (find_row i (retries cfg i passes w).rows ≡ some s)
        × (s.status ≡ SignalStatus.queued)
        × (s.attempts ≡ 1))
      × ((s : Signal) × (find_row i (retries cfg i (passes ++ last ∷ []) w).rows ≡ some s)
          × (s.status ≡ SignalStatus.failed)
          × (s.attempts ≡ 0))
retries-exhaust cfg i passes last w r payload fs f found q raw b =
    let (s, es, qs, n, rs) = retries-count cfg i passes w r payload fs found q raw (omega arith) in
    let one : s.attempts ≡ 1 = omega arith in
    (
      (s, es, qs, one),
      (
        spent_row last.now s,
        ap (λ (x : World). find_row i x.rows) (retries-snoc cfg i passes last w)
            ∙ retry_signal-fails last cfg i s f (retries cfg i passes w) payload es (ground arith)
                rs,
        ground arith,
        ground arith,
      ),
    )

-- With `before` attempts left before the k-th attempt of a signal, so that `before + k` is one more
-- than the configured number, the number is k while no more than two attempts are left and is left
-- out while more are; and it is left out for the first attempt alone, as its comment says, exactly when
-- three attempts are configured.
pub attempt_number-iff_three :
    (max_attempts : ℕ)
    → 0 < max_attempts
    → ((before k : ℕ)
        → before + k ≡ suc max_attempts
        → attempt_number_for_notification before max_attempts
          ≡ (if ltb 2 before then none else some k))
      × (((before : ℕ)
            → 0 < before
            → before ≤ max_attempts
            → (attempt_number_for_notification before max_attempts ≡ none)
              ↔ (before ≡ max_attempts))
          ↔ (max_attempts ≡ 3))
unfolding attempt_number_for_notification
attempt_number-iff_three n b = (
  λ before k e. ground (arith, e),
  (λ h. ground (arith, h n b (omega arith), h 3 (omega arith)), λ e before p q. ground arith),
)
