-- ===== src/Worker/Settling.antt =====
-- How a JetStream message is settled.
use mathlib.Core.Path.{subst}
use algo_trading_broker.Prelude.{ℕ, suc, ◌<◌, ◌≡◌, refl, Bool, true, String, Option, List, [], ◌∷◌}
use algo_trading_broker.Webhook.{WebhookPayload}
use algo_trading_broker.Processing.{
  Failure, Result, ok, raised, Outcome, World, Pass, Config, handle_enqueued,
}
use algo_trading_broker.Processing.Invariant.{Inv, handle_enqueued-Inv}
use algo_trading_broker.Processing.Handled.{Handled, Ends, handle_enqueued-Ends}
use algo_trading_broker.Worker.{
  Envelope, envelope, JetStreamMessage, Settlement, ack, nak, term, attempts, inline_retry_delays,
  handle_content, handle_one,
}

-- A try that returns is acknowledged; after one that raised the rest decides.
try_cases :
    (P : Settlement × World → Type 0) (r : Result Outcome) (w : World) (rest : Settlement × World)
    → ((o : Outcome) → r ≡ ok o → P (ack, w))
    → ((e : Failure) → r ≡ raised e → P rest)
    → P (elim r [ ok o ↦ (ack, w) | raised e ↦ rest ])
try_cases P (ok o) w rest f g = f o refl
try_cases P (raised e) w rest f g = g e refl

-- The try that ended the loop: its handler returned in a pass from `before`, and kept its promise.
abbrev Finished : Config → WebhookPayload → Option String → (ℕ → Pass) → World → Type 0
Finished cfg payload key passes after =
    (k : ℕ) × (redelivered : Bool) × (before : World) × (o : Outcome) × (handle_enqueued (passes k)
        cfg payload key redelivered before
      ≡ (ok o, after))
    × Handled (passes k) before.sent o after

-- What the settlement says of the handler.
abbrev Settles : Config → WebhookPayload → Option String → (ℕ → Pass) → Settlement → World → Type 0
Settles cfg payload key passes ack after = Finished cfg payload key passes after
Settles cfg payload key passes nak after = Unit
Settles cfg payload key passes term after = ⊥

module _ (cfg : Config) (payload : WebhookPayload) (key : Option String) (passes : ℕ → Pass) where
  one_try :
      (k : ℕ) (redelivered : Bool) (w : World) (o : Outcome)
      → Inv w
      → (handle_enqueued (passes k) cfg payload key redelivered w).0 ≡ ok o
      → Finished cfg payload key passes (handle_enqueued (passes k) cfg payload key redelivered w).1
  one_try k redelivered w o h e =
      let x = handle_enqueued (passes k) cfg payload key redelivered w in
      (
        k,
        redelivered,
        w,
        o,
        (λ i. (e i, x.1)),
        subst (λ r. Ends (passes k) w.sent (r, x.1)) e
            (handle_enqueued-Ends (passes k) cfg payload key redelivered w h),
      )

  abbrev Good : Settlement × World → Type 0
  Good x = Settles cfg payload key passes x.0 x.1 × Inv x.1

  attempts-Good :
      (delays : List ℕ) (k : ℕ) (redelivered : Bool) (w : World)
      → 0 < cfg.max_attempts
      → Inv w
      → Good (attempts cfg payload key passes delays k redelivered w)
  unfolding attempts
  attempts-Good [] k redelivered w b h =
      let x = handle_enqueued (passes k) cfg payload key redelivered w in
      let h' = handle_enqueued-Inv (passes k) cfg payload key redelivered w b h in
      try_cases Good x.0 x.1 (nak, x.1) (λ o e. (one_try k redelivered w o h e, h'))
        (λ f e. (tt, h'))
  attempts-Good (delay ∷ delays) k redelivered w b h =
      let x = handle_enqueued (passes k) cfg payload key redelivered w in
      let h' = handle_enqueued-Inv (passes k) cfg payload key redelivered w b h in
      try_cases Good x.0 x.1 (attempts cfg payload key passes delays (suc k) true x.1)
        (λ o e. (one_try k redelivered w o h e, h'))
        (λ f e. attempts-Good delays (suc k) true x.1 b h')

-- What the settlement of a message says of its content.
abbrev pub SettlesContent :
    Config → (ℕ → Pass) → JetStreamMessage → Envelope → World → Settlement × World → Type 0
SettlesContent cfg passes msg (envelope payload) before x =
    Settles cfg payload msg.delivery_key passes x.0 x.1
SettlesContent cfg passes msg _ before x = x ≡ (term, before)

handle_content-settles :
    (cfg : Config) (passes : ℕ → Pass) (msg : JetStreamMessage) (content : Envelope) (w : World)
    → 0 < cfg.max_attempts
    → Inv w
    → SettlesContent cfg passes msg content w (handle_content cfg passes msg content w)
      × Inv (handle_content cfg passes msg content w).1
unfolding handle_content
handle_content-settles cfg passes msg (envelope payload) w b h =
    attempts-Good cfg payload msg.delivery_key passes inline_retry_delays 0 _ w b h
handle_content-settles cfg passes msg _ w b h = (refl, h)

-- In a world that satisfies the invariant, with at least one attempt configured, whatever fails
-- on the way: a message whose data never becomes a payload is terminated and changes nothing;
-- any other is acknowledged only after a try whose handler returned and kept what its reply
-- promises, or is NAK-ed, and never terminated. The invariant is kept.
pub handle_one-settles :
    (cfg : Config) (passes : ℕ → Pass) (msg : JetStreamMessage) (w : World)
    → 0 < cfg.max_attempts
    → Inv w
    → SettlesContent cfg passes msg msg.content w (handle_one cfg passes msg w)
      × Inv (handle_one cfg passes msg w).1
unfolding handle_one
handle_one-settles cfg passes msg w b h = handle_content-settles cfg passes msg msg.content w b h

-- The database is down in every try.
abbrev AllRaise : Config → WebhookPayload → Option String → (ℕ → Pass) → Type 0
AllRaise cfg payload key passes =
    (k : ℕ) (redelivered : Bool) (w : World)
    → (e : Failure) × ((handle_enqueued (passes k) cfg payload key redelivered w).0 ≡ raised e)

attempts-nak :
    (cfg : Config) (payload : WebhookPayload) (key : Option String) (passes : ℕ → Pass)
    (delays : List ℕ) (k : ℕ) (redelivered : Bool) (w : World)
    → AllRaise cfg payload key passes
    → (attempts cfg payload key passes delays k redelivered w).0 ≡ nak
unfolding attempts
attempts-nak cfg payload key passes [] k redelivered w h =
    let x = handle_enqueued (passes k) cfg payload key redelivered w in
    try_cases (λ y. y.0 ≡ nak) x.0 x.1 (nak, x.1) (λ o e. cc ((h k redelivered w).1)) (λ f e. refl)
attempts-nak cfg payload key passes (delay ∷ delays) k redelivered w h =
    let x = handle_enqueued (passes k) cfg payload key redelivered w in
    try_cases (λ y. y.0 ≡ nak) x.0 x.1 (attempts cfg payload key passes delays (suc k) true x.1)
      (λ o e. cc ((h k redelivered w).1))
      (λ f e. attempts-nak cfg payload key passes delays (suc k) true x.1 h)
