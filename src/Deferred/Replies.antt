-- ===== src/Deferred/Replies.antt =====
-- What the webhook's reply says of the envelope.
use mathlib.Core.Path.{subst}
use algo_trading_broker.Prelude.{
  ℕ, suc, ◌≡◌, ◌≢◌, ◌⊎◌, ◌==◌, refl, inl, inr, String, Bool, true, false, Option, none, some, [],
  ◌∷◌, ◌++◌, arith, length-append, Bool-cases, Option-cases, sym, string_eq, if◌then◌else◌,
}
use algo_trading_broker.Webhook.{WebhookPayload}
use algo_trading_broker.Deferred.{
  DeferredEnvelope, Enqueuer, is_full, pending, submit, Reply, queued, deferred, refused,
  verify_token, defer, enqueue,
}

differs : (s t : String) → (s == t) ≡ false → s ≢ t
differs s t h e = absurd (cc ((string_eq.decides s t).1 e, h))

abbrev pub item_of : WebhookPayload → ℕ → DeferredEnvelope
item_of payload msg_id = record {
  strategy = payload.strategy;
  payload = payload;
  msg_id = msg_id;
  attempts = 0;
}

-- The token is the configured secret.
abbrev pub IsVerified : String → WebhookPayload → Type 0
IsVerified secret payload = (secret ≢ "") × (payload.token ≡ secret)

-- The backlog is missing or full.
abbrev pub HasNoRoom : Option Enqueuer → Type 0
HasNoRoom none = Unit
HasNoRoom (some e) = is_full e ≡ true

-- What each reply promises: `d` is the enqueuer before, the first component the one after.
abbrev pub Replied :
    String → Bool → ℕ → WebhookPayload → Option Enqueuer → Option Enqueuer × Reply → Type 0
Replied secret in_time msg_id payload d (d', queued t) =
    IsVerified secret payload × (in_time ≡ true) × (d' ≡ d) × (t ≡ payload.timestamp)
Replied secret in_time msg_id payload d (d', deferred t) =
    (e : Enqueuer) × (e' : Enqueuer) × (d ≡ some e)
    × (d' ≡ some e')
    × IsVerified secret payload
    × (in_time ≡ false)
    × (is_full e ≡ false)
    × (e'.queue ≡ e.queue ++ item_of payload msg_id ∷ [])
    × (pending e' ≡ suc (pending e))
    × (t ≡ payload.timestamp)
Replied secret in_time msg_id payload d (d', refused code) =
    (d' ≡ d)
    × (((secret ≡ "") × (code ≡ 500))
        ⊎ (((secret ≢ "") × (payload.token ≢ secret) × (code ≡ 401))
            ⊎ (IsVerified secret payload × (in_time ≡ false) × HasNoRoom d × (code ≡ 503))))

module _ (secret : String) (msg_id : ℕ) (payload : WebhookPayload)
    (t : IsVerified secret payload) where
  defer-Replied :
      (d : Option Enqueuer) → Replied secret false msg_id payload d (defer payload msg_id d)
  unfolding defer submit pending
  defer-Replied none = (refl, inr (inr (t, refl, tt, refl)))
  defer-Replied (some e) = elim (Bool-cases (is_full e)) [
    | inl f ↦ rw f (refl, inr (inr (t, refl, f, refl)))
    | inr f ↦ rw f (
      e,
      (submit payload.strategy payload msg_id e).0,
      refl,
      rw f refl,
      t,
      refl,
      f,
      rw f refl,
      rw f (omega (arith, length-append e.queue (item_of payload msg_id ∷ []))),
      refl,
    )
  ]

  answered :
      (in_time : Bool) (d : Option Enqueuer)
      → Replied secret in_time msg_id payload d
          (if in_time then (d, queued payload.timestamp) else defer payload msg_id d)
  answered true d = (t, refl, refl, refl)
  answered false d = defer-Replied d

verify_token-none :
    (secret : String) (payload : WebhookPayload)
    → verify_token secret payload ≡ none
    → IsVerified secret payload
unfolding verify_token
verify_token-none secret payload h = elim (Bool-cases (secret == "")) [
  | inl e ↦ absurd (ground (arith, e, h))
  | inr e ↦ elim (Bool-cases (payload.token == secret)) [
    | inr f ↦ absurd (ground (arith, e, f, h))
    | inl f ↦ (differs secret "" e, (string_eq.decides payload.token secret).0 f)
  ]
]

verify_token-some :
    (secret : String) (in_time : Bool) (msg_id : ℕ) (payload : WebhookPayload) (d : Option Enqueuer)
    (code : ℕ)
    → verify_token secret payload ≡ some code
    → Replied secret in_time msg_id payload d (d, refused code)
unfolding verify_token
verify_token-some secret in_time msg_id payload d code h = elim (Bool-cases (secret == "")) [
  | inl e ↦ (refl, inl ((string_eq.decides secret "").0 e, ground (arith, e, h)))
  | inr e ↦ elim (Bool-cases (payload.token == secret)) [
    | inl f ↦ absurd (ground (arith, e, f, h))
    | inr f ↦ (
      refl,
      inr (inl (differs secret "" e, differs payload.token secret f, ground (arith, e, f, h))),
    )
  ]
]

enqueue-refused :
    (secret : String) (in_time : Bool) (msg_id : ℕ) (payload : WebhookPayload) (d : Option Enqueuer)
    (code : ℕ)
    → verify_token secret payload ≡ some code
    → enqueue secret in_time msg_id payload d ≡ (d, refused code)
unfolding enqueue
enqueue-refused secret in_time msg_id payload d code h = rw (h, enqueue)

enqueue-verified :
    (secret : String) (in_time : Bool) (msg_id : ℕ) (payload : WebhookPayload) (d : Option Enqueuer)
    → verify_token secret payload ≡ none
    → enqueue secret in_time msg_id payload d
      ≡ (if in_time then (d, queued payload.timestamp) else defer payload msg_id d)
unfolding enqueue
enqueue-verified secret in_time msg_id payload d h = rw (h, enqueue)

-- What the reply says, on every branch. `queued`: the configured token, which is not empty, a publish
-- acknowledged in time, and the enqueuer as it was. `deferred`: that token, no such publish, room in
-- the backlog, and the envelope as its last, which makes it one larger. A refusal changes nothing:
-- 500 if no secret is configured, 401 for another token than the one that is, and 503 for the right
-- one if the publish is not acknowledged in time and the backlog is missing or full.
pub enqueue-Replied :
    (secret : String) (in_time : Bool) (msg_id : ℕ) (payload : WebhookPayload) (d : Option Enqueuer)
    → Replied secret in_time msg_id payload d (enqueue secret in_time msg_id payload d)
enqueue-Replied secret in_time msg_id payload d =
    elim (Option-cases (verify_token secret payload)) [
      | inr (code, h) ↦
          subst (Replied secret in_time msg_id payload d)
            (sym (enqueue-refused secret in_time msg_id payload d code h))
            (verify_token-some secret in_time msg_id payload d code h)
      | inl h ↦
          subst (Replied secret in_time msg_id payload d)
            (sym (enqueue-verified secret in_time msg_id payload d h))
            (answered secret msg_id payload (verify_token-none secret payload h) in_time d)
    ]
