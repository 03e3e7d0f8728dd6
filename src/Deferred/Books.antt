-- ===== src/Deferred/Books.antt =====
-- The books of the enqueuer through each step: every envelope in one place, and the bounds.
use algo_trading_broker.Prelude.{
  ℕ, suc, ◌+◌, ◌≤◌, ◌<◌, ◌≡◌, refl, ap, inl, inr, String, Option, none, some, List, [], ◌∷◌, ◌++◌,
  arith, length, length-append, nat_beq, leb, All, All-append, Bool-cases, if◌then◌else◌,
}
use algo_trading_broker.Webhook.{WebhookPayload}
use algo_trading_broker.Deferred.{
  DeferredEnvelope, Phase, publishing, waiting, Publish, acked, unanswered, missed, give_up_or_wait,
  Enqueuer, is_full, flying, submit, pick_from, settle_attempt, requeue, Event, submitted, picked,
  published, slept, step,
}

-- How often an envelope of that id stands in the list.
abbrev pub count : ℕ → List DeferredEnvelope → ℕ
count i [] = 0
count i (x ∷ xs) = let rest = count i xs in if nat_beq x.msg_id i then suc rest else rest

pub count-append :
    (i : ℕ) (xs ys : List DeferredEnvelope) → count i (xs ++ ys) ≡ count i xs + count i ys
count-append i [] ys = omega arith
count-append i (x ∷ xs) ys = ground (arith, count-append i xs ys)

-- Every envelope that was taken over is in one place of the books: the queue, in flight,
-- acknowledged, or reported lost. One that JetStream stored without an answer in time is still
-- owed, and is reported lost when no attempt is answered.
abbrev pub Balanced : Enqueuer → Type 0
Balanced d =
    (i : ℕ)
    → count i d.taken
      ≡ count i d.queue + count i (flying d.in_flight) + count i d.confirmed + count i d.gone

submit-Balanced :
    (strategy : String) (payload : WebhookPayload) (msg_id : ℕ) (d : Enqueuer)
    → Balanced d
    → Balanced (submit strategy payload msg_id d).0
unfolding submit
submit-Balanced strategy payload msg_id d h i =
    let item : DeferredEnvelope = record {
      strategy = strategy;
      payload = payload;
      msg_id = msg_id;
      attempts = 0;
    } in
    ground (arith, h i, count-append i d.queue (item ∷ []), count-append i d.taken (item ∷ []))

module _ (d : Enqueuer) (h : Balanced d) where
  pick-Balanced :
      (f : Option (DeferredEnvelope × Phase)) (q : List DeferredEnvelope)
      → f ≡ d.in_flight
      → q ≡ d.queue
      → Balanced (pick_from f q d)
  pick-Balanced none (item ∷ rest) e g i = ground (arith, h i)
  pick-Balanced none [] e g i = h i
  pick-Balanced (some x) q e g i = h i

  settle-Balanced :
      (outcome : Publish) (f : Option (DeferredEnvelope × Phase))
      → f ≡ d.in_flight
      → Balanced (settle_attempt outcome f d)
  settle-Balanced acked (some (item, publishing)) e i =
      ground (arith, h i, count-append i d.confirmed (item ∷ []))
  settle-Balanced unanswered (some (item, publishing)) e i =
      ground (arith, h i, count-append i d.gone (item ∷ []))
  settle-Balanced missed (some (item, publishing)) e i =
      ground (arith, h i, count-append i d.gone (item ∷ []))
  settle-Balanced acked (some (item, waiting)) e i = h i
  settle-Balanced unanswered (some (item, waiting)) e i = h i
  settle-Balanced missed (some (item, waiting)) e i = h i
  settle-Balanced acked none e i = h i
  settle-Balanced unanswered none e i = h i
  settle-Balanced missed none e i = h i

  requeue-Balanced :
      (f : Option (DeferredEnvelope × Phase)) → f ≡ d.in_flight → Balanced (requeue f d)
  requeue-Balanced (some (item, waiting)) e i =
      ground (arith, h i, count-append i d.gone (item ∷ []), count-append i d.queue (item ∷ []))
  requeue-Balanced (some (item, publishing)) e i = h i
  requeue-Balanced none e i = h i

pub step-Balanced : (e : Event) (d : Enqueuer) → Balanced d → Balanced (step e d)
unfolding step
step-Balanced (submitted strategy payload msg_id) d h = submit-Balanced strategy payload msg_id d h
step-Balanced picked d h = pick-Balanced d h d.in_flight d.queue refl refl
step-Balanced (published outcome) d h = settle-Balanced d h outcome d.in_flight refl
step-Balanced slept d h = requeue-Balanced d h d.in_flight refl

-- An envelope whose attempt failed waits only with an attempt left.
abbrev pub FlightFits : ℕ → Option (DeferredEnvelope × Phase) → Type 0
FlightFits n none = Unit
FlightFits n (some (item, publishing)) = item.attempts ≤ n
FlightFits n (some (item, waiting)) = item.attempts < n

-- The bounds: the queue within `maxsize`, and no envelope past `max_attempts` attempts.
pub record IsBounded (d : Enqueuer) : Type 0 where
  pub some_attempts : 0 < d.max_attempts
  pub fits : 0 < d.maxsize → length d.queue ≤ d.maxsize
  pub queued : All (λ (x : DeferredEnvelope). x.attempts < d.max_attempts) d.queue
  pub flies : FlightFits d.max_attempts d.in_flight

submit-IsBounded :
    (strategy : String) (payload : WebhookPayload) (msg_id : ℕ) (d : Enqueuer)
    → IsBounded d
    → IsBounded (submit strategy payload msg_id d).0
unfolding submit
submit-IsBounded strategy payload msg_id d h =
    let item : DeferredEnvelope = record {
      strategy = strategy;
      payload = payload;
      msg_id = msg_id;
      attempts = 0;
    } in
    elim (Bool-cases (is_full d)) [
      | inl e ↦ rw e h
      | inr e ↦ rw e (record {
        some_attempts = h.some_attempts;
        fits = λ p. ground (arith, length-append d.queue (item ∷ []));
        queued = All-append _ d.queue (item ∷ []) h.queued (h.some_attempts, tt);
        flies = h.flies;
      })
    ]

module _ (d : Enqueuer) (h : IsBounded d) where
  pick-IsBounded :
      (f : Option (DeferredEnvelope × Phase)) (q : List DeferredEnvelope)
      → q ≡ d.queue
      → All (λ (x : DeferredEnvelope). x.attempts < d.max_attempts) q
      → IsBounded (pick_from f q d)
  pick-IsBounded none (item ∷ rest) e a = record {
    some_attempts = h.some_attempts;
    fits = λ p. omega (arith, h.fits p, ap length e);
    queued = a.1;
    flies = omega arith;
  }
  pick-IsBounded none [] e a = h
  pick-IsBounded (some x) q e a = h

  waits-IsBounded :
      (item : DeferredEnvelope) (stream : List DeferredEnvelope)
      → item.attempts ≤ d.max_attempts
      → IsBounded (give_up_or_wait item (record d { stream = stream }))
  waits-IsBounded item stream e = elim (Bool-cases (leb d.max_attempts item.attempts)) [
    | inl g ↦
        rw g
          (record { some_attempts = h.some_attempts; fits = h.fits; queued = h.queued; flies = tt })
    | inr g ↦ rw g (record {
      some_attempts = h.some_attempts;
      fits = h.fits;
      queued = h.queued;
      flies = ground arith;
    })
  ]

  settle-IsBounded :
      (outcome : Publish) (f : Option (DeferredEnvelope × Phase))
      → FlightFits d.max_attempts f
      → IsBounded (settle_attempt outcome f d)
  settle-IsBounded acked (some (item, publishing)) e = record {
    some_attempts = h.some_attempts;
    fits = h.fits;
    queued = h.queued;
    flies = tt;
  }
  settle-IsBounded unanswered (some (item, publishing)) e =
      waits-IsBounded item (d.stream ++ item ∷ []) e
  settle-IsBounded missed (some (item, publishing)) e = waits-IsBounded item d.stream e
  settle-IsBounded acked (some (item, waiting)) e = h
  settle-IsBounded unanswered (some (item, waiting)) e = h
  settle-IsBounded missed (some (item, waiting)) e = h
  settle-IsBounded acked none e = h
  settle-IsBounded unanswered none e = h
  settle-IsBounded missed none e = h

  requeue-IsBounded :
      (f : Option (DeferredEnvelope × Phase))
      → FlightFits d.max_attempts f
      → IsBounded (requeue f d)
  requeue-IsBounded (some (item, waiting)) e = elim (Bool-cases (is_full d)) [
    | inl g ↦
        rw g
          (record { some_attempts = h.some_attempts; fits = h.fits; queued = h.queued; flies = tt })
    | inr g ↦ rw g (record {
      some_attempts = h.some_attempts;
      fits = λ p. ground (arith, length-append d.queue (item ∷ []));
      queued = All-append _ d.queue (item ∷ []) h.queued (e, tt);
      flies = tt;
    })
  ]
  requeue-IsBounded (some (item, publishing)) e = h
  requeue-IsBounded none e = h

pub step-IsBounded : (e : Event) (d : Enqueuer) → IsBounded d → IsBounded (step e d)
unfolding step
step-IsBounded (submitted strategy payload msg_id) d h =
    submit-IsBounded strategy payload msg_id d h
step-IsBounded picked d h = pick-IsBounded d h d.in_flight d.queue refl h.queued
step-IsBounded (published outcome) d h = settle-IsBounded d h outcome d.in_flight h.flies
step-IsBounded slept d h = requeue-IsBounded d h d.in_flight h.flies
