-- ===== src/Deferred/Ledger.antt =====
-- Where the envelopes are that the enqueuer took over, and its bounds.
use algo_trading_broker.Prelude.{
  ℕ, suc, ◌+◌, ◌≤◌, ◌<◌, ◌≡◌, refl, ◌∙◌, Option, none, some, List, [], ◌∷◌, ◌++◌, arith, length,
  length-append,
}
use algo_trading_broker.Deferred.{
  DeferredEnvelope, Phase, publishing, waiting, Publish, acked, unanswered, missed, settle_last,
  lost_by, Enqueuer, flying, pending, submit, pick_from, settle_attempt, requeue, drain, stop,
  Event, submitted, picked, published, slept, step, run, start,
}
use algo_trading_broker.Deferred.Books.{
  count, count-append, Balanced, step-Balanced, IsBounded, step-IsBounded,
}

-- What JetStream acknowledged is on the stream.
abbrev pub OnStream : Enqueuer → Type 0
OnStream d = (i : ℕ) → count i d.confirmed ≤ count i d.stream

settle-OnStream :
    (d : Enqueuer) (outcome : Publish) (f : Option (DeferredEnvelope × Phase))
    → OnStream d
    → OnStream (settle_attempt outcome f d)
settle-OnStream d acked (some (item, publishing)) h i =
    omega (arith, h i, count-append i d.confirmed (item ∷ []), count-append i d.stream (item ∷ []))
settle-OnStream d unanswered (some (item, publishing)) h i =
    ground (arith, h i, count-append i d.stream (item ∷ []))
settle-OnStream d missed (some (item, publishing)) h i = ground (arith, h i)
settle-OnStream d acked (some (item, waiting)) h i = h i
settle-OnStream d unanswered (some (item, waiting)) h i = h i
settle-OnStream d missed (some (item, waiting)) h i = h i
settle-OnStream d acked none h i = h i
settle-OnStream d unanswered none h i = h i
settle-OnStream d missed none h i = h i

pick-OnStream :
    (d : Enqueuer) (f : Option (DeferredEnvelope × Phase)) (q : List DeferredEnvelope)
    → OnStream d
    → OnStream (pick_from f q d)
pick-OnStream d none (item ∷ rest) h i = h i
pick-OnStream d none [] h i = h i
pick-OnStream d (some x) q h i = h i

requeue-OnStream :
    (d : Enqueuer) (f : Option (DeferredEnvelope × Phase)) → OnStream d → OnStream (requeue f d)
requeue-OnStream d (some (item, waiting)) h i = ground (arith, h i)
requeue-OnStream d (some (item, publishing)) h i = h i
requeue-OnStream d none h i = h i

step-OnStream : (e : Event) (d : Enqueuer) → OnStream d → OnStream (step e d)
unfolding step submit
step-OnStream (submitted strategy payload msg_id) d h = λ i. ground (arith, h i)
step-OnStream picked d h = pick-OnStream d d.in_flight d.queue h
step-OnStream (published outcome) d h = settle-OnStream d outcome d.in_flight h
step-OnStream slept d h = requeue-OnStream d d.in_flight h

-- The books of the enqueuer are in order.
abbrev pub Accounted : Enqueuer → Type 0
Accounted d = Balanced d × IsBounded d × OnStream d

run-Accounted : (events : List Event) (d : Enqueuer) → Accounted d → Accounted (run events d)
unfolding run
run-Accounted [] d h = h
run-Accounted (e ∷ events) d (b, h, s) =
    run-Accounted events (step e d) (step-Balanced e d b, step-IsBounded e d h, step-OnStream e d s)

start-IsBounded : (n maxsize : ℕ) → 0 < n → IsBounded (start n maxsize)
start-IsBounded n maxsize p = record {
  some_attempts = p;
  fits = λ q. omega arith;
  queued = tt;
  flies = tt;
}

-- With at least one attempt configured, after any interleaving of submissions and of the loop's
-- steps: every envelope that was taken over is queued, in flight, acknowledged or reported lost,
-- and in one of these places only; what is acknowledged is on the stream; the backlog is within its
-- bound; and no envelope that is queued has used up its attempts.
pub run-accounts :
    (n maxsize : ℕ) (events : List Event) → 0 < n → Accounted (run events (start n maxsize))
run-accounts n maxsize events p =
    run-Accounted events (start n maxsize)
      (λ i. refl, start-IsBounded n maxsize p, λ i. omega arith)

-- What the last publish of one envelope does to the books.
settle_last-effect :
    (o : Publish) (item : DeferredEnvelope) (d : Enqueuer)
    → ((settle_last o item d).queue ≡ d.queue)
      × ((settle_last o item d).in_flight ≡ d.in_flight)
      × ((settle_last o item d).taken ≡ d.taken)
      × (length (settle_last o item d).gone ≡ length d.gone + lost_by o)
      × ((i : ℕ)
          → count i (settle_last o item d).confirmed + count i (settle_last o item d).gone
            ≡ count i d.confirmed + count i d.gone + count i (item ∷ []))
      × (OnStream d → OnStream (settle_last o item d))
settle_last-effect acked item d = (
  refl,
  refl,
  refl,
  omega arith,
  λ i. ground (arith, count-append i d.confirmed (item ∷ [])),
  λ h i.
      omega
        (arith, h i, count-append i d.confirmed (item ∷ []), count-append i d.stream (item ∷ [])),
)
settle_last-effect unanswered item d = (
  refl,
  refl,
  refl,
  omega (arith, length-append d.gone (item ∷ [])),
  λ i. ground (arith, count-append i d.gone (item ∷ [])),
  λ h i. omega (arith, h i, count-append i d.stream (item ∷ [])),
)
settle_last-effect missed item d = (
  refl,
  refl,
  refl,
  omega (arith, length-append d.gone (item ∷ [])),
  λ i. ground (arith, count-append i d.gone (item ∷ [])),
  λ h. h,
)

drain-effect :
    (ends : ℕ → Publish) (k : ℕ) (items : List DeferredEnvelope) (d : Enqueuer)
    → ((drain ends k items d).0.queue ≡ d.queue)
      × ((drain ends k items d).0.in_flight ≡ d.in_flight)
      × ((drain ends k items d).0.taken ≡ d.taken)
      × (length (drain ends k items d).0.gone ≡ length d.gone + (drain ends k items d).1)
      × ((i : ℕ)
          → count i (drain ends k items d).0.confirmed + count i (drain ends k items d).0.gone
            ≡ count i d.confirmed + count i d.gone + count i items)
      × (OnStream d → OnStream (drain ends k items d).0)
unfolding drain
drain-effect ends k [] d = (refl, refl, refl, omega arith, λ i. omega arith, λ h. h)
drain-effect ends k (item ∷ items) d =
    let (q0, f0, t0, n0, c0, s0) = settle_last-effect (ends k) item d in
    let (q, f, t, n, c, s) = drain-effect ends (suc k) items (settle_last (ends k) item d) in
    (
      q ∙ q0,
      f ∙ f0,
      t ∙ t0,
      omega (arith, n, n0),
      λ i. omega (arith, c i, c0 i, count-append i (item ∷ []) items),
      λ h. s (s0 h),
    )

-- After `stop` of an enqueuer whose books are in order nothing is owed any more: every envelope
-- that was ever taken over is acknowledged, which puts it on the stream, or reported lost, and
-- the count that is logged is the number that this drain lost.
pub stop-accounts :
    (ends : ℕ → Publish) (d : Enqueuer)
    → Balanced d
    → OnStream d
    → (pending (stop ends d).0 ≡ 0)
      × ((i : ℕ)
          → count i d.taken ≡ count i (stop ends d).0.confirmed + count i (stop ends d).0.gone)
      × OnStream (stop ends d).0
      × (length (stop ends d).0.gone ≡ length d.gone + (stop ends d).1)
unfolding stop pending
stop-accounts ends d h w =
    let d0 : Enqueuer = record d { in_flight = none; queue = [] } in
    let items = flying d.in_flight ++ d.queue in
    let (q, f, t, n, c, s) = drain-effect ends 0 items d0 in
    (
      rw (q, f) refl,
      λ i. omega (arith, c i, h i, count-append i (flying d.in_flight) d.queue),
      s w,
      n,
    )
