-- ===== src/Processing/Runs.antt =====
-- A schedule of deliveries and retries, run to its end, each handler to its own end.
use mathlib.Core.Path.{subst}
use mathlib.Core.Bool.{false≢true}
use mathlib.Core.Option.{some-injective}
use algo_trading_broker.Prelude.{
  Option-cases, inl, inr, ℕ, ◌<◌, ◌≡◌, ap, String, Bool, Option, none, some, List, [], ◌∷◌, All,
  get_elem?, zero, suc,
}
use algo_trading_broker.Core.{IdText, uuid, malformed}
use algo_trading_broker.Webhook.{WebhookPayload}
use algo_trading_broker.Signals.{Signal, Table, find_row}
use algo_trading_broker.Processing.{Message, World, Pass, Config, handle_enqueued, retry_signal}
use algo_trading_broker.Processing.Invariant.{
  message_id, KnownId, Inv, handle_enqueued-Inv, retry_signal-Inv,
}

-- What drives the service: the worker hands it an envelope, or the retry job a row's id.
pub data Event : Type 0 where
  delivery : Pass → WebhookPayload → (delivery_key : Option String) → (redelivered : Bool) → Event
  retry : Pass → IdText → Event

unfoldable pub step : Config → Event → World → World
step cfg (delivery pass payload key redelivered) w =
    (handle_enqueued pass cfg payload key redelivered w).1
step cfg (retry pass signal_id) w = (retry_signal pass cfg signal_id w).1

unfoldable pub run : Config → List Event → World → World
run cfg [] w = w
run cfg (e ∷ events) w = run cfg events (step cfg e w)

pub step-Inv :
    (cfg : Config) (e : Event) (w : World) → 0 < cfg.max_attempts → Inv w → Inv (step cfg e w)
unfolding step
step-Inv cfg (delivery pass payload key redelivered) w b h =
    handle_enqueued-Inv pass cfg payload key redelivered w b h
step-Inv cfg (retry pass signal_id) w b h = retry_signal-Inv pass cfg signal_id w h

pub run-Inv :
    (cfg : Config) (events : List Event) (w : World)
    → 0 < cfg.max_attempts
    → Inv w
    → Inv (run cfg events w)
unfolding run
run-Inv cfg [] w b h = h
run-Inv cfg (e ∷ events) w b h = run-Inv cfg events (step cfg e w) b (step-Inv cfg e w b h)

-- The row of a message to a worker.
abbrev pub row_of : Table → IdText → Option Signal
row_of rows (uuid i) = find_row i rows
row_of rows (malformed t) = none

All-get {ℓ κ} :
    {A : Type ℓ} (P : A → Type κ) (xs : List A) (i : ℕ) (a : A)
    → All P xs
    → get_elem? xs i ≡ some a
    → P a
All-get P [] i a h e = cc
All-get P (x ∷ xs) zero a h e = subst P (some-injective x a e) h.0
All-get P (x ∷ xs) (suc i) a h e = All-get P xs i a h.1 e

known_row : (rows : Table) (i : IdText) → KnownId rows i → (r : Signal) × (row_of rows i ≡ some r)
known_row rows (uuid i) h = elim (Option-cases (find_row i rows)) [
  | inl e ↦ absurd (false≢true (rw e at h))
  | inr found ↦ found
]
known_row rows (malformed t) h = absurd h

same_key_same_id :
    (w : World) (i j : IdText) (r s : Signal) (k : String)
    → Inv w
    → row_of w.rows i ≡ some r
    → row_of w.rows j ≡ some s
    → r.delivery_key ≡ some k
    → s.delivery_key ≡ some k
    → i ≡ j
same_key_same_id w (uuid i) (uuid j) r s k h hr hs kr ks =
    ap uuid (h.table.keys i j r s k hr hs kr ks)
same_key_same_id w (malformed t) j r s k h hr hs kr ks = cc
same_key_same_id w (uuid i) (malformed t) r s k h hr hs kr ks = cc

module _ (cfg : Config) (events : List Event) (w : World) (budget : 0 < cfg.max_attempts)
    (start : Inv w) where
  -- From a world that satisfies the invariant, with at least one attempt configured, after any
  -- schedule of deliveries and retries, under any failures: a message that a worker was sent is
  -- that of a stored row, and two messages whose rows were written from one JetStream message
  -- carry the same signal id, by which the workers drop duplicates.
  pub sent-same_id :
      (a b : ℕ) (m n : Message)
      → get_elem? (run cfg events w).sent a ≡ some m
      → get_elem? (run cfg events w).sent b ≡ some n
      → (r : Signal) × (s : Signal) × (row_of (run cfg events w).rows (message_id m) ≡ some r)
        × (row_of (run cfg events w).rows (message_id n) ≡ some s)
        × ((k : String)
            → r.delivery_key ≡ some k
            → s.delivery_key ≡ some k
            → message_id m ≡ message_id n)
  sent-same_id a b m n ha hb =
      let h = run-Inv cfg events w budget start in
      let (r, er) = known_row _ (message_id m) (All-get _ _ a m h.known ha) in
      let (s, es) = known_row _ (message_id n) (All-get _ _ b n h.known hb) in
      (
        r,
        s,
        er,
        es,
        λ k kr ks.
            same_key_same_id (run cfg events w) (message_id m) (message_id n) r s k h er es kr ks,
      )
