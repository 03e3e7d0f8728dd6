-- ===== src/RetryJob/Untouched.antt =====
-- A tick of the job, and the signals whose first fan-out may still be running.
use mathlib.Core.Bool.{false≢true}
use mathlib.Core.Option.{some-injective}
use algo_trading_broker.Prelude.{
  ℕ, suc, ◌≡◌, refl, sym, ap, ◌∙◌, ◌≢◌, Bool, true, false, some, [], ◌∷◌, arith, All, All-map,
}
use algo_trading_broker.Signals.{Signal, Table, find_row, is_retryable, list_retryable}
use algo_trading_broker.Signals.Retryable.{All-keep, All-sort, rows-found, list_retryable-taken}
use algo_trading_broker.Processing.{World, Pass, Config, first_fanout_unconfirmed}
use algo_trading_broker.Processing.Invariant.{Inv}
use algo_trading_broker.Processing.Settled.{Frame, Frame-trans, of_id, retry_signal-other}
use algo_trading_broker.RetryJob.{retry_all, tick_once}

list_retryable-found :
    (up : Bool) (now interval : ℕ) (rows : Table)
    → All (λ r. find_row r.id rows ≡ some r) rows
    → All (λ r. find_row r.id rows ≡ some r) (list_retryable up now interval rows)
unfolding list_retryable
list_retryable-found true now interval rows h =
    All-sort _ _ (All-keep _ (is_retryable now interval) rows h)
list_retryable-found false now interval rows h = tt

eligible-confirmed :
    (now interval : ℕ) (r : Signal)
    → is_retryable now interval r ≡ true
    → first_fanout_unconfirmed r ≡ false
unfolding is_retryable first_fanout_unconfirmed
eligible-confirmed now interval r h = ground arith

All-both {κ ι} :
    (P : Signal → Type κ) (Q : Signal → Type ι) (rows : Table)
    → All P rows
    → All Q rows
    → All (λ r. P r × Q r) rows
All-both P Q [] p q = tt
All-both P Q (r ∷ rows) p q = ((p.0, q.0), All-both P Q rows p.1 q.1)

retry_all-Frame :
    (cfg : Config) (passes : ℕ → Pass) (i k : ℕ) (rows : Table) (w : World)
    → All (λ r. i ≢ r.id) rows
    → Frame i w (retry_all cfg passes k rows w)
unfolding retry_all
retry_all-Frame cfg passes i k [] w h = record { same_row = refl; same_sent = refl }
retry_all-Frame cfg passes i k (r ∷ rows) w h =
    Frame-trans i w _ _ (retry_signal-other (passes k) cfg i r.id w h.0)
      (retry_all-Frame cfg passes i (suc k) rows _ h.1)

-- In a world that satisfies the invariant, a tick of the job, under any failures, neither
-- changes the row nor sends a message of a signal that is queued with no attempt on record: its
-- first fan-out may still be in flight.
pub tick_once-untouched :
    (cfg : Config) (up : Bool) (now interval : ℕ) (passes : ℕ → Pass) (w : World) (i : ℕ)
    (r : Signal)
    → Inv w
    → find_row i w.rows ≡ some r
    → first_fanout_unconfirmed r ≡ true
    → (find_row i (tick_once cfg up now interval passes w).rows ≡ some r)
      × (of_id i (tick_once cfg up now interval passes w).sent ≡ of_id i w.sent)
unfolding tick_once
tick_once-untouched cfg up now interval passes w i r h f u =
    let picked = list_retryable up now interval w.rows in
    let facts =
      All-both _ _ picked
        (list_retryable-found up now interval w.rows (rows-found w.rows h.table.distinct))
        (list_retryable-taken up now interval w.rows) in
    let others : All (λ (s : Signal). i ≢ s.id) picked =
      All-map
        (λ (s : Signal). (find_row s.id w.rows ≡ some s) × (is_retryable now interval s ≡ true))
        (λ (s : Signal). i ≢ s.id)
        (λ s e p. false≢true (
          sym (eligible-confirmed now interval s e.1)
          ∙ ap first_fanout_unconfirmed
              (some-injective s r (sym e.0 ∙ ap (λ k. find_row k w.rows) (sym p) ∙ f))
          ∙ u))
        picked facts in
    let frame = retry_all-Frame cfg passes i 0 picked w others in
    (frame.same_row ∙ f, frame.same_sent)
