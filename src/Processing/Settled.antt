-- ===== src/Processing/Settled.antt =====
-- Signals whose row is published or failed, and what a delivery or a retry of another signal changes.
use mathlib.Core.Path.{subst}
use mathlib.Core.Bool.{false≢true}
use mathlib.Core.Option.{some-injective}
use algo_trading_broker.Prelude.{
  ℕ, ◌<◌, ◌≡◌, refl, sym, ap, ◌∙◌, ◌≢◌, inl, inr, ◌==◌, nat_eq, ◌&&◌, ltb, String, Bool, true,
  false, Option, none, some, List, [], ◌∷◌, ◌++◌, arith, is_some, keep, Bool-cases, Option-cases,
}
use algo_trading_broker.Core.{IdText, uuid, malformed, is_queued}
use algo_trading_broker.Webhook.{WebhookPayload}
use algo_trading_broker.Signals.{
  Signal, Table, Raw, payload_object, find_row, with_row, published_row, failed_row, spent_row,
  new_signal, log_signal, mark_published, mark_failed, record_attempt_failure, get_by_id,
}
use algo_trading_broker.Signals.Table.{Plain, find_row-update, find_row-append_one}
use algo_trading_broker.Signals.Operations.{
  published-Plain, failed-Plain, spent-Plain, log_signal-some, log_signal-none,
}
use algo_trading_broker.Processing.{
  parse_error, Result, ok, raised, Message, World, Pass, Config, publish, after_publish, fanout,
  handle_redelivery, first_fanout_unconfirmed, close_blocked, first_delivery, open_gate,
  handle_enqueued, retry_raw, retry_row, retry_signal,
}
use algo_trading_broker.Processing.Invariant.{
  message_id, Sends, publish_effect, Inv, find_existing_cases, is_blocked_cases, get_by_id-Known,
}
use algo_trading_broker.Processing.Runs.{Event, delivery, retry, step, run, step-Inv}

abbrev pub is_of : ℕ → Message → Bool
is_of i m = elim (message_id m) [ uuid j ↦ j == i | malformed t ↦ false ]

-- The messages about one signal, oldest first.
abbrev pub of_id : ℕ → List Message → List Message
of_id i sent = keep (is_of i) sent

-- Neither the row of `i` nor the messages about it changed.
pub record Frame (i : ℕ) (w w' : World) : Type 0 where
  pub same_row : find_row i w'.rows ≡ find_row i w.rows
  pub same_sent : of_id i w'.sent ≡ of_id i w.sent

pub Frame-trans : (i : ℕ) (u v w : World) → Frame i u v → Frame i v w → Frame i u w
Frame-trans i u v w f g = record {
  same_row = g.same_row ∙ f.same_row;
  same_sent = g.same_sent ∙ f.same_sent;
}

of_id-append_other :
    (i j : ℕ) (sent : List Message) (m : Message)
    → i ≢ j
    → message_id m ≡ uuid j
    → of_id i (sent ++ m ∷ []) ≡ of_id i sent
unfolding keep
of_id-append_other i j [] m n e = ground arith
of_id-append_other i j (x ∷ sent) m n e = ground (arith, of_id-append_other i j sent m n e)

Frame-Sends : (i j : ℕ) (w w' : World) → i ≢ j → Sends w (uuid j) w' → Frame i w w'
Frame-Sends i j w w' n (inl e) =
    subst (Frame i w) (sym e) (record { same_row = refl; same_sent = refl })
Frame-Sends i j w w' n (inr (m, e, s)) =
    subst (Frame i w) (sym s)
      (record { same_row = refl; same_sent = of_id-append_other i j w.sent m n e })

with_row-frame :
    (i j : ℕ) (up : Bool) (f : Signal → Signal) (rows : Table)
    → Plain f
    → i ≢ j
    → find_row i (with_row up (uuid j) f rows).0 ≡ find_row i rows
with_row-frame i j up f rows p n = ground (arith, find_row-update j i f p rows)

module _ (pass : Pass) (cfg : Config) (i j : ℕ) (n : i ≢ j) where
  after_publish-Frame :
      (payload : WebhookPayload) (k : ℕ) (result : Result (Unit {0})) (w : World)
      → Frame i w (after_publish pass cfg (uuid j) payload k result w).1
  unfolding after_publish mark_published mark_failed record_attempt_failure
  after_publish-Frame payload k (ok _) w = elim (Bool-cases cfg.broadcasting) [
    | inl e ↦ rw e (record {
      same_row = with_row-frame i j pass.mark_up published_row w.rows published-Plain n;
      same_sent = refl;
    })
    | inr e ↦ rw e (record {
      same_row = with_row-frame i j pass.mark_up published_row w.rows published-Plain n;
      same_sent = refl;
    })
  ]
  after_publish-Frame payload k (raised parse_error) w =
      let same : Frame i w
          (record w { rows = (mark_failed pass.mark_up pass.now (uuid j) w.rows).0 }) =
        record {
          same_row =
              with_row-frame i j pass.mark_up (failed_row pass.now) w.rows (failed-Plain pass.now)
                n;
          same_sent = refl;
        } in
      elim (Bool-cases (mark_failed pass.mark_up pass.now (uuid j) w.rows).1) [
        | inl e ↦ rw e same
        | inr e ↦ rw e same
      ]
  after_publish-Frame payload k (raised e) w =
      let same : Frame i w
          (record w { rows = (record_attempt_failure pass.record_up pass.now (uuid j) w.rows).0 }) =
        record {
          same_row =
              with_row-frame i j pass.record_up (spent_row pass.now) w.rows (spent-Plain pass.now)
                n;
          same_sent = refl;
        } in
      elim (Bool-cases
        (is_some (record_attempt_failure pass.record_up pass.now (uuid j) w.rows).1)) [
          | inl e ↦ rw e same
          | inr e ↦ rw e same
        ]

  fanout-Frame :
      (payload : WebhookPayload) (k : ℕ) (w : World)
      → Frame i w (fanout pass cfg (uuid j) payload k w).1
  unfolding fanout
  fanout-Frame payload k w =
      Frame-trans i w (publish pass payload (uuid j) w).1 _
        (Frame-Sends i j w _ n (publish_effect pass payload (uuid j) w))
        (after_publish-Frame payload k _ _)

-- The row of `i` is there and waits for nothing: it is published or failed.
pub record Settled (i : ℕ) (w : World) : Type 0 where
  pub row : Signal
  pub found : find_row i w.rows ≡ some row
  pub over : is_queued row.status ≡ false

pub unconfirmed-queued :
    (r : Signal) → first_fanout_unconfirmed r ≡ true → is_queued r.status ≡ true
unfolding first_fanout_unconfirmed
unconfirmed-queued r h = ground arith

-- A row that is still queued is another one.
Settled-other :
    (i j : ℕ) (w : World) (r : Signal)
    → Settled i w
    → find_row j w.rows ≡ some r
    → is_queued r.status ≡ true
    → i ≢ j
Settled-other i j w r s f q e = false≢true (
    sym s.over
    ∙ ap (λ x. is_queued x.status)
        (some-injective s.row r (sym s.found ∙ ap (λ k. find_row k w.rows) e ∙ f))
    ∙ q)

Frame-same : (i : ℕ) (w w' : World) → w'.rows ≡ w.rows → w'.sent ≡ w.sent → Frame i w w'
Frame-same i w w' r s = record { same_row = ap (find_row i) r; same_sent = ap (of_id i) s }

module _ (pass : Pass) (cfg : Config) (i : ℕ) where
  close_blocked-Frame :
      (found : Option Signal) (w : World)
      → Settled i w
      → ((r : Signal) → found ≡ some r → find_row r.id w.rows ≡ some r)
      → Frame i w (close_blocked pass found w).1
  unfolding close_blocked mark_failed
  close_blocked-Frame none w s f = Frame-same i w w refl refl
  close_blocked-Frame (some r) w s f = elim (Bool-cases (first_fanout_unconfirmed r)) [
    | inl e ↦
        let n = Settled-other i r.id w r s (f r refl) (unconfirmed-queued r e) in
        let same : Frame i w
            (record w { rows = (mark_failed pass.mark_up pass.now (uuid r.id) w.rows).0 }) =
          record {
            same_row =
                with_row-frame i r.id pass.mark_up (failed_row pass.now) w.rows
                  (failed-Plain pass.now) n;
            same_sent = refl;
          } in
        rw e (elim (Bool-cases (mark_failed pass.mark_up pass.now (uuid r.id) w.rows).1) [
          | inl g ↦ rw g same
          | inr g ↦ rw g same
        ])
    | inr e ↦ rw e (Frame-same i w w refl refl)
  ]

  first_delivery-Frame :
      (payload : WebhookPayload) (key : Option String) (w : World)
      → Settled i w
      → Frame i w (first_delivery pass cfg payload key w).1
  unfolding first_delivery
  first_delivery-Frame payload key w s =
      let up = pass.insert_up in
      let n = some cfg.max_attempts in
      let logged = log_signal up pass.new_id pass.now cfg.max_attempts payload key n w.rows in
      elim (Option-cases logged.1) [
        | inl e ↦ rw e (
            Frame-same i w _
              (log_signal-none up pass.new_id pass.now cfg.max_attempts payload key n w.rows e)
              refl)
        | inr (j, e) ↦
            let (g, t, fresh, free) =
              log_signal-some up pass.new_id pass.now cfg.max_attempts payload key n w.rows j e in
            let other : i ≢ j = λ p. cc (s.found, ap (λ k. find_row k w.rows) (p ∙ g), fresh) in
            let new = new_signal pass.new_id pass.now payload key cfg.max_attempts in
            rw e (
              Frame-trans i w (record w { rows = logged.0 }) _
                (record {
                  same_row =
                      ap (find_row i) t ∙ find_row-append_one i w.rows new ∙ (rw s.found refl);
                  same_sent = refl;
                })
                (fanout-Frame pass cfg i j other payload cfg.max_attempts _))
      ]

  open_gate-Frame :
      (payload : WebhookPayload) (key : Option String) (found : Option Signal) (w : World)
      → Settled i w
      → ((r : Signal) → found ≡ some r → find_row r.id w.rows ≡ some r)
      → Frame i w (open_gate pass cfg payload key found w).1
  unfolding open_gate handle_redelivery
  open_gate-Frame payload key none w s f = first_delivery-Frame payload key w s
  open_gate-Frame payload key (some r) w s f = elim (Bool-cases (first_fanout_unconfirmed r)) [
    | inl e ↦ rw e (
        fanout-Frame pass cfg i r.id
          (Settled-other i r.id w r s (f r refl) (unconfirmed-queued r e)) payload r.attempts w)
    | inr e ↦ rw e (Frame-same i w w refl refl)
  ]

  Settled-same : (w w' : World) → w'.rows ≡ w.rows → Settled i w → Settled i w'
  Settled-same w w' e s = record { row = s.row; found = ap (find_row i) e ∙ s.found; over = s.over }

  handle_enqueued-Frame :
      (payload : WebhookPayload) (key : Option String) (redelivered : Bool) (w : World)
      → Inv w
      → Settled i w
      → Frame i w (handle_enqueued pass cfg payload key redelivered w).1
  unfolding handle_enqueued
  handle_enqueued-Frame payload key redelivered w h s =
      elim (find_existing_cases pass w key redelivered h.table.distinct) [
        | inl e ↦ rw e (Frame-same i w w refl refl)
        | inr (found, e, f) ↦ rw e (elim (is_blocked_cases pass w payload) [
          | inl g ↦ rw g (Frame-same i w w refl refl)
          | inr (true, m, g, c) ↦
              let w' : World = record w { notices = m } in
              rw g (
                Frame-trans i w w' _ (Frame-same i w w' refl refl)
                  (close_blocked-Frame found w' (Settled-same w w' refl s) f))
          | inr (false, m, g, c) ↦
              let w' : World = record w { notices = m } in
              rw g (
                Frame-trans i w w' _ (Frame-same i w w' refl refl)
                  (open_gate-Frame payload key found w' (Settled-same w w' refl s) f))
        ])
      ]

  retry_raw-Frame :
      (j k : ℕ) (raw : Raw) (w : World) → i ≢ j → Frame i w (retry_raw pass cfg (uuid j) k raw w).1
  unfolding retry_raw record_attempt_failure
  retry_raw-Frame j k (payload_object payload) w n = fanout-Frame pass cfg i j n payload k w
  retry_raw-Frame j k _ w n = record {
    same_row =
        with_row-frame i j pass.record_up (spent_row pass.now) w.rows (spent-Plain pass.now) n;
    same_sent = refl;
  }

  retry_row-Frame :
      (j : ℕ) (found : Option Signal) (w : World)
      → Settled i w
      → ((r : Signal) → found ≡ some r → find_row j w.rows ≡ some r)
      → Frame i w (retry_row pass cfg (uuid j) found w).1
  unfolding retry_row
  retry_row-Frame j none w s f = Frame-same i w w refl refl
  retry_row-Frame j (some r) w s f = elim (Bool-cases (is_queued r.status && ltb 0 r.attempts)) [
    | inl e ↦
        rw e
          (retry_raw-Frame j r.attempts r.raw w (Settled-other i j w r s (f r refl) (ground arith)))
    | inr e ↦ rw e (Frame-same i w w refl refl)
  ]

  retry_signal-Frame :
      (signal_id : IdText) (w : World)
      → Settled i w
      → Frame i w (retry_signal pass cfg signal_id w).1
  unfolding retry_signal
  retry_signal-Frame (malformed t) w s = unfold get_by_id retry_row in Frame-same i w w refl refl
  retry_signal-Frame (uuid j) w s =
      retry_row-Frame j (get_by_id pass.fetch_up (uuid j) w.rows) w s
        (get_by_id-Known pass cfg pass.fetch_up j w.rows)

-- A retry of one signal leaves another alone.
pub retry_signal-other :
    (pass : Pass) (cfg : Config) (i j : ℕ) (w : World)
    → i ≢ j
    → Frame i w (retry_signal pass cfg (uuid j) w).1
unfolding retry_signal
retry_signal-other pass cfg i j w n = retry_row-other (get_by_id pass.fetch_up (uuid j) w.rows)
  where
    retry_row-other : (found : Option Signal) → Frame i w (retry_row pass cfg (uuid j) found w).1
    retry_row-other none = unfold retry_row in Frame-same i w w refl refl
    retry_row-other (some r) =
        unfold retry_row in
        elim (Bool-cases (is_queued r.status && ltb 0 r.attempts)) [
          | inl e ↦ rw e (retry_raw-Frame pass cfg i j r.attempts r.raw w n)
          | inr e ↦ rw e (Frame-same i w w refl refl)
        ]

step-Frame :
    (cfg : Config) (i : ℕ) (e : Event) (w : World) → Inv w → Settled i w → Frame i w (step cfg e w)
unfolding step
step-Frame cfg i (delivery pass payload key redelivered) w h s =
    handle_enqueued-Frame pass cfg i payload key redelivered w h s
step-Frame cfg i (retry pass signal_id) w h s = retry_signal-Frame pass cfg i signal_id w s

-- In a world that satisfies the invariant, with at least one attempt configured: once the row of
-- a signal is published or failed, no schedule of deliveries and retries, under any failures,
-- changes that row or sends a further message of that signal.
pub run-Settled :
    (cfg : Config) (i : ℕ) (events : List Event) (w : World)
    → 0 < cfg.max_attempts
    → Inv w
    → Settled i w
    → (find_row i (run cfg events w).rows ≡ find_row i w.rows)
      × (of_id i (run cfg events w).sent ≡ of_id i w.sent)
unfolding run
run-Settled cfg i [] w b h s = (refl, refl)
run-Settled cfg i (e ∷ events) w b h s =
    let f = step-Frame cfg i e w h s in
    let s' : Settled i (step cfg e w) = record {
      row = s.row;
      found = f.same_row ∙ s.found;
      over = s.over;
    } in
    let (rows, sent) = run-Settled cfg i events (step cfg e w) b (step-Inv cfg e w b h) s' in
    (rows ∙ f.same_row, sent ∙ f.same_sent)
