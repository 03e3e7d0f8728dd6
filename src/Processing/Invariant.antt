-- ===== src/Processing/Invariant.antt =====
-- The invariant of the table and of the messages sent, under each handler.
use mathlib.Core.Path.{subst, subst₂}
use algo_trading_broker.Prelude.{
  ◌==◌, string_eq, option_eq, option_beq_iff, ◌+◌, ◌&&◌, ltb, ℕ, ◌<◌, ◌≡◌, refl, sym, ap, ◌⊎◌, inl,
  inr, String, Bool, true, false, Option, none, some, List, [], ◌∷◌, ◌++◌, arith, is_some, All,
  All-append, All-map, Bool-cases, Option-cases,
}
use algo_trading_broker.Core.{action_eq, IdText, uuid, malformed, SignalAction, is_queued}
use algo_trading_broker.Webhook.{WebhookPayload, parse_signal}
use algo_trading_broker.Signals.{
  Raw, payload_object, Signal, Table, find_row, log_signal, mark_failed, record_attempt_failure,
  find_key, get_by_delivery_key, get_by_id,
}
use algo_trading_broker.Signals.Table.{Distinct, IsTable, find_key-some}
use algo_trading_broker.Signals.Operations.{
  Known, mark_published-IsTable, mark_failed-IsTable, record_attempt_failure-IsTable,
  mark_published-Known, mark_failed-Known, record_attempt_failure-Known, log_signal-IsTable,
  log_signal-Known, log_signal-find,
}
use algo_trading_broker.Processing.{
  parse_error, store_error, Result, ok, raised, Message, signal_message, flat_message, World, Pass,
  Config, Publish, delivered, lost, unconfirmed, send, publish, broadcast, after_publish, fanout,
  handle_redelivery, find_existing, first_fanout_unconfirmed, is_blocked, close_blocked,
  first_delivery, open_gate, handle_enqueued, retry_raw, retry_row, retry_signal,
}

abbrev pub message_id : Message → IdText
message_id (signal_message s) = s.signal_id
message_id (flat_message i u y t g) = i

pub Publish-cases : (p : Publish) → (p ≡ lost) ⊎ ((p ≡ delivered) ⊎ (p ≡ unconfirmed))
Publish-cases lost = inl refl
Publish-cases delivered = inr (inl refl)
Publish-cases unconfirmed = inr (inr refl)

abbrev pub KnownId : Table → IdText → Type 0
KnownId rows (uuid i) = Known rows i
KnownId rows (malformed t) = ⊥

abbrev pub SentKnown : Table → List Message → Type 0
SentKnown rows sent = All (λ m. KnownId rows (message_id m)) sent

pub record Inv (w : World) : Type 0 where
  pub table : IsTable w.rows
  pub known : SentKnown w.rows w.sent

KnownId-grow :
    (rows rows' : Table)
    → ((j : ℕ) → Known rows j → Known rows' j)
    → (i : IdText) → KnownId rows i
    → KnownId rows' i
KnownId-grow rows rows' g (uuid i) h = g i h
KnownId-grow rows rows' g (malformed t) h = h

-- A repository call that keeps the table and its rows keeps the invariant.
pub Inv-rows :
    (w : World) (rows' : Table)
    → ((j : ℕ) → Known w.rows j → Known rows' j)
    → IsTable rows'
    → Inv w
    → Inv (record w { rows = rows' })
Inv-rows w rows' g t h = record {
  table = t;
  known = All-map _ _ (λ m. KnownId-grow w.rows rows' g (message_id m)) w.sent h.known;
}

abbrev pub Sends : World → IdText → World → Type 0
Sends w signal_id w' =
    (w' ≡ w)
    ⊎ ((m : Message) × (message_id m ≡ signal_id) × (w' ≡ record w { sent = w.sent ++ m ∷ [] }))

send_effect : (pass : Pass) (m : Message) (w : World) → Sends w (message_id m) (send pass m w).1
unfolding send
send_effect pass m w = elim (Publish-cases pass.publish) [
  | inl e ↦ rw e (inl refl)
  | inr (inl e) ↦ rw e (inr (m, refl, refl))
  | inr (inr e) ↦ rw e (inr (m, refl, refl))
]

-- A publish leaves the table alone, and sends the one message of that id or none.
pub publish_effect :
    (pass : Pass) (payload : WebhookPayload) (signal_id : IdText) (w : World)
    → Sends w signal_id (publish pass payload signal_id w).1
unfolding publish parse_signal
publish_effect pass payload signal_id w =
    elim (Bool-cases (payload.position.action == SignalAction.flat)) [
      | inl e ↦ rw e (send_effect pass _ w)
      | inr e ↦ rw e (elim (Bool-cases pass.parses) [
        | inl f ↦ rw f (send_effect pass _ w)
        | inr f ↦ rw f (inl refl)
      ])
    ]

Inv-Sends :
    (w w' : World) (i : ℕ) → Sends w (uuid i) w' → Known w.rows i → Inv w → Inv w' × Known w'.rows i
Inv-Sends w w' i (inl e) k h = subst (λ x. Inv x × Known x.rows i) (sym e) (h, k)
Inv-Sends w w' i (inr (m, e, s)) k h =
    subst (λ x. Inv x × Known x.rows i) (sym s)
      (
        record {
          table = h.table;
          known = All-append _ w.sent (m ∷ []) h.known (subst (KnownId w.rows) (sym e) k, tt);
        },
        k,
      )

broadcast_effect :
    (cfg : Config) (payload : WebhookPayload) (n : ℕ) (w : World)
    → ((broadcast cfg payload n w).1.rows ≡ w.rows) × ((broadcast cfg payload n w).1.sent ≡ w.sent)
unfolding broadcast
broadcast_effect cfg payload n w = ground arith

Inv-same : (w w' : World) → w'.rows ≡ w.rows → w'.sent ≡ w.sent → Inv w → Inv w'
Inv-same w w' r s h = record {
  table = subst IsTable (sym r) h.table;
  known = subst₂ SentKnown (sym r) (sym s) h.known;
}

module _ (pass : Pass) (cfg : Config) where
  after_publish-Inv :
      (signal_id : IdText) (payload : WebhookPayload) (n : ℕ) (result : Result (Unit {0}))
      (w : World)
      → Inv w
      → Inv (after_publish pass cfg signal_id payload n result w).1
  unfolding after_publish
  after_publish-Inv signal_id payload n (ok _) w h = elim (Bool-cases cfg.broadcasting) [
    | inl e ↦ rw e (
        Inv-rows _ _ (mark_published-Known _ pass.now _ _)
          (mark_published-IsTable _ pass.now _ _ h.table) (Inv-same w _ refl refl h))
    | inr e ↦ rw e (
        Inv-rows w _ (mark_published-Known _ pass.now _ _)
          (mark_published-IsTable _ pass.now _ _ h.table) h)
  ]
  after_publish-Inv signal_id payload n (raised parse_error) w h =
      let h' =
        Inv-rows w (mark_failed pass.mark_up pass.now signal_id w.rows).0
          (mark_failed-Known _ _ _ _) (mark_failed-IsTable _ _ _ _ h.table) h in
      elim (Bool-cases (mark_failed pass.mark_up pass.now signal_id w.rows).1) [
        | inl e ↦ rw e h'
        | inr e ↦ rw e h'
      ]
  after_publish-Inv signal_id payload n (raised e) w h =
      let h' =
        Inv-rows w (record_attempt_failure pass.record_up pass.now signal_id w.rows).0
          (record_attempt_failure-Known _ _ _ _) (record_attempt_failure-IsTable _ _ _ _ h.table)
          h in
      elim (Bool-cases
        (is_some (record_attempt_failure pass.record_up pass.now signal_id w.rows).1)) [
          | inl e ↦ rw e h'
          | inr e ↦ rw e h'
        ]

  pub fanout-Inv :
      (i : ℕ) (payload : WebhookPayload) (n : ℕ) (w : World)
      → Known w.rows i
      → Inv w
      → Inv (fanout pass cfg (uuid i) payload n w).1
  unfolding fanout
  fanout-Inv i payload n w k h =
      after_publish-Inv (uuid i) payload n _ _
        (Inv-Sends w _ i (publish_effect pass payload (uuid i) w) k h).0

  first_delivery-Inv :
      (payload : WebhookPayload) (key : Option String) (w : World)
      → 0 < cfg.max_attempts
      → Inv w
      → Inv (first_delivery pass cfg payload key w).1
  unfolding first_delivery
  first_delivery-Inv payload key w b h =
      let up = pass.insert_up in
      let n = some cfg.max_attempts in
      let logged = log_signal up pass.new_id pass.now cfg.max_attempts payload key n w.rows in
      let w' : World = record w { rows = logged.0 } in
      let h' : Inv w' =
        Inv-rows w logged.0
          (log_signal-Known up pass.new_id pass.now cfg.max_attempts payload key n w.rows)
          (log_signal-IsTable up pass.new_id pass.now cfg.max_attempts payload key n w.rows b
            h.table)
          h in
      elim (Option-cases logged.1) [
        | inl e ↦ rw e h'
        | inr (i, e) ↦ rw e (
            fanout-Inv i payload cfg.max_attempts w'
              (ap is_some
                (log_signal-find up pass.new_id pass.now cfg.max_attempts payload key n w.rows i e))
              h')
      ]

module _ (pass : Pass) (w : World) where
  -- The lookup changes nothing, and the row that it answers is the one of its id.
  pub find_existing_cases :
      (key : Option String) (redelivered : Bool)
      → Distinct w.rows
      → (find_existing pass key redelivered w ≡ (raised store_error, w))
        ⊎ ((found : Option Signal) × (find_existing pass key redelivered w ≡ (ok found, w))
            × ((r : Signal) → found ≡ some r → find_row r.id w.rows ≡ some r))
  unfolding find_existing get_by_delivery_key
  find_existing_cases none redelivered d = inr (none, refl, λ r e. cc)
  find_existing_cases (some k) false d = inr (none, refl, λ r e. cc)
  find_existing_cases (some k) true d = elim (Bool-cases pass.lookup_up) [
    | inl e ↦ rw e (inr (find_key k w.rows, refl, λ r f. (find_key-some k w.rows r d f).0))
    | inr e ↦ rw e (inl refl)
  ]

  -- The gate is read once; only the count of warnings changes.
  pub is_blocked_cases :
      (payload : WebhookPayload)
      → (is_blocked pass payload w ≡ (raised store_error, w))
        ⊎ ((stop : Bool) × (n : ℕ) × (is_blocked pass payload w
              ≡ (ok stop, record w { notices = n }))
            × (stop ≡ true → pass.gate ≡ some (some "1")))
  unfolding is_blocked
  is_blocked_cases payload = elim (Option-cases pass.gate) [
    | inl e ↦ rw e (inl refl)
    | inr (v, e) ↦ rw e (elim (Bool-cases (v == some "1")) [
      | inl f ↦
          rw f (inr (true, w.notices + 1, refl, λ _. ap some ((option_beq_iff v (some "1")).0 f)))
      | inr f ↦ rw f (inr (false, w.notices, refl, λ h. cc))
    ])
  ]

module _ (pass : Pass) (cfg : Config) where
  pub close_blocked-Inv :
      (found : Option Signal) (w : World) → Inv w → Inv (close_blocked pass found w).1
  unfolding close_blocked
  close_blocked-Inv none w h = h
  close_blocked-Inv (some r) w h =
      let h' =
        Inv-rows w (mark_failed pass.mark_up pass.now (uuid r.id) w.rows).0
          (mark_failed-Known _ _ _ _) (mark_failed-IsTable _ _ _ _ h.table) h in
      elim (Bool-cases (first_fanout_unconfirmed r)) [
        | inl e ↦ rw e (elim (Bool-cases (mark_failed pass.mark_up pass.now (uuid r.id) w.rows).1) [
          | inl f ↦ rw f h'
          | inr f ↦ rw f h'
        ])
        | inr e ↦ rw e h
      ]

  pub open_gate-Inv :
      (payload : WebhookPayload) (key : Option String) (found : Option Signal) (w : World)
      → 0 < cfg.max_attempts
      → ((r : Signal) → found ≡ some r → find_row r.id w.rows ≡ some r)
      → Inv w
      → Inv (open_gate pass cfg payload key found w).1
  unfolding open_gate handle_redelivery
  open_gate-Inv payload key none w b f h = first_delivery-Inv pass cfg payload key w b h
  open_gate-Inv payload key (some r) w b f h = elim (Bool-cases (first_fanout_unconfirmed r)) [
    | inl e ↦ rw e (fanout-Inv pass cfg r.id payload r.attempts w (ap is_some (f r refl)) h)
    | inr e ↦ rw e h
  ]

  pub handle_enqueued-Inv :
      (payload : WebhookPayload) (key : Option String) (redelivered : Bool) (w : World)
      → 0 < cfg.max_attempts
      → Inv w
      → Inv (handle_enqueued pass cfg payload key redelivered w).1
  unfolding handle_enqueued
  handle_enqueued-Inv payload key redelivered w b h =
      elim (find_existing_cases pass w key redelivered h.table.distinct) [
        | inl e ↦ rw e h
        | inr (found, e, f) ↦ rw e (elim (is_blocked_cases pass w payload) [
          | inl g ↦ rw g h
          | inr (true, n, g, c) ↦ rw g (close_blocked-Inv found _ (Inv-same w _ refl refl h))
          | inr (false, n, g, c) ↦
              rw g (open_gate-Inv payload key found _ b f (Inv-same w _ refl refl h))
        ])
      ]

  retry_raw-Inv :
      (i n : ℕ) (raw : Raw) (w : World)
      → Known w.rows i
      → Inv w
      → Inv (retry_raw pass cfg (uuid i) n raw w).1
  unfolding retry_raw
  retry_raw-Inv i n (payload_object payload) w k h = fanout-Inv pass cfg i payload n w k h
  retry_raw-Inv i n _ w k h =
      Inv-rows w _ (record_attempt_failure-Known _ _ _ _)
        (record_attempt_failure-IsTable _ _ _ _ h.table) h

  retry_row-Inv :
      (i : ℕ) (found : Option Signal) (w : World)
      → ((r : Signal) → found ≡ some r → Known w.rows i)
      → Inv w
      → Inv (retry_row pass cfg (uuid i) found w).1
  unfolding retry_row
  retry_row-Inv i none w f h = h
  retry_row-Inv i (some r) w f h = elim (Bool-cases (is_queued r.status && ltb 0 r.attempts)) [
    | inl e ↦ rw e (retry_raw-Inv i r.attempts r.raw w (f r refl) h)
    | inr e ↦ rw e h
  ]

  pub get_by_id-Known :
      (up : Bool) (i : ℕ) (rows : Table) (r : Signal)
      → get_by_id up (uuid i) rows ≡ some r
      → find_row i rows ≡ some r
  unfolding get_by_id
  get_by_id-Known up i rows r h = ground arith

  pub retry_signal-Inv :
      (signal_id : IdText) (w : World) → Inv w → Inv (retry_signal pass cfg signal_id w).1
  unfolding retry_signal
  retry_signal-Inv (malformed t) w h = unfold get_by_id retry_row in h
  retry_signal-Inv (uuid i) w h =
      retry_row-Inv i (get_by_id pass.fetch_up (uuid i) w.rows) w
        (λ r e. ap is_some (get_by_id-Known pass.fetch_up i w.rows r e)) h
