-- ===== src/Backlog/Attempts.antt =====
-- The attempts that the entries of a write log spend.
use mathlib.Core.Path.{ap₂}
use algo_trading_broker.Prelude.{
  ℕ, zero, suc, ◌+◌, ◌≤◌, ◌<◌, ◌≡◌, refl, sym, ap, ◌∙◌, inl, inr, String, Bool, true, false, Option,
  some, List, [], ◌∷◌, map, arith, ltb, if◌then◌else◌, keep, Bool-cases, All, nat_eq,
}
use algo_trading_broker.Core.{BroadcastLogStatus}
use algo_trading_broker.Cycles.{LogEntry}
use algo_trading_broker.Cycles.Consistent.{Numbered}
use algo_trading_broker.Backlog.{
  is_claimable, claim_entry, claim_pending_logs, in_ids, finish_entry, finish_logs, defer_entry,
  on_ids, defer_logs,
}

-- No entry has spent more attempts than the limit.
abbrev pub Bounded : ℕ → List LogEntry → Type 0
Bounded max_attempts logs = All (λ l. l.attempts ≤ max_attempts) logs

abbrev pub seqs_of : List LogEntry → List ℕ
seqs_of = map (λ l. l.seq)

All-map_of {ℓ κ} :
    {A : Type ℓ} (P : A → Type κ) (f : A → A)
    → ((x : A) → P x → P (f x))
    → (xs : List A) → All P xs
    → All P (map f xs)
All-map_of P f h [] a = tt
All-map_of P f h (x ∷ xs) a = (h x a.0, All-map_of P f h xs a.1)

module _ (max_attempts now : ℕ) where
  claim_entry-bounded :
      (l : LogEntry)
      → l.attempts ≤ max_attempts
      → (claim_entry max_attempts now l).attempts ≤ max_attempts
  claim_entry-bounded l h = ground arith

  pub claim_pending_logs-Bounded :
      (up : Bool) (logs : List LogEntry)
      → Bounded max_attempts logs
      → Bounded max_attempts (claim_pending_logs up max_attempts now logs).1
  unfolding claim_pending_logs
  claim_pending_logs-Bounded true logs h =
      All-map_of _ (claim_entry max_attempts now) claim_entry-bounded logs h
  claim_pending_logs-Bounded false logs h = h

  on_ids-Bounded :
      (ids : List ℕ) (f : LogEntry → LogEntry)
      → ((l : LogEntry) → (f l).attempts ≤ l.attempts)
      → (logs : List LogEntry) → Bounded max_attempts logs
      → Bounded max_attempts (on_ids ids f logs)
  unfolding on_ids
  on_ids-Bounded ids f g [] h = tt
  on_ids-Bounded ids f g (l ∷ logs) h = elim (Bool-cases (in_ids l.seq ids)) [
    | inl e ↦ rw e (omega (arith, g l, h.0), on_ids-Bounded ids f g logs h.1)
    | inr e ↦ rw e (h.0, on_ids-Bounded ids f g logs h.1)
  ]

  finish_entry-attempts :
      (delivered : Bool) (error : Option String) (max : Option ℕ) (l : LogEntry)
      → (finish_entry delivered error max now l).attempts ≤ l.attempts
  finish_entry-attempts delivered error max l = ground arith

  pub finish_logs-Bounded :
      (up : Bool) (ids : List ℕ) (delivered : Bool) (error : Option String) (max : Option ℕ)
      (logs : List LogEntry)
      → Bounded max_attempts logs
      → Bounded max_attempts (finish_logs up ids delivered error max now logs)
  unfolding finish_logs
  finish_logs-Bounded true ids delivered error max logs h =
      on_ids-Bounded ids (finish_entry delivered error max now)
        (finish_entry-attempts delivered error max) logs h
  finish_logs-Bounded false ids delivered error max logs h = h

  pub defer_logs-Bounded :
      (up : Bool) (ids : List ℕ) (reason : String) (logs : List LogEntry)
      → Bounded max_attempts logs
      → Bounded max_attempts (defer_logs up ids reason now logs)
  unfolding defer_logs
  defer_logs-Bounded true ids reason logs h =
      on_ids-Bounded ids (defer_entry reason now) (λ l. omega arith) logs h
  defer_logs-Bounded false ids reason logs h = h

-- The ids of claimed entries of a numbered log single out the claimable ones.
in_ids-keep :
    (p : LogEntry → Bool) (m n : ℕ) (logs : List LogEntry)
    → m < n
    → Numbered n logs
    → in_ids m (seqs_of (keep p logs)) ≡ false
unfolding keep
in_ids-keep p m n [] h w = refl
in_ids-keep p m n (l ∷ logs) h w =
    let rest = in_ids-keep p m (suc n) logs (omega (arith, h)) w.1 in
    elim (Bool-cases (p l)) [ inl e ↦ rw e (ground (arith, rest, w.0, h)) | inr e ↦ rw e rest ]

seq_differs : (i n m : ℕ) (ids : List ℕ) → m ≡ n → i < n → in_ids m (i ∷ ids) ≡ in_ids m ids
seq_differs i n m ids e h = ground arith

-- One more id that stands before the log changes nothing.
on_ids-skip :
    (i n : ℕ) (ids : List ℕ) (f g : LogEntry → LogEntry)
    → ((l : LogEntry) → (g l).seq ≡ l.seq)
    → (logs : List LogEntry) → i < n
    → Numbered n logs
    → on_ids (i ∷ ids) f (map g logs) ≡ on_ids ids f (map g logs)
unfolding on_ids
on_ids-skip i n ids f g s [] h w = refl
on_ids-skip i n ids f g s (l ∷ logs) h w =
    ap₂ ◌∷◌ (ap (λ b. if b then f (g l) else g l) (seq_differs i n (g l).seq ids (s l ∙ w.0) h))
      (on_ids-skip i (suc n) ids f g s logs (omega (arith, h)) w.1)

keep-true {ℓ} :
    {A : Type ℓ} (p : A → Bool) (x : A) (xs : List A) → p x ≡ true → keep p (x ∷ xs) ≡ x ∷ keep p xs
unfolding keep
keep-true p x xs e = rw e

keep-false {ℓ} :
    {A : Type ℓ} (p : A → Bool) (x : A) (xs : List A) → p x ≡ false → keep p (x ∷ xs) ≡ keep p xs
unfolding keep
keep-false p x xs e = rw e

in_ids-head : (m i : ℕ) (ids : List ℕ) → m ≡ i → in_ids m (i ∷ ids) ≡ true
in_ids-head m i ids e = ground arith

-- An assignment to the entries just claimed reaches the claimable ones and no other.
pub on_ids-claimed :
    (p : LogEntry → Bool) (f g : LogEntry → LogEntry)
    → ((l : LogEntry) → (g l).seq ≡ l.seq)
    → (n : ℕ) (logs : List LogEntry) → Numbered n logs
    → on_ids (seqs_of (keep p logs)) f (map g logs) ≡ map (λ l. if p l then f (g l) else g l) logs
unfolding keep on_ids
on_ids-claimed p f g s n [] w = refl
on_ids-claimed p f g s n (l ∷ logs) w =
    let rest = on_ids-claimed p f g s (suc n) logs w.1 in
    let one = λ (b : Bool). if b then f (g l) else g l in
    elim (Bool-cases (p l)) [
      | inl e ↦
          ap (λ ks. on_ids (seqs_of ks) f (map g (l ∷ logs))) (keep-true p l logs e)
          ∙ ap₂ ◌∷◌ (ap one (in_ids-head (g l).seq l.seq _ (s l) ∙ sym e)) (
              on_ids-skip l.seq (suc n) (seqs_of (keep p logs)) f g s logs (omega (arith, w.0)) w.1
              ∙ rest)
      | inr e ↦
          ap (λ ks. on_ids (seqs_of ks) f (map g (l ∷ logs))) (keep-false p l logs e)
          ∙ ap₂ ◌∷◌
              (ap one (
                ap (λ k. in_ids k (seqs_of (keep p logs))) (s l ∙ w.0)
                ∙ in_ids-keep p n (suc n) logs (omega arith) w.1
                ∙ sym e))
              rest
    ]

claim_entry-seq :
    (max_attempts now : ℕ) (l : LogEntry) → (claim_entry max_attempts now l).seq ≡ l.seq
claim_entry-seq max_attempts now l = ground arith

-- What one pass makes of an entry whose delivery fails.
abbrev pub failed_pass : ℕ → Option String → ℕ → LogEntry → LogEntry
failed_pass max_attempts error now l =
    if is_claimable max_attempts l
    then finish_entry false error (some max_attempts) now (claim_entry max_attempts now l)
    else claim_entry max_attempts now l

-- Claiming a log and failing what was claimed is the failed pass of every entry, whatever else the
-- log holds.
pub finish_logs-failed :
    (max_attempts now : ℕ) (error : Option String) (n : ℕ) (logs : List LogEntry)
    → Numbered n logs
    → finish_logs true
        (claim_pending_logs true max_attempts now logs).0
        false
        error
        (some max_attempts)
        now
        (claim_pending_logs true max_attempts now logs).1
      ≡ map (failed_pass max_attempts error now) logs
unfolding finish_logs claim_pending_logs
finish_logs-failed max_attempts now error n logs w =
    on_ids-claimed (is_claimable max_attempts) (finish_entry false error (some max_attempts) now)
      (claim_entry max_attempts now) (claim_entry-seq max_attempts now) n logs w

-- `times` passes in a row whose deliveries fail.
abbrev pub failed_passes : ℕ → ℕ → Option String → ℕ → LogEntry → LogEntry
failed_passes zero max_attempts error now l = l
failed_passes (suc times) max_attempts error now l =
    failed_passes times max_attempts error now (failed_pass max_attempts error now l)

failed_pass-step :
    (max_attempts now : ℕ) (error : Option String) (l : LogEntry)
    → l.status ≡ BroadcastLogStatus.pending
    → suc (l.attempts) < max_attempts
    → ((failed_pass max_attempts error now l).status ≡ BroadcastLogStatus.pending)
      × ((failed_pass max_attempts error now l).attempts ≡ suc l.attempts)
failed_pass-step max_attempts now error l e h = ground arith

failed_pass-last :
    (max_attempts now : ℕ) (error : Option String) (l : LogEntry)
    → l.status ≡ BroadcastLogStatus.pending
    → suc (l.attempts) ≡ max_attempts
    → (failed_pass max_attempts error now l).status ≡ BroadcastLogStatus.failed
failed_pass-last max_attempts now error l e h = ground arith

-- A pending entry whose deliveries keep failing is tried once in each pass, stays pending while
-- tries are left, and is FAILED by exactly the pass that takes its last one.
pub failed_passes-exhaust :
    (max_attempts now : ℕ) (error : Option String) (times : ℕ) (l : LogEntry)
    → l.status ≡ BroadcastLogStatus.pending
    → l.attempts + suc times ≤ max_attempts
    → (failed_passes (suc times) max_attempts error now l).status ≡ (
        if ltb (l.attempts + suc times) max_attempts
        then BroadcastLogStatus.pending
        else BroadcastLogStatus.failed)
failed_passes-exhaust max_attempts now error zero l e h = ground arith
failed_passes-exhaust max_attempts now error (suc times) l e h =
    let s = failed_pass-step max_attempts now error l e (omega (arith, h)) in
    failed_passes-exhaust max_attempts now error times (failed_pass max_attempts error now l) s.0
      (omega (arith, h, s.1))
    ∙ ap (λ k. if ltb k max_attempts then BroadcastLogStatus.pending else BroadcastLogStatus.failed)
        (omega (arith, s.1))

-- What a parked pass makes of an entry: a claimable one is handed back, with the reason.
abbrev pub parked_pass : ℕ → String → ℕ → LogEntry → LogEntry
parked_pass max_attempts reason now l =
    if is_claimable max_attempts l
    then record l { last_error = some reason; updated_at = now }
    else l

deferred-parked :
    (max_attempts now : ℕ) (reason : String) (l : LogEntry)
    → (if is_claimable max_attempts l
        then defer_entry reason now (claim_entry max_attempts now l)
        else claim_entry max_attempts now l)
      ≡ parked_pass max_attempts reason now l
deferred-parked max_attempts now reason l = ground arith

map-pointwise {ℓ κ} :
    {A : Type ℓ} {B : Type κ} (f g : A → B)
    → ((x : A) → f x ≡ g x)
    → (xs : List A) → map f xs ≡ map g xs
map-pointwise f g h [] = refl
map-pointwise f g h (x ∷ xs) = ap₂ ◌∷◌ (h x) (map-pointwise f g h xs)

-- A deferral spends no attempt: claiming a numbered log and deferring what was claimed gives every
-- entry its status and its attempts back, and notes the reason on the claimed ones.
pub defer_logs-parked :
    (max_attempts now : ℕ) (reason : String) (n : ℕ) (logs : List LogEntry)
    → Numbered n logs
    → defer_logs true
        (claim_pending_logs true max_attempts now logs).0
        reason
        now
        (claim_pending_logs true max_attempts now logs).1
      ≡ map (parked_pass max_attempts reason now) logs
unfolding defer_logs claim_pending_logs
defer_logs-parked max_attempts now reason n logs w =
    on_ids-claimed (is_claimable max_attempts) (defer_entry reason now)
      (claim_entry max_attempts now) (claim_entry-seq max_attempts now) n logs w
    ∙ map-pointwise _ (parked_pass max_attempts reason now)
        (deferred-parked max_attempts now reason) logs
