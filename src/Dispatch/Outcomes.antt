-- ===== src/Dispatch/Outcomes.antt =====
-- What a whole pass leaves of the write log of its cycle.
use algo_trading_broker.Prelude.{
  ℕ, ◌≡◌, refl, sym, ap, ◌∙◌, String, Bool, true, false, Option, none, some, List, [], ◌∷◌, map,
}
use algo_trading_broker.Cycles.{LogEntry, Chat}
use algo_trading_broker.Cycles.Consistent.{Numbered}
use algo_trading_broker.Delivery.{Job}
use algo_trading_broker.Backlog.{claim_pending_logs, defer_entry, on_ids, defer_logs}
use algo_trading_broker.Backlog.Attempts.{
  Bounded, claim_pending_logs-Bounded, finish_logs-Bounded, defer_logs-Bounded, parked_pass,
  defer_logs-parked,
}
use algo_trading_broker.Dispatch.{
  Board, View, Pass, chats_behind, park_behind, park, run_jobs, dispatch_jobs, dispatch_view,
  dispatch_claimed, after_claim, dispatch_locked,
}

module _ (p : Pass) (m : ℕ) where
  park-Bounded :
      (view : View) (ids : List ℕ) (reason : String) (b : Board) (behind : List Chat)
      → Bounded m b.logs
      → Bounded m (park_behind p view ids reason b behind).logs
  park-Bounded view ids reason b [] h =
      finish_logs-Bounded m p.now p.settle_up ids true none none b.logs h
  park-Bounded view ids reason b (c ∷ behind) h =
      defer_logs-Bounded m p.now p.settle_up ids reason b.logs h

  run_jobs-Bounded :
      (ids : List ℕ) (b : Board) (jobs : List Job) (cut : Option ℕ)
      → Bounded m b.logs
      → Bounded m (run_jobs p ids b jobs cut).0.logs
  run_jobs-Bounded ids b jobs none h = finish_logs-Bounded m p.now p.settle_up ids _ _ _ b.logs h
  run_jobs-Bounded ids b jobs (some n) h = h

  dispatch_jobs-Bounded :
      (view : View) (ids : List ℕ) (b : Board) (jobs : List Job)
      → Bounded m b.logs
      → Bounded m (dispatch_jobs p view ids b jobs).0.logs
  unfolding park
  dispatch_jobs-Bounded view ids b [] h =
      park-Bounded view ids "no broadcast chats configured" b (chats_behind view.last_seq b.chats) h
  dispatch_jobs-Bounded view ids b (job ∷ jobs) h =
      run_jobs-Bounded ids b (job ∷ jobs) p.cut_after h

  dispatch_view-Bounded :
      (view : View) (ids : List ℕ) (b : Board) (silent : Bool)
      → Bounded m b.logs
      → Bounded m (dispatch_view p view ids b silent).0.logs
  unfolding park
  dispatch_view-Bounded view ids b true h =
      park-Bounded view ids "silenced" b (chats_behind view.last_seq b.chats) h
  dispatch_view-Bounded view ids b false h = dispatch_jobs-Bounded view ids b p.jobs h

  dispatch_claimed-Bounded :
      (ids : List ℕ) (b : Board) (view : Option View)
      → Bounded m b.logs
      → Bounded m (dispatch_claimed p ids b view).0.logs
  unfolding park
  dispatch_claimed-Bounded ids b none h =
      finish_logs-Bounded m p.now p.settle_up ids true none none b.logs h
  dispatch_claimed-Bounded ids b (some view) h = dispatch_view-Bounded view ids b p.silent h

  after_claim-Bounded :
      (b : Board) (ids : List ℕ) → Bounded m b.logs → Bounded m (after_claim p b ids).0.logs
  after_claim-Bounded b [] h = h
  after_claim-Bounded b (i ∷ ids) h = dispatch_claimed-Bounded (i ∷ ids) b p.view h

-- No pass lets an entry of the write log spend more attempts than the limit, when none had before:
-- whichever of its calls of the repository fail, and also if an exception ends its delivery.
pub dispatch_locked-Bounded :
    (p : Pass) (b : Board)
    → Bounded p.max_attempts b.logs
    → Bounded p.max_attempts (dispatch_locked p b).0.logs
unfolding dispatch_locked
dispatch_locked-Bounded p b h =
    after_claim-Bounded p p.max_attempts
      (record b { logs = (claim_pending_logs p.claim_up p.max_attempts p.now b.logs).1 })
      (claim_pending_logs p.claim_up p.max_attempts p.now b.logs).0
      (claim_pending_logs-Bounded p.max_attempts p.now p.claim_up b.logs h)

on_ids-none : (f : LogEntry → LogEntry) (logs : List LogEntry) → on_ids [] f logs ≡ logs
unfolding on_ids
on_ids-none f [] = refl
on_ids-none f (l ∷ logs) = ap (λ ls. l ∷ ls) (on_ids-none f logs)

defer_logs-none :
    (up : Bool) (reason : String) (now : ℕ) (logs : List LogEntry)
    → defer_logs up [] reason now logs ≡ logs
unfolding defer_logs
defer_logs-none true reason now logs = on_ids-none (defer_entry reason now) logs
defer_logs-none false reason now logs = refl

defer_logs-claimed :
    (up settle_up : Bool) (max_attempts : ℕ) (reason : String) (now : ℕ) (logs : List LogEntry)
    → up ≡ true
    → settle_up ≡ true
    → Numbered 1 logs
    → defer_logs settle_up
        (claim_pending_logs up max_attempts now logs).0
        reason
        now
        (claim_pending_logs up max_attempts now logs).1
      ≡ map (parked_pass max_attempts reason now) logs
defer_logs-claimed true true max_attempts reason now logs u v w =
    defer_logs-parked max_attempts now reason 1 logs w
defer_logs-claimed true false max_attempts reason now logs u v w = cc
defer_logs-claimed false settle_up max_attempts reason now logs u v w = cc

-- The pass after a claim that a silenced broker parks, for chats that are behind.
module _ (p : Pass) (view : View) (c : Chat) (behind : List Chat) where
  after_claim-silent :
      (b : Board) (ids : List ℕ)
      → p.silent ≡ true
      → p.view ≡ some view
      → chats_behind view.last_seq b.chats ≡ c ∷ behind
      → ((after_claim p b ids).1 ≡ [])
        × ((after_claim p b ids).0.logs ≡ defer_logs p.settle_up ids "silenced" p.now b.logs)
  unfolding park
  after_claim-silent b [] s v e = (refl, sym (defer_logs-none p.settle_up "silenced" p.now b.logs))
  after_claim-silent b (i ∷ ids) s v e = rw (v, s, park, e) (refl, refl)

-- A silenced pass that claims and defers on a live database, with the cycle loaded, over a numbered log and a cycle
-- that a chat still shows in an older state shows nothing and spends no attempt: the entries it
-- would have delivered keep their status and their attempts, with the reason noted on them, and
-- the others stay as they are.
pub dispatch_locked-silent :
    (p : Pass) (b : Board) (view : View) (c : Chat) (behind : List Chat)
    → p.claim_up ≡ true
    → p.settle_up ≡ true
    → p.silent ≡ true
    → p.view ≡ some view
    → chats_behind view.last_seq b.chats ≡ c ∷ behind
    → Numbered 1 b.logs
    → ((dispatch_locked p b).1 ≡ [])
      × ((dispatch_locked p b).0.logs ≡ map (parked_pass p.max_attempts "silenced" p.now) b.logs)
unfolding dispatch_locked
dispatch_locked-silent p b view c behind u z s v e w =
    let claimed = claim_pending_logs p.claim_up p.max_attempts p.now b.logs in
    let r = after_claim-silent p view c behind (record b { logs = claimed.1 }) claimed.0 s v e in
    (
      r.0,
      r.1 ∙ defer_logs-claimed p.claim_up p.settle_up p.max_attempts "silenced" p.now b.logs u z w,
    )
