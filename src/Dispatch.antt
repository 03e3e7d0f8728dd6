-- ===== src/Dispatch.antt =====
-- broker/services/broadcast_service.py, `_dispatch_locked` and `_park`: one pass of the dispatcher over
-- one cycle, under the lock of the cycle.
pub mod Outcomes
use Prim.Native.String.{◌++◌ as str_append}
use algo_trading_broker.Prelude.{
  ℕ, suc, ◌-◌, ◌+◌, String, Bool, true, false, ◌&&◌, ◌||◌, Option, none, some, List, [], ◌∷◌, ◌++◌,
  map, ltb, leb, take, drop, length, is_some, or_else, if◌then◌else◌, keep, ◌==◌, nat_eq, string_eq,
}
use algo_trading_broker.Cycles.{Chat}
use algo_trading_broker.Delivery.{ChatWrite, upsert_chat, truthy, Job, Outcome, Shown, deliver_all}
use algo_trading_broker.Backlog.{claim_pending_logs, finish_logs, defer_logs}
use algo_trading_broker.Cycles.{LogEntry}

-- `_chats_behind`.
unfoldable pub chats_behind : ℕ → List Chat → List Chat
unfolding keep
chats_behind seq chats = keep (λ c. is_some (truthy c.message_id) && ltb c.delivered_seq seq) chats

-- The rows of one cycle that a dispatch reads and writes.
pub record Board : Type 0 where
  pub logs : List LogEntry
  pub chats : List Chat
  pub last_broadcast_at : Option ℕ

-- The cycle as `load_cycle` reads it, its chats being those of the board.
pub record View : Type 0 where
  pub last_seq : ℕ
  pub event_count : ℕ

abbrev pub parked_write : ℕ → String → Chat → ChatWrite
parked_write event_count reason c = record {
  audience = c.audience;
  chat_id = c.chat_id;
  message_id = none;
  message = none;
  delivered_seq = none;
  notified_event_count = some event_count;
  last_error = some (str_append "parked: " reason);
}

unfoldable pub write_parked : (String → Bool) → ℕ → String → List Chat → List Chat → List Chat
unfolding upsert_chat
write_parked chat_up event_count reason [] chats = chats
write_parked chat_up event_count reason (c ∷ behind) chats =
    write_parked chat_up event_count reason behind
      (upsert_chat (chat_up c.chat_id) (parked_write event_count reason c) chats)

-- What `_dispatch_locked` finds besides the board. Each call of the repository has a session of
-- its own, so each has a flag: the claim, the finish or the deferral, the stamp, and the write of a
-- chat that is parked. `view` is `none` if the cycle is gone or cannot be read. A setting that
-- cannot be read is missing: `silent`, and the jobs that the targets and the rendered bodies make,
-- are what came out. `cut_after` is set when the delivery ends by an exception, a failed rendering
-- or a cancellation, after that many of the jobs: what was claimed then stays SENDING.
pub record Pass : Type 0 where
  pub claim_up : Bool
  pub settle_up : Bool
  pub mark_up : Bool
  pub chat_up : String → Bool
  pub cut_after : Option ℕ
  pub max_attempts : ℕ
  pub now : ℕ
  pub view : Option View
  pub silent : Bool
  pub jobs : List Job

abbrev pub park_behind : Pass → View → List ℕ → String → Board → List Chat → Board
park_behind p view ids reason b [] = record b {
  logs = finish_logs p.settle_up ids true none none p.now b.logs;
}
park_behind p view ids reason b (c ∷ behind) = record {
  logs = defer_logs p.settle_up ids reason p.now b.logs;
  chats = write_parked p.chat_up view.event_count reason (c ∷ behind) b.chats;
  last_broadcast_at = b.last_broadcast_at;
}

unfoldable pub park : Pass → View → List ℕ → String → Board → Board
unfolding finish_logs defer_logs write_parked chats_behind
park p view ids reason b = park_behind p view ids reason b (chats_behind view.last_seq b.chats)

-- The stamp of a pass that was pushed to the chats.
abbrev pub mark_broadcast : Bool → ℕ → Option ℕ → Option ℕ
mark_broadcast up now old = if up then some now else old

abbrev pub finish_pass : Pass → List ℕ → Board → Outcome → Board
finish_pass p ids b r = record {
  logs =
      finish_logs p.settle_up ids r.0 (if r.0 then none else some "delivery failed")
        (some p.max_attempts) p.now b.logs;
  chats = r.1.1;
  last_broadcast_at = mark_broadcast p.mark_up p.now b.last_broadcast_at;
}

abbrev pub run_jobs : Pass → List ℕ → Board → List Job → Option ℕ → Board × List Shown
run_jobs p ids b jobs none =
    let r = deliver_all jobs b.chats b.chats in (finish_pass p ids b r, r.1.0)
run_jobs p ids b jobs (some n) =
    let r = deliver_all (take n jobs) b.chats b.chats in (record b { chats = r.1.1 }, r.1.0)

abbrev pub dispatch_jobs : Pass → View → List ℕ → Board → List Job → Board × List Shown
dispatch_jobs p view ids b [] = (park p view ids "no broadcast chats configured" b, [])
dispatch_jobs p view ids b (job ∷ jobs) = run_jobs p ids b (job ∷ jobs) p.cut_after

abbrev pub dispatch_view : Pass → View → List ℕ → Board → Bool → Board × List Shown
dispatch_view p view ids b true = (park p view ids "silenced" b, [])
dispatch_view p view ids b false = dispatch_jobs p view ids b p.jobs

abbrev pub dispatch_claimed : Pass → List ℕ → Board → Option View → Board × List Shown
dispatch_claimed p ids b none =
    (record b { logs = finish_logs p.settle_up ids true none none p.now b.logs }, [])
dispatch_claimed p ids b (some view) = dispatch_view p view ids b p.silent

abbrev pub after_claim : Pass → Board → List ℕ → Board × List Shown
after_claim p b [] = (b, [])
after_claim p b (i ∷ ids) = dispatch_claimed p (i ∷ ids) b p.view

unfoldable pub dispatch_locked : Pass → Board → Board × List Shown
unfolding claim_pending_logs finish_logs park deliver_all
dispatch_locked p b =
    let claimed = claim_pending_logs p.claim_up p.max_attempts p.now b.logs in
    after_claim p (record b { logs = claimed.1 }) claimed.0
