-- ===== src/Backlog.antt =====
-- broker/db/repository/broadcast_message.py, the dispatcher's side: the write log of one cycle, whose
-- entries a pass claims, finishes or defers and the sweeper reclaims. An entry is known by its seq,
-- which is unique in its cycle; times are seconds.
pub mod Attempts
use algo_trading_broker.Prelude.{
  ℕ, suc, ◌-◌, ◌+◌, String, Bool, true, false, ◌&&◌, ◌||◌, Option, none, some, List, [], ◌∷◌, ◌++◌,
  map, ltb, leb, drop, length, is_some, or_else, if◌then◌else◌, keep, ◌==◌, nat_eq, string_eq,
}
use algo_trading_broker.Core.{BroadcastLogStatus, is_pending, is_sending}
use algo_trading_broker.Cycles.{LogEntry}

-- `claim_pending_logs`: the entries of a cycle that it takes, and the log it leaves.
abbrev pub is_claimable : ℕ → LogEntry → Bool
is_claimable max_attempts l = is_pending l.status && ltb l.attempts max_attempts

abbrev pub claim_entry : ℕ → ℕ → LogEntry → LogEntry
claim_entry max_attempts now l =
    if is_claimable max_attempts l
    then record l {
      status = BroadcastLogStatus.sending;
      attempts = l.attempts + 1;
      updated_at = now;
    }
    else l

unfoldable pub claim_pending_logs :
    (up : Bool) (max_attempts now : ℕ) → List LogEntry → List ℕ × List LogEntry
unfolding keep
claim_pending_logs up max_attempts now logs =
    if up
    then (
      map (λ l. l.seq) (keep (is_claimable max_attempts) logs),
      map (claim_entry max_attempts now) logs,
    )
    else ([], logs)

abbrev pub in_ids : ℕ → List ℕ → Bool
in_ids n [] = false
in_ids n (i ∷ ids) = i == n || in_ids n ids

-- `(error or "")[:255] or None`, where no message of the program is longer.
abbrev pub finish_entry : Bool → Option String → Option ℕ → ℕ → LogEntry → LogEntry
finish_entry true error max_attempts now l = record l {
  status = BroadcastLogStatus.delivered;
  last_error = none;
  updated_at = now;
}
finish_entry false error none now l = record l {
  status = BroadcastLogStatus.pending;
  last_error = error;
  updated_at = now;
}
finish_entry false error (some max_attempts) now l = record l {
  status =
      if leb max_attempts l.attempts then BroadcastLogStatus.failed else BroadcastLogStatus.pending;
  last_error = error;
  updated_at = now;
}

abbrev pub defer_entry : String → ℕ → LogEntry → LogEntry
defer_entry reason now l = record l {
  status = BroadcastLogStatus.pending;
  attempts = l.attempts - 1;
  last_error = some reason;
  updated_at = now;
}

-- The assignments to the rows whose id is one of `ids`.
unfoldable pub on_ids : List ℕ → (LogEntry → LogEntry) → List LogEntry → List LogEntry
on_ids ids f = map (λ l. if in_ids l.seq ids then f l else l)

unfoldable pub finish_logs :
    (up : Bool)
    → List ℕ
    → (delivered : Bool) (error : Option String) (max_attempts : Option ℕ) (now : ℕ) → List LogEntry
    → List LogEntry
unfolding on_ids
finish_logs up ids delivered error max_attempts now logs =
    if up then on_ids ids (finish_entry delivered error max_attempts now) logs else logs

unfoldable pub defer_logs :
    (up : Bool) → List ℕ → (reason : String) (now : ℕ) → List LogEntry → List LogEntry
unfolding on_ids
defer_logs up ids reason now logs = if up then on_ids ids (defer_entry reason now) logs else logs

abbrev pub reclaim_entry : ℕ → ℕ → LogEntry → LogEntry
reclaim_entry threshold now l =
    if is_sending l.status && ltb l.updated_at threshold
    then record l { status = BroadcastLogStatus.pending; updated_at = now }
    else l

unfoldable pub reclaim_stale_logs :
    (up : Bool) (stale_after_seconds now : ℕ) → List LogEntry → List LogEntry
reclaim_stale_logs up stale_after_seconds now logs =
    if up then map (reclaim_entry (now - stale_after_seconds) now) logs else logs
