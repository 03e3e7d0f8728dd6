-- ===== src/Examples/Showing.antt =====
-- Cycles, chats and dispatch passes on concrete rows.
use algo_trading_broker.Prelude.{
  ℕ, ◌≡◌, ◌≢◌, refl, ◌↔◌, true, false, none, some, List, [], ◌∷◌, ◌++◌, map, arith, All, ltb,
  if◌then◌else◌,
}
use algo_trading_broker.Prelude.Texts.{codes, join}
use algo_trading_broker.Core.{
  SignalAction, BroadcastAudience, BroadcastStatus, BroadcastLogKind, BroadcastLogStatus,
}
use algo_trading_broker.Cycle.{status_for_action, merge_status}
use algo_trading_broker.Cycle.Order.{any_closing}
use algo_trading_broker.Cycles.{
  BroadcastEvent, LogEntry, Chat, Cycle, CycleKey, Execution, build_broadcast_event, new_cycle,
  log_entry, record_event, record_worker_execution,
}
use algo_trading_broker.Cycles.Writing.{
  Recorded, Followed, record_event-Recorded, record_event-replay,
}
use algo_trading_broker.Cycles.Consistent.{
  IsCycle, actions_of, record_event-IsCycle, record_worker_execution-IsCycle, closed-iff_closing,
}
use algo_trading_broker.Delivery.{
  find_chat, upsert_chat, EditOutcome, SendOutcome, Telegram, Job, failed_write, deliver, send_new,
}
use algo_trading_broker.Delivery.Chats.{Forward, body_after, upsert_chat-Forward}
use algo_trading_broker.Delivery.Passes.{Noticed, deliver-once, deliver-Noticed}
use algo_trading_broker.Backlog.Attempts.{
  Bounded, failed_passes, failed_passes-exhaust, parked_pass,
}
use algo_trading_broker.Dispatch.{Board, View, Pass, chats_behind, dispatch_locked}
use algo_trading_broker.Dispatch.Outcomes.{dispatch_locked-Bounded, dispatch_locked-silent}
use algo_trading_broker.Examples.{long_payload}

abbrev long_event : BroadcastEvent
long_event = build_broadcast_event long_payload none

abbrev btc_key : CycleKey
btc_key = record {
  symbol = codes "BTCUSDT";
  strategy = "trend";
  signal_uxid = codes "0123456789ABCDEF";
}

-- Another transaction opens the cycle just before the first insert.
abbrev racing : ℕ → List Cycle → List Cycle
racing n rows = rows ++ new_cycle btc_key none long_event 5 ∷ []

record_event-Recorded_example :
    Recorded btc_key long_event (record_event true racing btc_key (some "15") long_event 6 [])
record_event-Recorded_example = record_event-Recorded racing btc_key (some "15") long_event 6 []

abbrev later_event : BroadcastEvent
later_event = record long_event { timestamp = "2" }

record_event-replay_example :
    (record_event true racing btc_key none long_event 9
        (record_event true racing btc_key (some "15") long_event 6 []).0
      ≡ record_event true racing btc_key (some "15") long_event 6 [])
    × Followed btc_key long_event later_event
        (record_event true racing btc_key (some "15") long_event 6 []).0
        (record_event true racing btc_key none later_event 9
          (record_event true racing btc_key (some "15") long_event 6 []).0).0
record_event-replay_example =
    record_event-replay racing racing btc_key (some "15") none long_event later_event 6 9 []

abbrev calm : ℕ → List Cycle → List Cycle
calm n rows = rows

calm-IsCycle : (n : ℕ) (rows : List Cycle) → All IsCycle rows → All IsCycle (calm n rows)
calm-IsCycle n rows h = h

record_event-IsCycle_example :
    All IsCycle (record_event true calm btc_key (some "15") long_event 6 []).0
record_event-IsCycle_example =
    record_event-IsCycle true calm calm-IsCycle btc_key (some "15") long_event 6 [] tt

abbrev filled : Execution
filled = record {
  worker_id = "w1";
  status = "OPENED";
  action = some "LONG";
  reject_reason = none;
  gateway = none;
}

record_worker_execution-IsCycle_example :
    All IsCycle
      (record_worker_execution true btc_key filled 7
        (record_event true calm btc_key (some "15") long_event 6 []).0).0
record_worker_execution-IsCycle_example =
    record_worker_execution-IsCycle true btc_key filled 7
      (record_event true calm btc_key (some "15") long_event 6 []).0
      (record_event-IsCycle true calm calm-IsCycle btc_key (some "15") long_event 6 [] tt)

abbrev stopped_cycle : Cycle
stopped_cycle = new_cycle btc_key none (record long_event { action = SignalAction.sl }) 5

stopped_cycle-IsCycle : IsCycle stopped_cycle
unfolding new_cycle log_entry join status_for_action merge_status
stopped_cycle-IsCycle = record {
  numbered = (refl, tt);
  counted = refl;
  merged = refl;
  listed = refl;
  latest = refl;
}

closed-iff_closing_example :
    (stopped_cycle.status ≡ BroadcastStatus.closed)
    ↔ (any_closing (actions_of stopped_cycle.events) ≡ true)
closed-iff_closing_example = closed-iff_closing stopped_cycle stopped_cycle-IsCycle

-- Telegram posts the message but its answer to the send is lost.
abbrev silent_telegram : Telegram
silent_telegram = record {
  edit_message = λ chat id text. EditOutcome.ok;
  send_message = λ chat text. (SendOutcome.unknown, none);
  reply_message = λ chat id index notice. true;
}

abbrev first_job : Job
first_job = record {
  up = true;
  telegram = silent_telegram;
  audience = BroadcastAudience.private;
  chat_id = "-100";
  text = "BTCUSDT";
  seq = 1;
  notices = some "LONG" ∷ [];
  notify_enabled = true;
}

first_job-shown : (deliver first_job none []).1.0 ≢ []
unfolding deliver send_new
first_job-shown e = cc

deliver-once_example :
    deliver first_job
      (find_chat "-100" (deliver first_job none []).1.1)
      (deliver first_job none []).1.1
    ≡ (true, ([], (deliver first_job none []).1.1))
deliver-once_example =
    deliver-once first_job first_job none [] refl (λ o. cc) refl (omega arith) first_job-shown

abbrev old_chat : Chat
old_chat = record {
  audience = BroadcastAudience.private;
  chat_id = "-100";
  message_id = some "42";
  message = some "BTCUSDT";
  delivered_seq = 1;
  notified_event_count = some 1;
  last_error = none;
}

abbrev second_job : Job
second_job = record first_job { seq = 3; notices = some "LONG" ∷ some "TP1" ∷ [] }

old_chat-found : find_chat "-100" (old_chat ∷ []) ≡ some old_chat
unfolding find_chat
old_chat-found = refl

deliver-Noticed_example :
    Noticed second_job (some old_chat) (deliver second_job (some old_chat) (old_chat ∷ []))
deliver-Noticed_example = deliver-Noticed second_job old_chat (old_chat ∷ []) refl old_chat-found

upsert_chat-Forward_example :
    (c' : Chat) × (find_chat "-100"
        (upsert_chat true (failed_write second_job "edit failed") (old_chat ∷ []))
      ≡ some c')
    × Forward old_chat c'
    × (c'.message ≡ body_after true (failed_write second_job "edit failed") "-100" old_chat)
upsert_chat-Forward_example =
    upsert_chat-Forward true (failed_write second_job "edit failed") "-100" (old_chat ∷ []) old_chat
      old_chat-found

abbrev fresh_entry : LogEntry
fresh_entry = record {
  seq = 1;
  kind = BroadcastLogKind.signal;
  status = BroadcastLogStatus.pending;
  attempts = 0;
  last_error = none;
  updated_at = 5;
}

abbrev two_entries : List LogEntry
two_entries = fresh_entry ∷ record fresh_entry { seq = 2; attempts = 3 } ∷ []

failed_passes-exhaust_example :
    (failed_passes 3 3 (some "delivery failed") 9 fresh_entry).status
    ≡ (if ltb 3 3 then BroadcastLogStatus.pending else BroadcastLogStatus.failed)
failed_passes-exhaust_example =
    failed_passes-exhaust 3 9 (some "delivery failed") 2 fresh_entry refl (omega arith)

abbrev board : Board
board = record { logs = two_entries; chats = old_chat ∷ []; last_broadcast_at = none }

abbrev two_events : View
two_events = record { last_seq = 2; event_count = 2 }

abbrev silenced : Pass
silenced = record {
  claim_up = true;
  settle_up = true;
  mark_up = false;
  chat_up = λ chat. true;
  cut_after = none;
  max_attempts = 3;
  now = 9;
  view = some two_events;
  silent = true;
  jobs = second_job ∷ [];
}

dispatch_locked-Bounded_example :
    Bounded silenced.max_attempts (dispatch_locked silenced board).0.logs
dispatch_locked-Bounded_example =
    dispatch_locked-Bounded silenced board (omega arith, (omega arith, tt))

old_chat-behind : chats_behind two_events.last_seq board.chats ≡ old_chat ∷ []
unfolding chats_behind
old_chat-behind = refl

dispatch_locked-silent_example :
    ((dispatch_locked silenced board).1 ≡ [])
    × ((dispatch_locked silenced board).0.logs
        ≡ map (parked_pass silenced.max_attempts "silenced" silenced.now) board.logs)
dispatch_locked-silent_example =
    dispatch_locked-silent silenced board two_events old_chat [] refl refl refl refl old_chat-behind
      (refl, (refl, tt))
