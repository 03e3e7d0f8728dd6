-- ===== src/Delivery.antt =====
-- broker/services/broadcast_service.py: what one dispatch pass shows in the chats of one cycle and
-- what it writes down of it; with the chat rows and the write-log entries of
-- broker/db/repository/broadcast_message.py that a pass changes. A log entry is known by its seq,
-- which is unique in its cycle. Telegram is a parameter, its answers for one pass.
pub mod Chats
pub mod Passes
use algo_trading_broker.Prelude.{
  ℕ, suc, ◌-◌, ◌+◌, String, Bool, true, false, ◌&&◌, ◌||◌, Option, none, some, List, [], ◌∷◌, ◌++◌,
  map, ltb, leb, drop, length, is_some, or_else, if◌then◌else◌, keep, ◌==◌, nat_eq, string_eq,
}
use algo_trading_broker.Core.{BroadcastAudience, BroadcastLogStatus, is_pending, is_sending}
use algo_trading_broker.Cycles.{LogEntry, Chat}

-- The assignments of `upsert_chat`, with `none` where the caller passes None.
pub record ChatWrite : Type 0 where
  pub audience : BroadcastAudience
  pub chat_id : String
  pub message_id : Option String
  pub message : Option String
  pub delivered_seq : Option ℕ
  pub notified_event_count : Option ℕ
  pub last_error : Option String

abbrev pub keep_old : Option String → Option String → Option String
keep_old none old = old
keep_old (some v) old = some v

-- `if new is not None and new > (old or 0)`.
abbrev pub forward_seq : Option ℕ → ℕ → ℕ
forward_seq none old = old
forward_seq (some v) old = if ltb old v then v else old

abbrev pub forward_count : Option ℕ → Option ℕ → Option ℕ
forward_count none old = old
forward_count (some v) old = if ltb (or_else old 0) v then some v else old

abbrev pub new_chat : ChatWrite → Chat
new_chat w = record {
  audience = w.audience;
  chat_id = w.chat_id;
  message_id = w.message_id;
  message = w.message;
  delivered_seq = or_else w.delivered_seq 0;
  notified_event_count = w.notified_event_count;
  last_error = w.last_error;
}

abbrev pub update_chat : ChatWrite → Chat → Chat
update_chat w row = record row {
  audience = w.audience;
  message_id = keep_old w.message_id row.message_id;
  message = keep_old w.message row.message;
  delivered_seq = forward_seq w.delivered_seq row.delivered_seq;
  notified_event_count = forward_count w.notified_event_count row.notified_event_count;
  last_error = w.last_error;
}

unfoldable pub find_chat : String → List Chat → Option Chat
find_chat id [] = none
find_chat id (c ∷ chats) = let rest = find_chat id chats in if c.chat_id == id then some c else rest

unfoldable pub put_chat : ChatWrite → List Chat → List Chat
put_chat w [] = new_chat w ∷ []
put_chat w (c ∷ chats) =
    let rest = put_chat w chats in
    if c.chat_id == w.chat_id then update_chat w c ∷ chats else c ∷ rest

unfoldable pub upsert_chat : Bool → ChatWrite → List Chat → List Chat
upsert_chat up w chats = if up then put_chat w chats else chats

pub data EditOutcome : Type 0 where
  ok missing failed : EditOutcome

pub data SendOutcome : Type 0 where
  ok failed unknown : SendOutcome

-- What Telegram answers in one pass: to the edit of a message, to a new message, and to the reply
-- that carries the notice of an event.
pub record Telegram : Type 0 where
  pub edit_message : String → String → String → EditOutcome
  pub send_message : String → String → SendOutcome × Option String
  pub reply_message : String → String → ℕ → String → Bool

-- What readers of a chat see: a message rewritten, a message that is or may be new, a notice.
pub data Shown : Type 0 where
  edited posted : String → Shown
  replied : ℕ → Shown

-- `for index in range(already_notified, len(notices))`, where `sent` is the index that comes next.
unfoldable pub notify_loop : (ℕ → String → Bool) → ℕ → List (Option String) → ℕ × List Shown
notify_loop reply sent [] = (sent, [])
notify_loop reply sent (none ∷ notices) = notify_loop reply (suc sent) notices
notify_loop reply sent (some notice ∷ notices) =
    let rest = notify_loop reply (suc sent) notices in
    if reply sent notice then (rest.0, Shown.replied sent ∷ rest.1) else (sent, [])

unfoldable pub notify_updates :
    (ℕ → String → Bool) → List (Option String) → Option ℕ → Bool → ℕ × List Shown
unfolding notify_loop
notify_updates reply notices none enabled = (length notices, [])
notify_updates reply notices (some already) enabled =
    if enabled then notify_loop reply already (drop already notices) else (length notices, [])

-- The arguments of `_deliver` that stay the same while it runs.
pub record Job : Type 0 where
  pub up : Bool
  pub telegram : Telegram
  pub audience : BroadcastAudience
  pub chat_id : String
  pub text : String
  pub seq : ℕ
  pub notices : List (Option String)
  pub notify_enabled : Bool

-- The answer of a pass, what it showed, and the chat rows that it leaves.
abbrev pub Outcome : Type 0
Outcome = Bool × (List Shown × List Chat)

abbrev pub failed_write : Job → String → ChatWrite
failed_write job error = record {
  audience = job.audience;
  chat_id = job.chat_id;
  message_id = none;
  message = none;
  delivered_seq = none;
  notified_event_count = none;
  last_error = some error;
}

abbrev pub shown_write : Job → Option String → ℕ → Option String → ChatWrite
shown_write job message_id count error = record {
  audience = job.audience;
  chat_id = job.chat_id;
  message_id = message_id;
  message = some job.text;
  delivered_seq = some job.seq;
  notified_event_count = some count;
  last_error = error;
}

-- What a send may leave in the chat: an answer that never came counts as a post.
abbrev pub posts : SendOutcome → String → List Shown
posts SendOutcome.ok text = Shown.posted text ∷ []
posts SendOutcome.unknown text = Shown.posted text ∷ []
posts SendOutcome.failed text = []

abbrev pub after_send : Job → SendOutcome → Option String → List Chat → Bool × List Chat
after_send job SendOutcome.unknown id chats = (
  false,
  upsert_chat job.up (shown_write job none (length job.notices) (some "send outcome unknown"))
      chats,
)
after_send job _ none chats = (false, upsert_chat job.up (failed_write job "send failed") chats)
after_send job _ (some id) chats =
    (true, upsert_chat job.up (shown_write job (some id) (length job.notices) none) chats)

unfoldable pub send_new : Job → List Chat → Outcome
unfolding upsert_chat
send_new job chats =
    let sent = job.telegram.send_message job.chat_id job.text in
    let after = after_send job sent.0 sent.1 chats in (after.0, (posts sent.0 job.text, after.1))

abbrev pub notified_count : Option Chat → Option ℕ
notified_count none = none
notified_count (some c) = c.notified_event_count

unfoldable pub edit_old : Job → String → Option Chat → List Chat → Outcome
unfolding notify_updates upsert_chat send_new
edit_old job id existing chats =
    let told =
      notify_updates (job.telegram.reply_message job.chat_id id) job.notices
        (notified_count existing) job.notify_enabled in
    elim (job.telegram.edit_message job.chat_id id job.text) [
      | EditOutcome.ok ↦ (
        true,
        (
          Shown.edited job.text ∷ told.1,
          upsert_chat job.up (shown_write job (some id) told.0 none) chats,
        ),
      )
      | EditOutcome.failed ↦
          (false, ([], upsert_chat job.up (failed_write job "edit failed") chats))
      | EditOutcome.missing ↦ send_new job chats
    ]

abbrev pub is_shown : ℕ → Option Chat → Bool
is_shown seq none = false
is_shown seq (some c) = leb seq c.delivered_seq

-- A message id that is empty counts as none.
abbrev pub truthy : Option String → Option String
truthy none = none
truthy (some s) = if s == "" then none else some s

abbrev pub stored_id : Option Chat → Option String
stored_id none = none
stored_id (some c) = truthy c.message_id

-- `_deliver`, where `existing` is the chat's row as the pass read it.
unfoldable pub deliver : Job → (existing : Option Chat) → List Chat → Outcome
unfolding edit_old send_new
deliver job existing chats =
    if is_shown job.seq existing then (true, ([], chats)) else elim (stored_id existing) [
      | none ↦ send_new job chats
      | some id ↦ edit_old job id existing chats
    ]

-- `_deliver_all`: one job for each target, each with the row that the view holds of its chat.
unfoldable pub deliver_all : List Job → (view : List Chat) → List Chat → Outcome
unfolding deliver find_chat
deliver_all [] view chats = (true, ([], chats))
deliver_all (job ∷ jobs) view chats =
    let first = deliver job (find_chat job.chat_id view) chats in
    let rest = deliver_all jobs view first.1.1 in
    (first.0 && rest.0, (first.1.0 ++ rest.1.0, rest.1.1))
