-- ===== src/Cycle.antt =====
-- broker/domain/broadcast_status.py: which actions end a cycle, which take part of it off, and how
-- the stored status of a cycle merges with the status that a new action implies.
pub mod Order
use mathlib.Core.List.{foldl}
use algo_trading_broker.Prelude.{
  ℕ, String, Bool, true, false, List, ltb, if◌then◌else◌, ◌==◌, string_eq,
}
use algo_trading_broker.Core.{SignalAction, BroadcastStatus}

abbrev pub closing_actions : SignalAction → Bool
closing_actions SignalAction.tp2 = true
closing_actions SignalAction.sl = true
closing_actions SignalAction.r_sl = true
closing_actions SignalAction.flat = true
closing_actions _ = false

abbrev pub partial_actions : SignalAction → Bool
partial_actions SignalAction.tp1 = true
partial_actions _ = false

abbrev pub status_order : BroadcastStatus → ℕ
status_order BroadcastStatus.running = 0
status_order BroadcastStatus.tp1 = 1
status_order BroadcastStatus.closed = 2

-- A stored status is the enum member, or the bare text that a fake or an older revision wrote.
pub data StoredStatus : Type 0 where
  member : BroadcastStatus → StoredStatus
  text : String → StoredStatus

-- A text that is no member reads as a cycle that has not moved yet.
unfoldable pub as_status : StoredStatus → BroadcastStatus
as_status (StoredStatus.member s) = s
as_status (StoredStatus.text v) =
    if v == "RUNNING"
    then BroadcastStatus.running
    else if v == "TP1"
    then BroadcastStatus.tp1
    else if v == "CLOSED"
    then BroadcastStatus.closed
    else BroadcastStatus.running

unfoldable pub status_for_action : SignalAction → BroadcastStatus
status_for_action action =
    if closing_actions action
    then BroadcastStatus.closed
    else if partial_actions action
    then BroadcastStatus.tp1
    else BroadcastStatus.running

unfoldable pub merge_status : StoredStatus → StoredStatus → BroadcastStatus
unfolding as_status
merge_status current incoming =
    let current_status = as_status current in
    let incoming_status = as_status incoming in
    if ltb (status_order incoming_status) (status_order current_status)
    then current_status
    else incoming_status

-- The merge of two members, which is how the repository calls it.
abbrev pub merge : BroadcastStatus → BroadcastStatus → BroadcastStatus
merge s t = merge_status (StoredStatus.member s) (StoredStatus.member t)

-- The status of a cycle that opened at `s` and then took `actions`, oldest first.
abbrev pub merge_actions : BroadcastStatus → List SignalAction → BroadcastStatus
merge_actions s actions = foldl (λ t action. merge t (status_for_action action)) s actions
