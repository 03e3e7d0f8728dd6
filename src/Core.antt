-- ===== src/Core.antt =====
-- broker/schemas/core.py: the enums that every component shares, as data types with their values.
use algo_trading_broker.Prelude.{ℕ, String, ◌≡◌, ◌↔◌, Bool, true, false, arith, Equality}

pub data SignalAction : Type 0 where
  long short tp1 tp2 r_sl sl flat : SignalAction

pub data BotPlatform : Type 0 where
  telegram : BotPlatform

pub data BroadcastAudience : Type 0 where
  private public : BroadcastAudience

pub data BroadcastStatus : Type 0 where
  running tp1 closed : BroadcastStatus

pub data BroadcastLogKind : Type 0 where
  signal execution : BroadcastLogKind

pub data BroadcastLogStatus : Type 0 where
  pending sending delivered failed : BroadcastLogStatus

pub data SignalStatus : Type 0 where
  queued published failed : SignalStatus

-- An id as text: that of a UUID, or a text that `uuid.UUID` refuses.
pub data IdText : Type 0 where
  uuid : ℕ → IdText
  malformed : String → IdText

-- The text that an action travels as.
unfoldable pub action_value : SignalAction → String
action_value SignalAction.long = "LONG"
action_value SignalAction.short = "SHORT"
action_value SignalAction.tp1 = "TP1"
action_value SignalAction.tp2 = "TP2"
action_value SignalAction.r_sl = "R_SL"
action_value SignalAction.sl = "SL"
action_value SignalAction.flat = "FLAT"

abbrev pub action_beq : SignalAction → SignalAction → Bool
action_beq SignalAction.long SignalAction.long = true
action_beq SignalAction.short SignalAction.short = true
action_beq SignalAction.tp1 SignalAction.tp1 = true
action_beq SignalAction.tp2 SignalAction.tp2 = true
action_beq SignalAction.r_sl SignalAction.r_sl = true
action_beq SignalAction.sl SignalAction.sl = true
action_beq SignalAction.flat SignalAction.flat = true
action_beq _ _ = false

pub action_beq_iff : (a b : SignalAction) → (action_beq a b ≡ true) ↔ (a ≡ b)
action_beq_iff a b = ground arith

instance abbrev pub action_eq : Equality SignalAction
action_eq = record { same = action_beq; decides = action_beq_iff }

abbrev pub is_queued : SignalStatus → Bool
is_queued SignalStatus.queued = true
is_queued _ = false

abbrev pub is_pending : BroadcastLogStatus → Bool
is_pending BroadcastLogStatus.pending = true
is_pending _ = false

abbrev pub is_sending : BroadcastLogStatus → Bool
is_sending BroadcastLogStatus.sending = true
is_sending _ = false
