-- ===== src/Examples/Values.antt =====
-- The pure rules on concrete values.
use mathlib.Core.List.Perm
use algo_trading_broker.Prelude.{
  suc, ◌+◌, ltb, if◌then◌else◌, length, All, ℕ, ◌≤◌, ◌<◌, ◌≡◌, refl, ◌↔◌, true, none, some, [], ◌∷◌,
  arith, List,
}
use algo_trading_broker.Prelude.Texts.{Text, codes}
use algo_trading_broker.Core.{SignalAction, BroadcastStatus}
use algo_trading_broker.Prelude.Ints.{pos}
use algo_trading_broker.Paging.Walk.{walk, joined, walk_complete}
use algo_trading_broker.Cycle.{StoredStatus, status_order, as_status, merge_status, merge_actions}
use algo_trading_broker.Cycle.Order.{merge_status-forward, merge_actions-perm}
use algo_trading_broker.Processing.{attempt_number_for_notification}
use algo_trading_broker.Processing.Retries.{attempt_number-iff_three}
use algo_trading_broker.Webhook.{is_hex, all_hex, is_valid_uxid, fill_or_validate_uxid}
use algo_trading_broker.Webhook.Uxid.{fill_or_validate_uxid-stable}
use algo_trading_broker.Prelude.Texts.{strip, lstrip, rstrip, upper, is_space, upper_char}
use algo_trading_broker.Examples.{three_attempts}

merge_status-forward_example :
    (2
      ≤ status_order
          (merge_status (StoredStatus.member BroadcastStatus.closed) (StoredStatus.text "OPENED")))
    × (status_order (as_status (StoredStatus.text "OPENED"))
        ≤ status_order (
            merge_status (StoredStatus.member BroadcastStatus.closed) (StoredStatus.text "OPENED")))
unfolding as_status
merge_status-forward_example =
    merge_status-forward (StoredStatus.member BroadcastStatus.closed) (StoredStatus.text "OPENED")

merge_actions-perm_example :
    merge_actions BroadcastStatus.running (SignalAction.sl ∷ SignalAction.tp1 ∷ [])
    ≡ merge_actions BroadcastStatus.running (SignalAction.tp1 ∷ SignalAction.sl ∷ [])
merge_actions-perm_example =
    merge_actions-perm BroadcastStatus.running (SignalAction.sl ∷ SignalAction.tp1 ∷ [])
      (SignalAction.tp1 ∷ SignalAction.sl ∷ []) (Perm.swap SignalAction.tp1 SignalAction.sl [])

attempt_number-iff_three_example :
    ((before k : ℕ)
      → before + k ≡ suc three_attempts.max_attempts
      → attempt_number_for_notification before three_attempts.max_attempts
        ≡ (if ltb 2 before then none else some k))
    × (((before : ℕ)
          → 0 < before
          → before ≤ three_attempts.max_attempts
          → (attempt_number_for_notification before three_attempts.max_attempts ≡ none)
            ↔ (before ≡ three_attempts.max_attempts))
        ↔ (three_attempts.max_attempts ≡ 3))
attempt_number-iff_three_example =
    attempt_number-iff_three three_attempts.max_attempts (omega arith)

abbrev fresh_uxid : Text
fresh_uxid = codes "0123456789ABCDEF"

abbrev lower_uxid : Text
lower_uxid = codes " fedcba9876543210 "

abbrev upper_uxid : Text
upper_uxid = codes "FEDCBA9876543210"

fresh_uxid-valid : is_valid_uxid fresh_uxid ≡ true
unfolding is_valid_uxid all_hex is_hex
fresh_uxid-valid = refl

lower_uxid-filled : fill_or_validate_uxid fresh_uxid (some lower_uxid) ≡ some upper_uxid
unfolding fill_or_validate_uxid is_valid_uxid all_hex is_hex strip lstrip rstrip is_space upper
    upper_char
lower_uxid-filled = refl

fill_or_validate_uxid-stable_example :
    (is_valid_uxid upper_uxid ≡ true)
    × (fill_or_validate_uxid fresh_uxid (some upper_uxid) ≡ some upper_uxid)
fill_or_validate_uxid-stable_example =
    fill_or_validate_uxid-stable fresh_uxid fresh_uxid (some lower_uxid) upper_uxid fresh_uxid-valid
      lower_uxid-filled

abbrev three_items : List ℕ
three_items = 1 ∷ 2 ∷ 3 ∷ []

walk_complete_example :
    (joined (walk three_items (pos 2) 4 0) ≡ three_items)
    × All (λ page. length page ≤ 2) (walk three_items (pos 2) 4 0)
walk_complete_example = walk_complete three_items (pos 2)
