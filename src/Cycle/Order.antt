-- ===== src/Cycle/Order.antt =====
-- The merge of statuses, the order of statuses, and sequences of actions.
use mathlib.Core.Path.{ap₂}
use mathlib.Core.Logic.{∥∥₁_elim}
use mathlib.Core.List.{Perm, Permᴰ}
use algo_trading_broker.Prelude.{
  max, ◌≤◌, ◌≡◌, refl, ap, ◌∙◌, ◌↔◌, ◌⊎◌, Bool, true, false, ◌||◌, List, [], ◌∷◌, arith,
}
use algo_trading_broker.Core.{SignalAction, BroadcastStatus}
use algo_trading_broker.Cycle.{
  StoredStatus, closing_actions, status_order, as_status, status_for_action, merge_status, merge,
  merge_actions,
}

pub status_order-injective : (s t : BroadcastStatus) → status_order s ≡ status_order t → s ≡ t
status_order-injective s t h = ground arith

pub status_order-merge :
    (s t : BroadcastStatus) → status_order (merge s t) ≡ max (status_order s) (status_order t)
unfolding merge_status
status_order-merge s t = ground arith

pub merge_swap : (s t u : BroadcastStatus) → merge (merge s t) u ≡ merge (merge s u) t
merge_swap s t u = status_order-injective _ _ (
    omega (
      arith,
      status_order-merge s t,
      status_order-merge s u,
      status_order-merge (merge s t) u,
      status_order-merge (merge s u) t,
    ))

abbrev pub any_closing : List SignalAction → Bool
any_closing [] = false
any_closing (a ∷ as') = closing_actions a || any_closing as'

-- A status never moves back, whatever is stored and whatever arrives; texts that are no member
-- included.
pub merge_status-forward :
    (current incoming : StoredStatus)
    → (status_order (as_status current) ≤ status_order (merge_status current incoming))
      × (status_order (as_status incoming) ≤ status_order (merge_status current incoming))
unfolding merge_status
merge_status-forward current incoming = ground arith

merge-closed : (t : BroadcastStatus) → merge BroadcastStatus.closed t ≡ BroadcastStatus.closed
unfolding merge_status
merge-closed t = ground arith

merge_actions-closed :
    (as' : List SignalAction) → merge_actions BroadcastStatus.closed as' ≡ BroadcastStatus.closed
merge_actions-closed [] = refl
merge_actions-closed (a ∷ as') =
    ap (λ t. merge_actions t as') (merge-closed (status_for_action a)) ∙ merge_actions-closed as'

merge-closed_only :
    (s t : BroadcastStatus)
    → (merge s t ≡ BroadcastStatus.closed)
      ↔ ((s ≡ BroadcastStatus.closed) ⊎ (t ≡ BroadcastStatus.closed))
unfolding merge_status
merge-closed_only s t = ground arith

status_for_action-closed :
    (a : SignalAction) → (status_for_action a ≡ BroadcastStatus.closed) ↔ (closing_actions a ≡ true)
unfolding status_for_action
status_for_action-closed a = ground arith

-- The cycle is closed exactly when it opened closed or took a closing action.
pub merge_actions-closed_iff :
    (s : BroadcastStatus) (as' : List SignalAction)
    → (merge_actions s as' ≡ BroadcastStatus.closed)
      ↔ ((s ≡ BroadcastStatus.closed) ⊎ (any_closing as' ≡ true))
merge_actions-closed_iff s [] = ground arith
merge_actions-closed_iff s (a ∷ as') = ground (
  arith,
  merge_actions-closed_iff (merge s (status_for_action a)) as',
  merge-closed_only s (status_for_action a),
  status_for_action-closed a,
)

merge_actions-permᴰ :
    (s : BroadcastStatus) {as' bs : List SignalAction}
    → Permᴰ as' bs
    → merge_actions s as' ≡ merge_actions s bs
merge_actions-permᴰ s Permᴰ.nil = refl
merge_actions-permᴰ s (Permᴰ.cons {a} {b} {l₁} {l₂} e p) =
    ap (λ c. merge_actions (merge s (status_for_action c)) l₁) e
    ∙ merge_actions-permᴰ (merge s (status_for_action b)) p
merge_actions-permᴰ s (Permᴰ.swap {a} {b} {a'} {b'} {l} e f) =
    ap₂ (λ c d. merge_actions (merge (merge s (status_for_action c)) (status_for_action d)) l) e f
    ∙ ap (λ t. merge_actions t l) (merge_swap s (status_for_action b') (status_for_action a'))
merge_actions-permᴰ s (Permᴰ.trans p q) = merge_actions-permᴰ s p ∙ merge_actions-permᴰ s q

BroadcastStatus-set : IsSet BroadcastStatus
BroadcastStatus-set = hlevel

-- The status of a cycle does not depend on the order in which its actions arrive.
pub merge_actions-perm :
    (s : BroadcastStatus) (as' bs : List SignalAction)
    → Perm as' bs
    → merge_actions s as' ≡ merge_actions s bs
merge_actions-perm s as' bs p = ∥∥₁_elim p (BroadcastStatus-set _ _) (λ q. merge_actions-permᴰ s q)
