-- ===== src/Accounts/Active.antt =====
-- Which account a user drives.
use algo_trading_broker.Prelude.{
  ℕ, ◌≡◌, ◌↔◌, refl, sym, ap, ◌∙◌, Bool, true, false, ◌&&◌, Option, none, some, arith, is_some,
  Option-cases, ◌==◌, nat_eq, option_eq, inl, inr, beq_refl,
}
use algo_trading_broker.Prelude.Finds.{any, find, head?, any-holds, is_some-find, find-holds}
use algo_trading_broker.Accounts.{
  Account, Registry, linked, active_of, point_session, held_by, list_by_telegram_user_id,
}
use algo_trading_broker.Accounts.Operations.{set_sessions, fallback, pointed, get_active_account}
use algo_trading_broker.Accounts.Lookups.{active_of-point}
use algo_trading_broker.Accounts.Held.{
  holds_any, is_own, held_by-found, held_by-linked, held_by-none, held_by-some,
}

pointed-own :
    (u : ℕ) (r : Registry) (a : Account)
    → pointed u r ≡ some a
    → (linked a.id u r.links ≡ true) × (holds_any u r ≡ true)
unfolding pointed
pointed-own u r a h = elim (Option-cases (active_of u r.sessions)) [
  | inl e ↦ absurd (cc (rw (e, pointed) at h))
  | inr (i, e) ↦
      let own = λ (b : Account). b.id == i && linked b.id u r.links in
      let found : find own r.accounts ≡ some a = rw (e, pointed) at h in
      (
        ground (arith, find-holds own r.accounts a found),
        any-holds own (λ b. linked b.id u r.links) (λ b k. ground (arith, k)) r.accounts
            (sym (is_some-find own r.accounts) ∙ ap is_some found),
      )
]

-- What the call answers when its reads succeed.
best_account : ℕ → Registry → Option Account
best_account u r = elim (pointed u r) [ none ↦ head? (held_by u r) | some a ↦ some a ]

fallback-answer :
    (healed : Bool) (u : ℕ) (found : Option Account) (r : Registry)
    → (fallback healed u found r).0 ≡ found
unfolding fallback
fallback-answer healed u none r = refl
fallback-answer healed u (some a) r = refl

get_active-answer :
    (healed : Bool) (u : ℕ) (r : Registry)
    → (get_active_account true true healed u r).0 ≡ best_account u r
unfolding get_active_account list_by_telegram_user_id best_account
get_active-answer healed u r = elim (Option-cases (pointed u r)) [
  | inl e ↦
      rw (e, get_active_account, best_account) (fallback-answer healed u (head? (held_by u r)) r)
  | inr (a, e) ↦ rw (e, get_active_account, best_account) refl
]

best_account-own :
    (u : ℕ) (r : Registry) (a : Account)
    → best_account u r ≡ some a
    → (linked a.id u r.links ≡ true) × (holds_any u r ≡ true)
unfolding best_account
best_account-own u r a h = elim (Option-cases (pointed u r)) [
  | inl e ↦
      let first : head? (held_by u r) ≡ some a = rw (e, best_account) at h in
      (held_by-linked u r a first, held_by-some u r a first)
  | inr (b, e) ↦
      let same : some b ≡ some a = rw (e, best_account) at h in pointed-own u r a (e ∙ same)
]

best_account-none : (u : ℕ) (r : Registry) → best_account u r ≡ none → holds_any u r ≡ false
unfolding best_account
best_account-none u r h = elim (Option-cases (pointed u r)) [
  | inl e ↦ held_by-none u r (rw (e, best_account) at h)
  | inr (b, e) ↦ absurd (cc (rw (e, best_account) at h))
]

-- When its reads succeed, the active account is there if and only if some account is linked to
-- the user, and then it is one of those; whether the selection is stored makes no difference.
pub get_active-linked :
    (healed : Bool) (u : ℕ) (r : Registry)
    → (((get_active_account true true healed u r).0 ≡ none) ↔ (holds_any u r ≡ false))
      × ((a : Account)
          → (get_active_account true true healed u r).0 ≡ some a
          → linked a.id u r.links ≡ true)
get_active-linked healed u r =
    let same = get_active-answer healed u r in
    (
      (
        λ h. best_account-none u r (sym same ∙ h),
        λ h. elim (Option-cases (best_account u r)) [
          | inl e ↦ same ∙ e
          | inr (a, e) ↦ cc ((best_account-own u r a e).1, h)
        ],
      ),
      λ a h. (best_account-own u r a (sym same ∙ h)).0,
    )

-- A selection that names an account of the user is what the next call goes by.
pointed-after :
    (i u : ℕ) (r : Registry)
    → any (is_own i u r) r.accounts ≡ true
    → (b : Account) × (pointed u (set_sessions (point_session u (some i) r.sessions) r) ≡ some b)
      × (b.id ≡ i)
unfolding pointed
pointed-after i u r h = elim (Option-cases (find (is_own i u r) r.accounts)) [
  | inl e ↦ absurd (cc (ap is_some e, is_some-find (is_own i u r) r.accounts, h))
  | inr (b, e) ↦ (
    b,
    rw (active_of-point u u (some i) r.sessions, beq_refl u, pointed) e,
    ground (arith, find-holds (is_own i u r) r.accounts b e),
  )
]

quick :
    (listed healed : Bool) (u : ℕ) (s : Registry) (b : Account)
    → pointed u s ≡ some b
    → get_active_account true listed healed u s ≡ (some b, s)
unfolding get_active_account
quick listed healed u s b e = rw (e, get_active_account) refl

healing :
    (u : ℕ) (r : Registry) (a : Account)
    → pointed u r ≡ none
    → head? (held_by u r) ≡ some a
    → get_active_account true true true u r
      ≡ (some a, set_sessions (point_session u (some a.id) r.sessions) r)
unfolding get_active_account list_by_telegram_user_id fallback
healing u r a e f = rw (e, f, get_active_account, fallback) refl

-- Once a call has answered an account and stored the selection, the next one answers the row of
-- the same id and changes nothing, and needs the session of its first read only.
pub get_active-again :
    (listed healed : Bool) (u : ℕ) (r : Registry) (a : Account)
    → (get_active_account true true true u r).0 ≡ some a
    → (b : Account) × (get_active_account true listed healed u
          (get_active_account true true true u r).1
        ≡ (some b, (get_active_account true true true u r).1))
      × (b.id ≡ a.id)
get_active-again listed healed u r a h = elim (Option-cases (pointed u r)) [
  | inl e ↦ elim (Option-cases (head? (held_by u r))) [
    | inl f ↦
        cc (held_by-none u r f, (best_account-own u r a (sym (get_active-answer true u r) ∙ h)).1)
    | inr (b, f) ↦
        let first = healing u r b e f in
        let s = set_sessions (point_session u (some b.id) r.sessions) r in
        let (c, p, i) = pointed-after b.id u r (held_by-found u r b f) in
        let same : some b ≡ some a = sym (ap (λ z. z.0) first) ∙ h in
        let same_id : b.id ≡ a.id = cc in (c, rw first (quick listed healed u s c p), i ∙ same_id)
  ]
  | inr (b, e) ↦
      let first = quick true true u r b e in
      let same : some b ≡ some a = sym (ap (λ z. z.0) first) ∙ h in
      let same_id : b.id ≡ a.id = cc in (b, rw first (quick listed healed u r b e), same_id)
]
