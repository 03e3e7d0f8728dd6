-- ===== src/Accounts/Kept.antt =====
-- Every call keeps the invariant of the registry.
use algo_trading_broker.Prelude.{
  ℕ, ◌≡◌, refl, ap, ◌∙◌, Bool, true, false, not, ◌&&◌, Option, none, some, List, [], ◌∷◌, map,
  arith, Option-cases, Bool-cases, ◌==◌, nat_eq, option_eq, inl, inr, String, string_eq,
}
use algo_trading_broker.Prelude.Finds.{
  find, head?, find-holds, Apart-append_one, Apart-keep, Apart-update_first, Apart-map,
}
use algo_trading_broker.Accounts.{
  Blob, Account, LinkToken, BotSession, Registry, new_link_token, at_link, linked, of_user,
  point_at, token_taken, list_by_telegram_user_id, find_valid,
}
use algo_trading_broker.Accounts.Operations.{
  at_id, set_links, set_tokens, fallback, pointed, get_active_account, set_active_account,
  drop_link, mark_used, use_token, link_telegram, admin_link_telegram, first_other, repoint_other,
  drop_active, unlink_telegram, revoke, unpoint, reset_access, rotate_link_token,
}
use algo_trading_broker.Accounts.Calls.{
  merge_settings, update_settings, Call, announce, register, ask, choose, claim, grant, leave,
  rotate, configure, apply, apply_all,
}
use algo_trading_broker.Accounts.Lookups.{linked-drop, taken-revoke}
use algo_trading_broker.Accounts.Held.{held_by-linked, first_other-linked}
use algo_trading_broker.Accounts.Pointers.{
  same_token, same_link, same_session, IsRegistry, Pointed-repoint, Pointed-unpoint,
}
use algo_trading_broker.Accounts.Rows.{
  update-IsRegistry, upsert_gateway-IsRegistry, create_account-IsRegistry, point-IsRegistry,
  bind_user-IsRegistry,
}

fallback-IsRegistry :
    (healed : Bool) (u : ℕ) (found : Option Account) (r : Registry)
    → ((a : Account) → found ≡ some a → linked a.id u r.links ≡ true)
    → IsRegistry r
    → IsRegistry (fallback healed u found r).1
unfolding fallback
fallback-IsRegistry healed u none r h ok = ok
fallback-IsRegistry true u (some a) r h ok = point-IsRegistry a.id u r (h a refl) ok
fallback-IsRegistry false u (some a) r h ok = ok

pub listed-linked :
    (listed : Bool) (u : ℕ) (r : Registry) (a : Account)
    → head? (list_by_telegram_user_id listed u r) ≡ some a
    → linked a.id u r.links ≡ true
unfolding list_by_telegram_user_id head?
listed-linked true u r a h = held_by-linked u r a h
listed-linked false u r a h = cc

get_active_account-IsRegistry :
    (up listed healed : Bool) (u : ℕ) (r : Registry)
    → IsRegistry r
    → IsRegistry (get_active_account up listed healed u r).1
unfolding get_active_account
get_active_account-IsRegistry up listed healed u r ok = elim (Option-cases (pointed u r)) [
  | inl e ↦ elim (Bool-cases up) [
    | inl f ↦
        rw (e, f, get_active_account)
          (fallback-IsRegistry healed u (head? (list_by_telegram_user_id listed u r)) r
            (listed-linked listed u r) ok)
    | inr f ↦ rw (e, f, get_active_account) ok
  ]
  | inr (a, e) ↦ elim (Bool-cases up) [
    | inl f ↦ rw (e, f, get_active_account) ok
    | inr f ↦ rw (e, f, get_active_account) ok
  ]
]

set_active_account-IsRegistry :
    (up : Bool) (u i : ℕ) (r : Registry) → IsRegistry r → IsRegistry (set_active_account up u i r).1
unfolding set_active_account
set_active_account-IsRegistry up u i r ok =
    let own = λ (a : Account). a.id == i && linked a.id u r.links in
    elim (Option-cases (find own r.accounts)) [
      | inl e ↦ rw (e, set_active_account) ok
      | inr (a, e) ↦ elim (Bool-cases up) [
        | inl f ↦
            rw (e, f, set_active_account)
              (point-IsRegistry a.id u r (ground (arith, find-holds own r.accounts a e)) ok)
        | inr f ↦ rw (e, f, set_active_account) ok
      ]
    ]

use_token-IsRegistry :
    (t now : ℕ) (r : Registry) → IsRegistry r → IsRegistry (set_tokens (use_token t now r.tokens) r)
use_token-IsRegistry t now r ok = record {
  one_account = ok.one_account;
  one_token =
      Apart-update_first same_token (mark_used now) (λ x y. refl) (λ x y. refl) (λ k. k.token == t)
        r.tokens ok.one_token;
  one_link = ok.one_link;
  one_session = ok.one_session;
  pointers = ok.pointers;
}

link_telegram-IsRegistry :
    (up : Bool) (t u now : ℕ) (r : Registry)
    → IsRegistry r
    → IsRegistry (link_telegram up t u now r).1
unfolding link_telegram
link_telegram-IsRegistry up t u now r ok = elim (Option-cases (find_valid t now r.tokens)) [
  | inl e ↦ rw (e, link_telegram) ok
  | inr (k, e) ↦ elim (Option-cases (at_id k.account r.accounts)) [
    | inl f ↦ rw (e, f, link_telegram) ok
    | inr (a, f) ↦ elim (Bool-cases up) [
      | inl g ↦
          rw (e, f, g, link_telegram)
            (bind_user-IsRegistry a.id u (set_tokens (use_token t now r.tokens) r)
              (use_token-IsRegistry t now r ok))
      | inr g ↦ rw (e, f, g, link_telegram) ok
    ]
  ]
]

admin_link_telegram-IsRegistry :
    (up : Bool) (i u : ℕ) (r : Registry)
    → IsRegistry r
    → IsRegistry (admin_link_telegram up i u r).1
unfolding admin_link_telegram
admin_link_telegram-IsRegistry up i u r ok = elim (Option-cases (at_id i r.accounts)) [
  | inl e ↦ rw (e, admin_link_telegram) ok
  | inr (a, e) ↦ elim (Bool-cases up) [
    | inl f ↦ rw (e, f, admin_link_telegram) (bind_user-IsRegistry a.id u r ok)
    | inr f ↦ rw (e, f, admin_link_telegram) ok
  ]
]

drop_active-IsRegistry : (a u : ℕ) (r : Registry) → IsRegistry r → IsRegistry (drop_active a u r)
unfolding drop_active repoint_other
drop_active-IsRegistry a u r ok =
    let s = set_links (drop_link a u r.links) r in
    record {
      one_account = ok.one_account;
      one_token = ok.one_token;
      one_link = Apart-keep same_link (λ l. not (at_link a u l)) r.links ok.one_link;
      one_session =
          Apart-update_first same_session (point_at (first_other a u s)) (λ x y. refl) (λ x y. refl)
            (of_user u) r.sessions ok.one_session;
      pointers =
          Pointed-repoint u (first_other a u s) s.links r.sessions (λ i. first_other-linked a u i s)
            (λ b v n h. linked-drop b v a u r.links ∙ ground (arith, ok.pointers b v h, n));
    }

unlink_telegram-IsRegistry :
    (up listed healed dropped : Bool) (u : ℕ) (r : Registry)
    → IsRegistry r
    → IsRegistry (unlink_telegram up listed healed dropped u r).1
unfolding unlink_telegram
unlink_telegram-IsRegistry up listed healed dropped u r ok =
    let s = get_active_account-IsRegistry up listed healed u r ok in
    elim (Option-cases (get_active_account up listed healed u r).0) [
      | inl e ↦ rw (e, unlink_telegram) s
      | inr (a, e) ↦ elim (Bool-cases dropped) [
        | inl f ↦
            rw (e, f, unlink_telegram)
              (drop_active-IsRegistry a.id u (get_active_account up listed healed u r).1 s)
        | inr f ↦ rw (e, f, unlink_telegram) s
      ]
    ]

revoke-token : (a now : ℕ) (k : LinkToken) → (revoke a now k).token ≡ k.token
revoke-token a now k = ground arith

unpoint-user : (a : ℕ) (s : BotSession) → (unpoint a s).user ≡ s.user
unpoint-user a s = ground arith

reset_access-IsRegistry :
    (a t now : ℕ) (r : Registry)
    → token_taken t r.tokens ≡ false
    → IsRegistry r
    → IsRegistry (reset_access a t now r)
unfolding reset_access
reset_access-IsRegistry a t now r free ok = record {
  one_account = ok.one_account;
  one_token =
      Apart-append_one same_token (map (revoke a now) r.tokens) (new_link_token a t)
        (taken-revoke t a now r.tokens ∙ free)
        (Apart-map same_token (revoke a now) (λ x y. ap (λ k. k == y.token) (revoke-token a now x))
          (λ x y. ap (λ k. x.token == k) (revoke-token a now y)) r.tokens ok.one_token);
  one_link = Apart-keep same_link (λ l. not (l.account == a)) r.links ok.one_link;
  one_session =
      Apart-map same_session (unpoint a) (λ x y. ap (λ k. k == y.user) (unpoint-user a x))
        (λ x y. ap (λ k. x.user == k) (unpoint-user a y)) r.sessions ok.one_session;
  pointers = Pointed-unpoint a r.links r.sessions ok.pointers;
}

rotate_link_token-IsRegistry :
    (up : Bool) (name : String) (t now : ℕ) (r : Registry)
    → IsRegistry r
    → IsRegistry (rotate_link_token up name t now r).1
unfolding rotate_link_token
rotate_link_token-IsRegistry up name t now r ok =
    elim (Option-cases (find (λ a. a.account_id == name) r.accounts)) [
      | inl e ↦ rw (e, rotate_link_token) ok
      | inr (a, e) ↦ elim (Bool-cases (up && not (token_taken t r.tokens))) [
        | inl f ↦
            rw (e, f, rotate_link_token)
              (reset_access-IsRegistry a.id t now r (ground (arith, f)) ok)
        | inr f ↦ rw (e, f, rotate_link_token) ok
      ]
    ]

update_settings-IsRegistry :
    (up : Bool) (i : ℕ) (patch : Blob) (r : Registry)
    → IsRegistry r
    → IsRegistry (update_settings up i patch r).1
unfolding update_settings
update_settings-IsRegistry up i patch r ok = elim (Option-cases (at_id i r.accounts)) [
  | inl e ↦ rw (e, update_settings) ok
  | inr (a, e) ↦ elim (Bool-cases up) [
    | inl f ↦
        rw (e, f, update_settings) (update-IsRegistry i (merge_settings patch) r (λ b. refl) ok)
    | inr f ↦ rw (e, f, update_settings) ok
  ]
]

pub apply-IsRegistry : (c : Call) (r : Registry) → IsRegistry r → IsRegistry (apply c r)
unfolding apply
apply-IsRegistry (announce up a m g new_id t now) r ok =
    upsert_gateway-IsRegistry up a m g new_id t now r ok
apply-IsRegistry (register up a m g name new_id t now) r ok =
    create_account-IsRegistry up a m g name new_id t now r ok
apply-IsRegistry (ask up listed healed u) r ok =
    get_active_account-IsRegistry up listed healed u r ok
apply-IsRegistry (choose up u i) r ok = set_active_account-IsRegistry up u i r ok
apply-IsRegistry (claim up t u now) r ok = link_telegram-IsRegistry up t u now r ok
apply-IsRegistry (grant up i u) r ok = admin_link_telegram-IsRegistry up i u r ok
apply-IsRegistry (leave up listed healed dropped u) r ok =
    unlink_telegram-IsRegistry up listed healed dropped u r ok
apply-IsRegistry (rotate up a t now) r ok = rotate_link_token-IsRegistry up a t now r ok
apply-IsRegistry (configure up i patch) r ok = update_settings-IsRegistry up i patch r ok

-- A registry in which accounts, tokens, links and sessions stand once each, and in which every
-- user's selection is of an account linked to them, stays such a one under any sequence of calls,
-- whichever sessions fail and whatever is asked for.
pub apply_all-IsRegistry :
    (cs : List Call) (r : Registry) → IsRegistry r → IsRegistry (apply_all cs r)
unfolding apply_all
apply_all-IsRegistry [] r ok = ok
apply_all-IsRegistry (c ∷ cs) r ok = apply_all-IsRegistry cs (apply c r) (apply-IsRegistry c r ok)
