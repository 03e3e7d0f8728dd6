-- ===== src/Accounts/Tokens.antt =====
-- A revoked token stays revoked, whatever is called.
use mathlib.Core.Option
use mathlib.Core.Path.{subst}
use algo_trading_broker.Prelude.{
  ℕ, ◌≡◌, refl, sym, ap, ◌∙◌, Bool, true, false, not, ◌&&◌, Option, none, some, List, [], ◌∷◌, ◌++◌,
  map, arith, is_some, Option-cases, Bool-cases, ◌==◌, nat_eq, string_eq, option_eq, inl, inr,
  String,
}
use algo_trading_broker.Prelude.Finds.{
  any, find, head?, any-same, any-append, any-update_first, is_some-find, Apart,
}
use algo_trading_broker.Accounts.{
  Market, Blob, Account, LinkToken, Registry, token_taken, new_link_token, find_valid, is_worker,
  is_exactly, list_by_telegram_user_id,
}
use algo_trading_broker.Accounts.Operations.{
  at_id, insert_account, new_account, upsert_gateway, create_account, fallback, pointed,
  get_active_account, set_active_account, bind_user, mark_used, use_token, link_telegram,
  admin_link_telegram, drop_active, repoint_other, unlink_telegram, revoke, reset_access,
  rotate_link_token,
}
use algo_trading_broker.Accounts.Calls.{
  update_settings, Call, announce, register, ask, choose, claim, grant, leave, rotate, configure,
  apply, apply_all,
}
use algo_trading_broker.Accounts.Lookups.{taken-revoke}
use algo_trading_broker.Accounts.Pointers.{same_token}

abbrev pub is_live : ℕ → LinkToken → Bool
is_live t k = k.token == t && not (is_some k.revoked_at)

-- The token was issued, and is revoked.
abbrev pub Spent : ℕ → List LinkToken → Type 0
Spent t ks = (token_taken t ks ≡ true) × (any (is_live t) ks ≡ false)

-- The account that a token was issued for.
unfoldable pub owner : ℕ → List LinkToken → Option ℕ
owner t ks = Option.map (λ k. k.account) (find (λ k. k.token == t) ks)

pub Spent-append_one :
    (t a n : ℕ) (ks : List LinkToken)
    → token_taken n ks ≡ false
    → Spent t ks
    → Spent t (ks ++ new_link_token a n ∷ [])
unfolding any
Spent-append_one t a n ks free (issued, dead) = elim (Bool-cases (n == t)) [
  | inl e ↦
      let same : n ≡ t = ground (arith, e) in
      absurd (cc (ap (λ x. token_taken x ks) same, free, issued))
  | inr e ↦ (
    any-append (λ k. k.token == t) ks (new_link_token a n ∷ []) ∙ ground (arith, issued),
    any-append (is_live t) ks (new_link_token a n ∷ []) ∙ ground (arith, dead, e),
  )
]

Spent-used : (t n now : ℕ) (ks : List LinkToken) → Spent t ks → Spent t (use_token n now ks)
Spent-used t n now ks (issued, dead) = (
  any-update_first (λ k. k.token == n) (λ k. k.token == t) (mark_used now) (λ k. refl) ks ∙ issued,
  any-update_first (λ k. k.token == n) (is_live t) (mark_used now) (λ k. refl) ks ∙ dead,
)

live-revoke :
    (t a now : ℕ) (ks : List LinkToken)
    → any (is_live t) ks ≡ false
    → any (is_live t) (map (revoke a now) ks) ≡ false
unfolding any
live-revoke t a now [] h = refl
live-revoke t a now (k ∷ ks) h = ground (arith, live-revoke t a now ks, h)

none_live :
    (t : ℕ) (a now : ℕ) (ks : List LinkToken)
    → token_taken t ks ≡ false
    → any (is_live t) (map (revoke a now) ks) ≡ false
unfolding any
none_live t a now [] h = refl
none_live t a now (k ∷ ks) h = ground (arith, none_live t a now ks, h)

pub owner-revoked :
    (t a now : ℕ) (ks : List LinkToken)
    → Apart same_token ks
    → owner t ks ≡ some a
    → any (is_live t) (map (revoke a now) ks) ≡ false
unfolding owner any find
owner-revoked t a now [] d h = cc
owner-revoked t a now (k ∷ ks) d h = elim (Bool-cases (k.token == t)) [
  | inl e ↦
      let gone = any-same (λ l. l.token == t) (same_token k) (λ l. ground (arith, e)) ks ∙ d.0 in
      ground (arith, h, e, none_live t a now ks gone)
  | inr e ↦ ground (arith, e, owner-revoked t a now ks d.1 (ground (arith, h, e)))
]

pub taken-owner : (t a : ℕ) (ks : List LinkToken) → owner t ks ≡ some a → token_taken t ks ≡ true
unfolding owner
taken-owner t a ks h = elim (Option-cases (find (λ k. k.token == t) ks)) [
  | inl e ↦ cc (ap (Option.map (λ (k : LinkToken). k.account)) e, h)
  | inr (k, e) ↦ sym (is_some-find (λ k. k.token == t) ks) ∙ ap is_some e
]

insert_account-Spent :
    (t : ℕ) (a : Account) (n : ℕ) (r : Registry)
    → Spent t r.tokens
    → Spent t (insert_account a n r).tokens
unfolding insert_account
insert_account-Spent t a n r s =
    elim (Bool-cases (not (is_some (at_id a.id r.accounts)) && not (token_taken n r.tokens))) [
      | inl e ↦ rw e (Spent-append_one t a.id n r.tokens (ground (arith, e)) s)
      | inr e ↦ rw e s
    ]

upsert_gateway-Spent :
    (t : ℕ) (up : Bool) (account_id : String) (m : Market) (g : String) (new_id n now : ℕ)
    (r : Registry)
    → Spent t r.tokens
    → Spent t (upsert_gateway up account_id m g new_id n now r).tokens
unfolding upsert_gateway
upsert_gateway-Spent t up account_id m g new_id n now r s =
    elim (Option-cases (find (is_worker account_id m (some g)) r.accounts)) [
      | inl e ↦ elim (Bool-cases up) [
        | inl u ↦
            rw (e, u, upsert_gateway)
              (insert_account-Spent t (new_account new_id account_id none m g now) n r s)
        | inr u ↦ rw (e, u, upsert_gateway) s
      ]
      | inr (a, e) ↦
          elim (Bool-cases (
            up
            && (not (a.gateway == some g)
                && not (is_some (find (is_exactly account_id m g) r.accounts))))) [
                  | inl u ↦ rw (e, u, upsert_gateway) s
                  | inr u ↦ rw (e, u, upsert_gateway) s
                ]
    ]

create_account-Spent :
    (t : ℕ) (up : Bool) (account_id : String) (m : Market) (g : String) (name : Option String)
    (new_id n now : ℕ) (r : Registry)
    → Spent t r.tokens
    → Spent t (create_account up account_id m g name new_id n now r).1.tokens
unfolding create_account
create_account-Spent t up account_id m g name new_id n now r s =
    elim (Bool-cases (
      up
      && (not (is_some (find (is_exactly account_id m g) r.accounts))
          && (not (is_some (at_id new_id r.accounts)) && not (token_taken n r.tokens))))) [
            | inl u ↦
                rw u (insert_account-Spent t (new_account new_id account_id name m g now) n r s)
            | inr u ↦ rw u s
          ]

fallback-tokens :
    (healed : Bool) (u : ℕ) (found : Option Account) (r : Registry)
    → (fallback healed u found r).1.tokens ≡ r.tokens
unfolding fallback
fallback-tokens healed u none r = refl
fallback-tokens true u (some a) r = refl
fallback-tokens false u (some a) r = refl

get_active-tokens :
    (up listed healed : Bool) (u : ℕ) (r : Registry)
    → (get_active_account up listed healed u r).1.tokens ≡ r.tokens
unfolding get_active_account
get_active-tokens up listed healed u r = elim (Option-cases (pointed u r)) [
  | inl e ↦ elim (Bool-cases up) [
    | inl f ↦
        rw (e, f, get_active_account)
          (fallback-tokens healed u (head? (list_by_telegram_user_id listed u r)) r)
    | inr f ↦ rw (e, f, get_active_account) refl
  ]
  | inr (a, e) ↦ ground (arith, e)
]

set_active-tokens :
    (up : Bool) (u i : ℕ) (r : Registry) → (set_active_account up u i r).1.tokens ≡ r.tokens
unfolding set_active_account
set_active-tokens up u i r = ground arith

bind_user-tokens : (i u : ℕ) (r : Registry) → (bind_user i u r).tokens ≡ r.tokens
unfolding bind_user
bind_user-tokens i u r = refl

admin_link-tokens :
    (up : Bool) (i u : ℕ) (r : Registry) → (admin_link_telegram up i u r).1.tokens ≡ r.tokens
unfolding admin_link_telegram bind_user
admin_link-tokens up i u r = ground arith

link-Spent :
    (t : ℕ) (up : Bool) (n u now : ℕ) (r : Registry)
    → Spent t r.tokens
    → Spent t (link_telegram up n u now r).1.tokens
unfolding link_telegram bind_user
link-Spent t up n u now r s = elim (Option-cases (find_valid n now r.tokens)) [
  | inl e ↦ rw (e, link_telegram) s
  | inr (k, e) ↦ elim (Option-cases (at_id k.account r.accounts)) [
    | inl f ↦ rw (e, f, link_telegram) s
    | inr (a, f) ↦ elim (Bool-cases up) [
      | inl g ↦ rw (e, f, g, link_telegram) (Spent-used t n now r.tokens s)
      | inr g ↦ rw (e, f, g, link_telegram) s
    ]
  ]
]

unlink-tokens :
    (up listed healed dropped : Bool) (u : ℕ) (r : Registry)
    → (unlink_telegram up listed healed dropped u r).1.tokens ≡ r.tokens
unfolding unlink_telegram drop_active repoint_other
unlink-tokens up listed healed dropped u r =
    let same = get_active-tokens up listed healed u r in
    elim (Option-cases (get_active_account up listed healed u r).0) [
      | inl e ↦ rw (e, unlink_telegram) same
      | inr (a, e) ↦ elim (Bool-cases dropped) [
        | inl f ↦ rw (e, f, unlink_telegram) same
        | inr f ↦ rw (e, f, unlink_telegram) same
      ]
    ]

rotate-Spent :
    (t : ℕ) (up : Bool) (name : String) (n now : ℕ) (r : Registry)
    → Spent t r.tokens
    → Spent t (rotate_link_token up name n now r).1.tokens
unfolding rotate_link_token reset_access
rotate-Spent t up name n now r s =
    elim (Option-cases (find (λ a. a.account_id == name) r.accounts)) [
      | inl e ↦ rw (e, rotate_link_token) s
      | inr (a, e) ↦ elim (Bool-cases (up && not (token_taken n r.tokens))) [
        | inl f ↦
            rw (e, f, rotate_link_token)
              (Spent-append_one t a.id n (map (revoke a.id now) r.tokens)
                (taken-revoke n a.id now r.tokens ∙ ground (arith, f))
                (taken-revoke t a.id now r.tokens ∙ s.0, live-revoke t a.id now r.tokens s.1))
        | inr f ↦ rw (e, f, rotate_link_token) s
      ]
    ]

update_settings-tokens :
    (up : Bool) (i : ℕ) (patch : Blob) (r : Registry)
    → (update_settings up i patch r).1.tokens ≡ r.tokens
unfolding update_settings
update_settings-tokens up i patch r = ground arith

apply-Spent : (t : ℕ) (c : Call) (r : Registry) → Spent t r.tokens → Spent t (apply c r).tokens
unfolding apply
apply-Spent t (announce up a m g new_id n now) r s =
    upsert_gateway-Spent t up a m g new_id n now r s
apply-Spent t (register up a m g name new_id n now) r s =
    create_account-Spent t up a m g name new_id n now r s
apply-Spent t (ask up listed healed u) r s =
    subst (Spent t) (sym (get_active-tokens up listed healed u r)) s
apply-Spent t (choose up u i) r s = subst (Spent t) (sym (set_active-tokens up u i r)) s
apply-Spent t (claim up n u now) r s = link-Spent t up n u now r s
apply-Spent t (grant up i u) r s = subst (Spent t) (sym (admin_link-tokens up i u r)) s
apply-Spent t (leave up listed healed dropped u) r s =
    subst (Spent t) (sym (unlink-tokens up listed healed dropped u r)) s
apply-Spent t (rotate up name n now) r s = rotate-Spent t up name n now r s
apply-Spent t (configure up i patch) r s =
    subst (Spent t) (sym (update_settings-tokens up i patch r)) s

pub apply_all-Spent :
    (t : ℕ) (cs : List Call) (r : Registry) → Spent t r.tokens → Spent t (apply_all cs r).tokens
unfolding apply_all
apply_all-Spent t [] r s = s
apply_all-Spent t (c ∷ cs) r s = apply_all-Spent t cs (apply c r) (apply-Spent t c r s)
