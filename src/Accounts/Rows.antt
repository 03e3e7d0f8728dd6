-- ===== src/Accounts/Rows.antt =====
-- Rows that are added to the registry, and assignments to one.
use algo_trading_broker.Prelude.{
  ℕ, ◌≡◌, refl, ap, ◌∙◌, Bool, true, not, ◌&&◌, Option, none, some, arith, is_some, Option-cases,
  Bool-cases, ◌==◌, nat_eq, option_eq, inl, inr, String, string_eq,
}
use algo_trading_broker.Prelude.Finds.{find, is_some-find, Apart-append_one, Apart-update_first}
use algo_trading_broker.Accounts.{
  Market, Account, Registry, new_link_token, linked, active_of, point_session, token_taken,
  is_worker, is_exactly,
}
use algo_trading_broker.Accounts.Operations.{
  at_id, update_account, set_gateway, set_accounts, set_sessions, insert_account, new_account,
  upsert_gateway, create_account, add_link, bind_user,
}
use algo_trading_broker.Accounts.Lookups.{linked-add}
use algo_trading_broker.Accounts.Pointers.{
  same_account, same_token, IsRegistry, Apart-point, Apart-add, Pointed-point, Pointed-more,
}

-- An assignment to a row of `accounts` that leaves its id alone.
pub update-IsRegistry :
    (i : ℕ) (f : Account → Account) (r : Registry)
    → ((a : Account) → (f a).id ≡ a.id)
    → IsRegistry r
    → IsRegistry (set_accounts (update_account i f r.accounts) r)
update-IsRegistry i f r h ok = record {
  one_account =
      Apart-update_first same_account f (λ x y. ap (λ k. k == y.id) (h x))
        (λ x y. ap (λ k. x.id == k) (h y)) (λ a. a.id == i) r.accounts ok.one_account;
  one_token = ok.one_token;
  one_link = ok.one_link;
  one_session = ok.one_session;
  pointers = ok.pointers;
}

pub insert_account-IsRegistry :
    (a : Account) (t : ℕ) (r : Registry) → IsRegistry r → IsRegistry (insert_account a t r)
unfolding insert_account
insert_account-IsRegistry a t r ok =
    elim (Bool-cases (not (is_some (at_id a.id r.accounts)) && not (token_taken t r.tokens))) [
      | inl e ↦ rw e (record {
        one_account =
            Apart-append_one same_account r.accounts a
              (ground (arith, e, is_some-find (λ b. b.id == a.id) r.accounts)) ok.one_account;
        one_token =
            Apart-append_one same_token r.tokens (new_link_token a.id t) (ground (arith, e))
              ok.one_token;
        one_link = ok.one_link;
        one_session = ok.one_session;
        pointers = ok.pointers;
      })
      | inr e ↦ rw e ok
    ]

pub upsert_gateway-IsRegistry :
    (up : Bool) (account_id : String) (m : Market) (g : String) (new_id t now : ℕ) (r : Registry)
    → IsRegistry r
    → IsRegistry (upsert_gateway up account_id m g new_id t now r)
unfolding upsert_gateway
upsert_gateway-IsRegistry up account_id m g new_id t now r ok =
    elim (Option-cases (find (is_worker account_id m (some g)) r.accounts)) [
      | inl e ↦ elim (Bool-cases up) [
        | inl u ↦
            rw (e, u, upsert_gateway)
              (insert_account-IsRegistry (new_account new_id account_id none m g now) t r ok)
        | inr u ↦ rw (e, u, upsert_gateway) ok
      ]
      | inr (a, e) ↦
          elim (Bool-cases (
            up
            && (not (a.gateway == some g)
                && not (is_some (find (is_exactly account_id m g) r.accounts))))) [
                  | inl u ↦
                      rw (e, u, upsert_gateway)
                        (update-IsRegistry a.id (set_gateway m g) r (λ b. refl) ok)
                  | inr u ↦ rw (e, u, upsert_gateway) ok
                ]
    ]

pub create_account-IsRegistry :
    (up : Bool) (account_id : String) (m : Market) (g : String) (name : Option String)
    (new_id t now : ℕ) (r : Registry)
    → IsRegistry r
    → IsRegistry (create_account up account_id m g name new_id t now r).1
unfolding create_account
create_account-IsRegistry up account_id m g name new_id t now r ok =
    elim (Bool-cases (
      up
      && (not (is_some (find (is_exactly account_id m g) r.accounts))
          && (not (is_some (at_id new_id r.accounts)) && not (token_taken t r.tokens))))) [
            | inl u ↦
                rw u (insert_account-IsRegistry (new_account new_id account_id name m g now) t r ok)
            | inr u ↦ rw u ok
          ]

pub point-IsRegistry :
    (i u : ℕ) (r : Registry)
    → linked i u r.links ≡ true
    → IsRegistry r
    → IsRegistry (set_sessions (point_session u (some i) r.sessions) r)
point-IsRegistry i u r h ok = record {
  one_account = ok.one_account;
  one_token = ok.one_token;
  one_link = ok.one_link;
  one_session = Apart-point u (some i) r.sessions ok.one_session;
  pointers = Pointed-point i u r.links r.sessions h ok.pointers;
}

pub bind_user-IsRegistry : (i u : ℕ) (r : Registry) → IsRegistry r → IsRegistry (bind_user i u r)
unfolding bind_user
bind_user-IsRegistry i u r ok =
    let more =
      Pointed-more r.links (add_link i u r.links) r.sessions
        (λ a v h. linked-add a v i u r.links ∙ ground (arith, h)) ok.pointers in
    elim (Bool-cases (is_some (active_of u r.sessions))) [
      | inl e ↦ rw e (record {
        one_account = ok.one_account;
        one_token = ok.one_token;
        one_link = Apart-add i u r.links ok.one_link;
        one_session = ok.one_session;
        pointers = more;
      })
      | inr e ↦ rw e (record {
        one_account = ok.one_account;
        one_token = ok.one_token;
        one_link = Apart-add i u r.links ok.one_link;
        one_session = Apart-point u (some i) r.sessions ok.one_session;
        pointers =
            Pointed-point i u (add_link i u r.links) r.sessions
              (linked-add i u i u r.links ∙ ground arith) more;
      })
    ]
