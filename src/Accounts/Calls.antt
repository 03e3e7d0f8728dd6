-- ===== src/Accounts/Calls.antt =====
-- broker/db/repository/account.py: the settings of an account, and sequences of calls.
use algo_trading_broker.Prelude.{
  ℕ, String, Bool, not, Option, none, some, List, [], ◌∷◌, ◌++◌, if◌then◌else◌, keep, ◌==◌, nat_eq,
  string_eq, option_eq,
}
use algo_trading_broker.Prelude.Finds.{any, find}
use algo_trading_broker.Accounts.{Market, market_eq, Blob, Account, Registry, is_worker}
use algo_trading_broker.Accounts.Operations.{
  at_id, update_account, set_accounts, upsert_gateway, create_account, get_active_account,
  set_active_account, link_telegram, admin_link_telegram, unlink_telegram, rotate_link_token,
}

unfoldable pub get_settings : Bool → String → Market → String → Registry → Blob
get_settings up account_id market gateway r =
    elim (find (is_worker account_id market (some gateway)) r.accounts) [
      | none ↦ []
      | some a ↦ if up then a.settings else []
    ]

abbrev pub has_setting : String → Blob → Bool
has_setting k es = any (λ e. e.0 == k) es

-- `settings || patch` of two JSON objects.
unfoldable pub merge_blob : Blob → Blob → Blob
merge_blob old patch = keep (λ e. not (has_setting e.0 patch)) old ++ patch

abbrev pub merge_settings : Blob → Account → Account
merge_settings patch a = record {
  id = a.id;
  account_id = a.account_id;
  account_name = a.account_name;
  account_balance = a.account_balance;
  market = a.market;
  gateway = a.gateway;
  last_activity_at = a.last_activity_at;
  settings = merge_blob a.settings patch;
}

unfoldable pub update_settings : Bool → ℕ → Blob → Registry → Option Blob × Registry
update_settings up i patch r = elim (at_id i r.accounts) [
  | none ↦ (none, r)
  | some a ↦
      if up
      then (
        some (merge_blob a.settings patch),
        set_accounts (update_account i (merge_settings patch) r.accounts) r,
      )
      else (none, r)
]

-- One call of an operation that may write, with what it is given.
pub data Call : Type 0 where
  announce : Bool → String → Market → String → (new_id token now : ℕ) → Call
  register : Bool → String → Market → String → Option String → (new_id token now : ℕ) → Call
  ask : (up listed healed : Bool) → ℕ → Call
  choose : Bool → ℕ → ℕ → Call
  claim : Bool → (t u now : ℕ) → Call
  grant : Bool → ℕ → ℕ → Call
  leave : (up listed healed dropped : Bool) → ℕ → Call
  rotate : Bool → String → (token now : ℕ) → Call
  configure : Bool → ℕ → Blob → Call

unfoldable pub apply : Call → Registry → Registry
apply (announce up a m g new_id token now) r = upsert_gateway up a m g new_id token now r
apply (register up a m g name new_id token now) r =
    (create_account up a m g name new_id token now r).1
apply (ask up listed healed u) r = (get_active_account up listed healed u r).1
apply (choose up u i) r = (set_active_account up u i r).1
apply (claim up t u now) r = (link_telegram up t u now r).1
apply (grant up i u) r = (admin_link_telegram up i u r).1
apply (leave up listed healed dropped u) r = (unlink_telegram up listed healed dropped u r).1
apply (rotate up a token now) r = (rotate_link_token up a token now r).1
apply (configure up i patch) r = (update_settings up i patch r).1

unfoldable pub apply_all : List Call → Registry → Registry
apply_all [] r = r
apply_all (c ∷ cs) r = apply_all cs (apply c r)
