-- ===== src/Accounts/Operations.antt =====
-- broker/db/repository/account.py: the operations that write.
use mathlib.Core.Option
use algo_trading_broker.Prelude.{
  ℕ, String, Bool, true, false, not, ◌&&◌, Option, none, some, List, [], ◌∷◌, ◌++◌, map, is_some,
  if◌then◌else◌, keep, ◌==◌, nat_eq, string_eq, option_eq,
}
use algo_trading_broker.Prelude.Finds.{find, update_first, head?}
use algo_trading_broker.Accounts.{
  at_link, Market, market_eq, Account, BotLink, LinkToken, BotSession, Registry, new_link_token,
  is_worker, is_exactly, linked, active_of, repoint, point_session, token_taken, find_valid,
  held_by, list_by_telegram_user_id,
}

-- The row of an id, of which the primary key allows one.
abbrev pub at_id : ℕ → List Account → Option Account
at_id i accounts = find (λ a. a.id == i) accounts

abbrev pub update_account : ℕ → (Account → Account) → List Account → List Account
update_account i f accounts = update_first (λ a. a.id == i) f accounts

abbrev pub new_account : ℕ → String → Option String → Market → String → ℕ → Account
new_account new_id account_id account_name market gateway now = record {
  id = new_id;
  account_id = account_id;
  account_name = account_name;
  account_balance = none;
  market = market;
  gateway = some gateway;
  last_activity_at = some now;
  settings = [];
}

abbrev pub set_gateway : Market → String → Account → Account
set_gateway market gateway a = record {
  id = a.id;
  account_id = a.account_id;
  account_name = a.account_name;
  account_balance = a.account_balance;
  market = market;
  gateway = some gateway;
  last_activity_at = a.last_activity_at;
  settings = a.settings;
}

abbrev pub set_accounts : List Account → Registry → Registry
set_accounts accounts r = record {
  accounts = accounts;
  tokens = r.tokens;
  links = r.links;
  sessions = r.sessions;
}

abbrev pub set_sessions : List BotSession → Registry → Registry
set_sessions sessions r = record {
  accounts = r.accounts;
  tokens = r.tokens;
  links = r.links;
  sessions = sessions;
}

-- The account and its first token, unless a key of either is taken.
unfoldable pub insert_account : Account → ℕ → Registry → Registry
insert_account a token r =
    if not (is_some (at_id a.id r.accounts)) && not (token_taken token r.tokens)
    then record {
      accounts = r.accounts ++ a ∷ [];
      tokens = r.tokens ++ new_link_token a.id token ∷ [];
      links = r.links;
      sessions = r.sessions;
    }
    else r

-- The row of a worker gets its gateway, which the unique constraint refuses where another row
-- has it.
unfoldable pub upsert_gateway :
    Bool → String → Market → String → (new_id token now : ℕ) → Registry → Registry
upsert_gateway up account_id market gateway new_id token now r =
    elim (find (is_worker account_id market (some gateway)) r.accounts) [
      | none ↦
          if up
          then insert_account (new_account new_id account_id none market gateway now) token r
          else r
      | some row ↦
          if up
            && (not (row.gateway == some gateway)
                && not (is_some (find (is_exactly account_id market gateway) r.accounts)))
          then set_accounts (update_account row.id (set_gateway market gateway) r.accounts) r
          else r
    ]

unfoldable pub create_account :
    Bool
    → String
    → Market
    → String
    → Option String
    → (new_id token now : ℕ) → Registry
    → Option Account × Registry
create_account up account_id market gateway account_name new_id token now r =
    let a = new_account new_id account_id account_name market gateway now in
    if up
      && (not (is_some (find (is_exactly account_id market gateway) r.accounts))
          && (not (is_some (at_id new_id r.accounts)) && not (token_taken token r.tokens)))
    then (some a, insert_account a token r)
    else (none, r)

-- `up`, `listed` and `healed` are of the three sessions that the call opens.
unfoldable pub fallback : Bool → ℕ → Option Account → Registry → Option Account × Registry
fallback healed u none r = (none, r)
fallback healed u (some a) r =
    (some a, if healed then set_sessions (point_session u (some a.id) r.sessions) r else r)

-- The active account that the session names, if the user still holds a link to it.
unfoldable pub pointed : ℕ → Registry → Option Account
pointed u r = elim (active_of u r.sessions) [
  | none ↦ none
  | some i ↦ find (λ a. a.id == i && linked a.id u r.links) r.accounts
]

unfoldable pub get_active_account :
    (up listed healed : Bool) → ℕ → Registry → Option Account × Registry
get_active_account up listed healed u r = elim (pointed u r) [
  | some a ↦ if up then (some a, r) else (none, r)
  | none ↦
      if up then fallback healed u (head? (list_by_telegram_user_id listed u r)) r else (none, r)
]

unfoldable pub set_active_account : Bool → ℕ → ℕ → Registry → Option Account × Registry
set_active_account up u i r = elim (find (λ a. a.id == i && linked a.id u r.links) r.accounts) [
  | none ↦ (none, r)
  | some a ↦
      if up then (some a, set_sessions (point_session u (some a.id) r.sessions) r) else (none, r)
]

-- Linking adds, and only what is not there.
abbrev pub new_link : ℕ → ℕ → BotLink
new_link a u = record { account = a; user = u; trade_cards_enabled = false }

abbrev pub add_link : ℕ → ℕ → List BotLink → List BotLink
add_link a u ls = if linked a u ls then ls else ls ++ new_link a u ∷ []

-- What both ways of linking do: the account also becomes the active one unless another is.
unfoldable pub bind_user : ℕ → ℕ → Registry → Registry
bind_user a u r = record {
  accounts = r.accounts;
  tokens = r.tokens;
  links = add_link a u r.links;
  sessions =
      if is_some (active_of u r.sessions) then r.sessions else point_session u (some a) r.sessions;
}

abbrev pub mark_used : ℕ → LinkToken → LinkToken
mark_used now k = record {
  account = k.account;
  token = k.token;
  expires_at = k.expires_at;
  revoked_at = k.revoked_at;
  last_used_at = some now;
}

abbrev pub use_token : ℕ → ℕ → List LinkToken → List LinkToken
use_token t now ks = update_first (λ k. k.token == t) (mark_used now) ks

abbrev pub set_tokens : List LinkToken → Registry → Registry
set_tokens tokens r = record {
  accounts = r.accounts;
  tokens = tokens;
  links = r.links;
  sessions = r.sessions;
}

unfoldable pub link_telegram : Bool → (t u now : ℕ) → Registry → Option Account × Registry
link_telegram up t u now r = elim (find_valid t now r.tokens) [
  | none ↦ (none, r)
  | some k ↦ elim (at_id k.account r.accounts) [
    | none ↦ (none, r)
    | some a ↦
        if up
        then (some a, bind_user a.id u (set_tokens (use_token t now r.tokens) r))
        else (none, r)
  ]
]

unfoldable pub admin_link_telegram : Bool → ℕ → ℕ → Registry → Option Account × Registry
admin_link_telegram up i u r = elim (at_id i r.accounts) [
  | none ↦ (none, r)
  | some a ↦ if up then (some a, bind_user a.id u r) else (none, r)
]

abbrev pub drop_link : ℕ → ℕ → List BotLink → List BotLink
drop_link a u ls = keep (λ l. not (at_link a u l)) ls

abbrev pub set_links : List BotLink → Registry → Registry
set_links links r = record {
  accounts = r.accounts;
  tokens = r.tokens;
  links = links;
  sessions = r.sessions;
}

-- The first account that the user holds besides that one.
unfoldable pub first_other : ℕ → ℕ → Registry → Option ℕ
first_other a u r = Option.map (λ b. b.id) (head? (keep (λ b. not (b.id == a)) (held_by u r)))

unfoldable pub repoint_other : ℕ → ℕ → Registry → Registry
repoint_other a u r = set_sessions (repoint u (first_other a u r) r.sessions) r

unfoldable pub drop_active : ℕ → ℕ → Registry → Registry
drop_active a u r = repoint_other a u (set_links (drop_link a u r.links) r)

unfoldable pub unlink_telegram : (up listed healed dropped : Bool) → ℕ → Registry → Bool × Registry
unlink_telegram up listed healed dropped u r =
    let (found, s) = get_active_account up listed healed u r in
    elim found [
      | none ↦ (false, s)
      | some a ↦ if dropped then (true, drop_active a.id u s) else (false, s)
    ]

abbrev pub revoke : ℕ → ℕ → LinkToken → LinkToken
revoke a now k =
    if k.account == a && not (is_some k.revoked_at)
    then record {
      account = k.account;
      token = k.token;
      expires_at = k.expires_at;
      revoked_at = some now;
      last_used_at = k.last_used_at;
    }
    else k

abbrev pub unpoint : ℕ → BotSession → BotSession
unpoint a s = if s.active == some a then record { user = s.user; active = none } else s

unfoldable pub reset_access : ℕ → ℕ → ℕ → Registry → Registry
reset_access a token now r = record {
  accounts = r.accounts;
  tokens = map (revoke a now) r.tokens ++ new_link_token a token ∷ [];
  links = keep (λ l. not (l.account == a)) r.links;
  sessions = map (unpoint a) r.sessions;
}

unfoldable pub rotate_link_token : Bool → String → ℕ → ℕ → Registry → Option ℕ × Registry
rotate_link_token up account_id token now r =
    elim (find (λ a. a.account_id == account_id) r.accounts) [
      | none ↦ (none, r)
      | some a ↦
          if up && not (token_taken token r.tokens)
          then (some token, reset_access a.id token now r)
          else (none, r)
    ]
