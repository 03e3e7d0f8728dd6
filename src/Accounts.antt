-- ===== src/Accounts.antt =====
-- broker/db/repository/account.py over the tables of broker/db/models.py: accounts, the tokens that
-- invite a user to one, the links of users to accounts, and which account each user drives.
-- Tables are lists in the order of creation, which is also the order in which an unordered select
-- is taken to answer. There is one platform, so its column is left out; a user is the number that
-- `platform_user_id` is the text of; ids and tokens are the numbers of UUIDs. `up` says whether
-- the session of one call commits; `uuid4()` and the clock are arguments.
pub mod Operations
pub mod Calls
pub mod Lookups
pub mod Pointers
pub mod Rows
pub mod Kept
pub mod Held
pub mod Active
pub mod Tokens
pub mod Rotation
use algo_trading_broker.Prelude.{
  ℕ, ◌≡◌, ◌↔◌, String, Bool, true, false, not, ◌&&◌, ◌||◌, Option, none, some, List, [], ◌∷◌, ◌++◌,
  map, ltb, is_some, if◌then◌else◌, keep, ◌==◌, nat_eq, string_eq, option_eq, arith, Equality,
}
use algo_trading_broker.Prelude.Ints.{ℤ}
use algo_trading_broker.Prelude.Finds.{any, find, update_first, head?}

pub data Market : Type 0 where
  forex crypto : Market

abbrev pub market_beq : Market → Market → Bool
market_beq Market.forex Market.forex = true
market_beq Market.crypto Market.crypto = true
market_beq _ _ = false

pub market_beq_iff : (a b : Market) → (market_beq a b ≡ true) ↔ (a ≡ b)
market_beq_iff a b = ground arith

instance abbrev pub market_eq : Equality Market
market_eq = record { same = market_beq; decides = market_beq_iff }

-- The keys of a JSON object, each with the text of its value.
abbrev pub Blob : Type 0
Blob = List (String × String)

pub record Account : Type 0 where
  pub id : ℕ
  pub account_id : String
  pub account_name : Option String
  pub account_balance : Option ℤ
  pub market : Market
  pub gateway : Option String
  pub last_activity_at : Option ℕ
  pub settings : Blob

pub record BotLink : Type 0 where
  pub account : ℕ
  pub user : ℕ
  pub trade_cards_enabled : Bool

pub record LinkToken : Type 0 where
  pub account : ℕ
  pub token : ℕ
  pub expires_at : Option ℕ
  pub revoked_at : Option ℕ
  pub last_used_at : Option ℕ

pub record BotSession : Type 0 where
  pub user : ℕ
  pub active : Option ℕ

pub record Registry : Type 0 where
  pub accounts : List Account
  pub tokens : List LinkToken
  pub links : List BotLink
  pub sessions : List BotSession

-- `_new_link_token`.
abbrev pub new_link_token : ℕ → ℕ → LinkToken
new_link_token a token = record {
  account = a;
  token = token;
  expires_at = none;
  revoked_at = none;
  last_used_at = none;
}

-- The account of a worker: its gateway, or a row whose gateway is not known yet.
abbrev pub is_worker : String → Market → Option String → Account → Bool
is_worker account_id market gateway a =
    a.account_id == account_id
    && (a.market == market
        && (elim gateway [ none ↦ false | some g ↦ a.gateway == some g ]
            || not (is_some a.gateway)))

-- Exactly the key that the unique constraint of the table is about.
abbrev pub is_exactly : String → Market → String → Account → Bool
is_exactly account_id market gateway a =
    a.account_id == account_id && (a.market == market && a.gateway == some gateway)

abbrev pub at_link : ℕ → ℕ → BotLink → Bool
at_link a u l = l.account == a && l.user == u

abbrev pub linked : ℕ → ℕ → List BotLink → Bool
linked a u ls = any (at_link a u) ls

abbrev pub of_user : ℕ → BotSession → Bool
of_user u s = s.user == u

-- The account that the session of a user points at.
unfoldable pub active_of : ℕ → List BotSession → Option ℕ
active_of u ss = elim (find (of_user u) ss) [ none ↦ none | some s ↦ s.active ]

-- `bot_session.active_account_id = p`.
abbrev pub point_at : Option ℕ → BotSession → BotSession
point_at p s = record { user = s.user; active = p }

abbrev pub repoint : ℕ → Option ℕ → List BotSession → List BotSession
repoint u p ss = update_first (of_user u) (point_at p) ss

-- The session is created where there is none, and assigned where there is one.
unfoldable pub point_session : ℕ → Option ℕ → List BotSession → List BotSession
point_session u p ss =
    if any (of_user u) ss then repoint u p ss else ss ++ record { user = u; active = p } ∷ []

abbrev pub token_taken : ℕ → List LinkToken → Bool
token_taken t ks = any (λ k. k.token == t) ks

-- Neither revoked nor expired.
unfoldable pub is_valid : ℕ → LinkToken → Bool
is_valid now k =
    not (is_some k.revoked_at) && elim k.expires_at [ none ↦ true | some e ↦ ltb now e ]

unfoldable pub find_valid : ℕ → ℕ → List LinkToken → Option LinkToken
find_valid t now ks = find (λ k. k.token == t && is_valid now k) ks

-- `ORDER BY last_activity_at DESC`, in which Postgres puts the empty ones first.
abbrev pub is_later : Option ℕ → Option ℕ → Bool
is_later _ none = false
is_later none (some b) = true
is_later (some a) (some b) = ltb b a

unfoldable pub place : Account → List Account → List Account
place a [] = a ∷ []
place a (b ∷ bs) =
    let rest = place a bs in
    if is_later b.last_activity_at a.last_activity_at then b ∷ rest else a ∷ b ∷ bs

-- Rows of equal activity stay in the order of creation.
unfoldable pub by_activity : List Account → List Account
by_activity [] = []
by_activity (a ∷ rest) = place a (by_activity rest)

unfoldable pub get_all : Bool → Registry → List Account
get_all up r = if up then by_activity r.accounts else []

unfoldable pub get_by_market : Bool → Market → Registry → List Account
get_by_market up m r = if up then by_activity (keep (λ a. a.market == m) r.accounts) else []

-- The join with the links, which are one at most for an account and a user.
unfoldable pub held_by : ℕ → Registry → List Account
held_by u r = by_activity (keep (λ a. linked a.id u r.links) r.accounts)

unfoldable pub list_by_telegram_user_id : Bool → ℕ → Registry → List Account
list_by_telegram_user_id up u r = if up then held_by u r else []

pub record LinkSummary : Type 0 where
  pub account : ℕ
  pub link_token : Option ℕ
  pub linked_user_ids : List ℕ

-- `summaries.setdefault(a, AccountLinkSummary())`, then the assignment.
unfoldable pub summarise : ℕ → (LinkSummary → LinkSummary) → List LinkSummary → List LinkSummary
summarise a f [] = f (record { account = a; link_token = none; linked_user_ids = [] }) ∷ []
summarise a f (s ∷ ss) =
    let rest = summarise a f ss in if s.account == a then f s ∷ ss else s ∷ rest

abbrev pub has_id : ℕ → List ℕ → Bool
has_id a ids = any (λ b. b == a) ids

unfoldable pub token_summaries : List ℕ → ℕ → List LinkToken → List LinkSummary → List LinkSummary
token_summaries ids now [] out = out
token_summaries ids now (k ∷ ks) out = token_summaries ids now ks (
    if has_id k.account ids && is_valid now k
    then summarise k.account
        (λ s. record {
          account = s.account;
          link_token = some k.token;
          linked_user_ids = s.linked_user_ids;
        })
        out
    else out)

unfoldable pub user_summaries : List ℕ → List BotLink → List LinkSummary → List LinkSummary
user_summaries ids [] out = out
user_summaries ids (l ∷ ls) out = user_summaries ids ls (
    if has_id l.account ids
    then summarise l.account
        (λ s. record {
          account = s.account;
          link_token = s.link_token;
          linked_user_ids = s.linked_user_ids ++ l.user ∷ [];
        })
        out
    else out)

unfoldable pub get_link_summaries : Bool → List ℕ → ℕ → Registry → List LinkSummary
get_link_summaries up ids now r =
    if up then user_summaries ids r.links (token_summaries ids now r.tokens []) else []
