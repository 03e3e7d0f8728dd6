-- ===== src/Examples/Owners.antt =====
-- Accounts, their owners and the workers on them, on concrete rows.
use algo_trading_broker.Prelude.{
  last?, or_else, not, ◌&&◌, nat_eq, ℕ, ◌≡◌, ◌≢◌, ◌↔◌, refl, true, false, none, some, List, [], ◌∷◌,
  arith, ◌==◌, string_eq,
}
use algo_trading_broker.Prelude.Texts.{codes}
use algo_trading_broker.Prelude.Ints.{pos}
use algo_trading_broker.Prelude.Finds.{any, find}
use algo_trading_broker.Accounts.{Market, Account, Registry, new_link_token, linked, active_of}
use algo_trading_broker.Accounts.Operations.{get_active_account, rotate_link_token, link_telegram}
use algo_trading_broker.Accounts.Calls.{Call, claim, leave, ask, apply_all}
use algo_trading_broker.Accounts.Pointers.{IsRegistry}
use algo_trading_broker.Accounts.Kept.{apply_all-IsRegistry}
use algo_trading_broker.Accounts.Held.{holds_any}
use algo_trading_broker.Accounts.Active.{get_active-linked}
use algo_trading_broker.Accounts.Tokens.{owner}
use algo_trading_broker.Accounts.Rotation.{rotate-resets, rotate-ends_token}
use algo_trading_broker.Trade.{TradeStatus}
use algo_trading_broker.Trade.Events.{TradeRow}
use algo_trading_broker.Trade.Queries.{owns, get_for_telegram_user, rotate-hides}
use algo_trading_broker.Handshake.Settings.{Validators, blank, parse_account_settings}
use algo_trading_broker.Handshake.Messages.{connected, SystemMessage, Moment, Desk}
use algo_trading_broker.Handshake.Answer.{handle_subject_system}
use algo_trading_broker.Handshake.Complete.{Answered, handle_subject_system-Answered}
use algo_trading_broker.Handshake.Fields.{valid_values, parse_account_settings-fieldwise}

abbrev owned : Account
owned = record {
  id = 1;
  account_id = "7654321";
  account_name = none;
  account_balance = none;
  market = Market.crypto;
  gateway = some "BINANCE";
  last_activity_at = some 10;
  settings = ("signal_blocked", "true") ∷ ("max_open_orders", "garbage") ∷ [];
}

-- User 7 drives the account; its token is 11.
abbrev one_owner : Registry
one_owner = record {
  accounts = owned ∷ [];
  tokens = new_link_token 1 11 ∷ [];
  links = record { account = 1; user = 7; trade_cards_enabled = false } ∷ [];
  sessions = record { user = 7; active = some 1 } ∷ [];
}

one_owner-IsRegistry : IsRegistry one_owner
unfolding any find active_of
one_owner-IsRegistry = record {
  one_account = (refl, tt);
  one_token = (refl, tt);
  one_link = (refl, tt);
  one_session = (refl, tt);
  pointers = λ a u h. ground (arith, h);
}

abbrev some_calls : List Call
some_calls = claim true 11 8 100 ∷ leave true true false true 7 ∷ ask true true true 8 ∷ []

apply_all-IsRegistry_example : IsRegistry (apply_all some_calls one_owner)
apply_all-IsRegistry_example = apply_all-IsRegistry some_calls one_owner one_owner-IsRegistry

get_active-linked_example :
    (((get_active_account true true false 7 one_owner).0 ≡ none) ↔ (holds_any 7 one_owner ≡ false))
    × ((a : Account)
        → (get_active_account true true false 7 one_owner).0 ≡ some a
        → linked a.id 7 one_owner.links ≡ true)
get_active-linked_example = get_active-linked false 7 one_owner

named : find (λ b. b.account_id == "7654321") one_owner.accounts ≡ some owned
unfolding find
named = refl

rotates : (rotate_link_token true "7654321" 12 100 one_owner).0 ≡ some 12
unfolding rotate_link_token find any
rotates = refl

issued : owner 11 one_owner.tokens ≡ some 1
unfolding owner find
issued = refl

rotate-resets_example :
    (linked 1 7 (rotate_link_token true "7654321" 12 100 one_owner).1.links ≡ false)
    × (active_of 7 (rotate_link_token true "7654321" 12 100 one_owner).1.sessions ≢ some 1)
    × ((b : ℕ)
        → b ≢ 1
        → linked b 7 (rotate_link_token true "7654321" 12 100 one_owner).1.links
          ≡ linked b 7 one_owner.links)
rotate-resets_example = rotate-resets true "7654321" 12 100 one_owner owned named rotates 7

rotate-ends_token_example :
    link_telegram true 11 9 300
      (apply_all some_calls (rotate_link_token true "7654321" 12 100 one_owner).1)
    ≡ (none, apply_all some_calls (rotate_link_token true "7654321" 12 100 one_owner).1)
rotate-ends_token_example =
    rotate-ends_token true "7654321" 12 100 one_owner owned 11 one_owner-IsRegistry named rotates
      issued some_calls true 9 300

-- A `true` blocks, and no text is a cap.
abbrev strict : Validators
strict = record { as_blocked = λ t. some (t == "true"); as_cap = λ t. none }

abbrev connect : SystemMessage
connect = record {
  body = connected (record {
    account_id = "CRYPTO-BINANCE-7654321";
    market = Market.crypto;
    gateway = "BINANCE";
    strategies = "trend" ∷ [];
  });
  reply = some "_INBOX.1";
}

abbrev quiet_moment : Moment
quiet_moment = record {
  monotonic = 5;
  now = 1000;
  stored = record {
    crypto_symbols = some "BTC, ETH";
    crypto_leverage = some "10";
    magic_map = blank;
    max_retry_timeout = none;
    max_open_orders = some "3";
  };
  signals = [];
  account_new = 2;
  token_new = 13;
  remember_up = true;
  accounts_up = true;
  crypto_up = true;
  magic_up = true;
  retry_up = true;
  cap_up = true;
  signals_up = true;
  publish_up = true;
}

abbrev new_desk : Desk
new_desk = record { registry = one_owner; crypto_cache = none; magic_cache = none }

handle_subject_system-Answered_example :
    Answered true
      (some "_INBOX.1")
      connect.body
      (handle_subject_system strict quiet_moment connect new_desk).0
handle_subject_system-Answered_example =
    handle_subject_system-Answered strict quiet_moment connect new_desk

parse_account_settings-fieldwise_example :
    ((parse_account_settings strict (some owned.settings)).signal_blocked
      ≡ or_else (last? (valid_values strict.as_blocked "signal_blocked" owned.settings)) false)
    × ((parse_account_settings strict (some owned.settings)).max_open_orders
        ≡ or_else (last? (valid_values strict.as_cap "max_open_orders" owned.settings)) none)
parse_account_settings-fieldwise_example = parse_account_settings-fieldwise strict owned.settings

abbrev owned_trade : TradeRow
owned_trade = record {
  id = 5;
  account_id = "7654321";
  market = some Market.crypto;
  gateway = some "BINANCE";
  account_leverage = none;
  account_balance_init = none;
  account_balance = none;
  strategy = "trend";
  strategy_code = "";
  ref_id = some "ref";
  symbol = "BTCUSDT";
  action = codes "LONG";
  price = pos 100;
  quantity = pos 1;
  sl = none;
  tp1 = none;
  tp2 = none;
  is_running = true;
  risk_percent = pos 0;
  comment = none;
  gateway_return_code = none;
  status = TradeStatus.opened;
  last_action = some "OPENED";
  reject_reason = none;
}

only_owned : any (λ b. owns b owned_trade && not (b.id == 1)) one_owner.accounts ≡ false
unfolding any owns
only_owned = refl

rotate-hides_example :
    get_for_telegram_user true 5 7
      (rotate_link_token true "7654321" 12 100 one_owner).1
      (owned_trade ∷ [])
    ≢ some owned_trade
rotate-hides_example =
    rotate-hides true "7654321" 12 100 one_owner owned owned_trade named rotates only_owned true 5 7
      (owned_trade ∷ [])
