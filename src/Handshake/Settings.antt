-- ===== src/Handshake/Settings.antt =====
-- broker/services/account_settings_service.py and `_parse_strategy_magic_map` of
-- broker/services/nats_service.py: what the stored settings say to a worker.
use algo_trading_broker.Prelude.{
  not, ◌&&◌, ℕ, String, Bool, false, Option, none, some, List, [], ◌∷◌, ltb, if◌then◌else◌, ◌==◌,
  string_eq,
}
use algo_trading_broker.Prelude.Ints.{ℤ, pos}
use algo_trading_broker.Accounts.{Market, Blob}
use algo_trading_broker.Handshake.{compose_worker_id, int_of}

abbrev pub default_max_open_orders : ℕ
default_max_open_orders = 5

abbrev pub default_max_retry_timeout : ℕ
default_max_retry_timeout = 60

-- The number, unless it is missing or negative.
abbrev pub cap_of : Option ℤ → ℕ
cap_of (some (pos n)) = n
cap_of _ = default_max_open_orders

unfoldable pub parse_global_max_open_orders : Option String → ℕ
parse_global_max_open_orders none = default_max_open_orders
parse_global_max_open_orders (some raw) = cap_of (int_of raw)

abbrev pub timeout_of : Option ℤ → ℕ
timeout_of (some (pos n)) = if ltb 0 n then n else default_max_retry_timeout
timeout_of _ = default_max_retry_timeout

-- `_get_max_retry_timeout_seconds`, on what the setting reads as.
unfoldable pub max_retry_timeout : Option String → ℕ
max_retry_timeout none = default_max_retry_timeout
max_retry_timeout (some raw) = timeout_of (int_of raw)

pub record AccountSettings : Type 0 where
  pub signal_blocked : Bool
  pub max_open_orders : Option ℕ

abbrev pub no_settings : AccountSettings
no_settings = record { signal_blocked = false; max_open_orders = none }

unfoldable pub resolve_account_settings : AccountSettings → ℕ → AccountSettings
resolve_account_settings s cap = elim s.max_open_orders [
  | none ↦ record { signal_blocked = s.signal_blocked; max_open_orders = some cap }
  | some n ↦ s
]

-- What the model makes of the value of one field: `none` where it raises, and for the cap `some
-- none` for a null.
pub record Validators : Type 0 where
  pub as_blocked : String → Option Bool
  pub as_cap : String → Option (Option ℕ)

-- `kept[name] = value` of a value that validates, for a field that the model has.
abbrev pub keep_field : Validators → String × String → AccountSettings → AccountSettings
keep_field v e s =
    if e.0 == "signal_blocked"
    then elim (v.as_blocked e.1) [
      | none ↦ s
      | some b ↦ record { signal_blocked = b; max_open_orders = s.max_open_orders }
    ]
    else if e.0 == "max_open_orders"
    then elim (v.as_cap e.1) [
      | none ↦ s
      | some cap ↦ record { signal_blocked = s.signal_blocked; max_open_orders = cap }
    ]
    else s

unfoldable pub keep_fields : Validators → Blob → AccountSettings → AccountSettings
keep_fields v [] s = s
keep_fields v (e ∷ es) s = keep_fields v es (keep_field v e s)

-- `none` is a read that failed.
unfoldable pub parse_account_settings : Validators → Option Blob → AccountSettings
parse_account_settings v none = no_settings
parse_account_settings v (some blob) = keep_fields v blob no_settings

-- The value of the magic map as JSON: missing or blank, unreadable, no object, or an object, whose
-- values are integers or something else.
pub data MagicText : Type 0 where
  blank unreadable no_object : MagicText
  entries : List (String × Option ℤ) → MagicText

-- An object has each key once.
unfoldable pub integers : List (String × Option ℤ) → List (String × ℤ)
integers [] = []
integers (e ∷ es) = let rest = integers es in elim e.1 [ none ↦ rest | some n ↦ (e.0, n) ∷ rest ]

unfoldable pub parse_strategy_magic_map : MagicText → List (String × ℤ)
parse_strategy_magic_map (entries es) = integers es
parse_strategy_magic_map _ = []

-- `push_worker_settings_update`: what it publishes, and the id that it addresses; nothing where the
-- gateway is not known yet or the publish fails.
unfoldable pub push_worker_settings_update :
    Bool → Market → Option String → String → AccountSettings → List (String × AccountSettings)
push_worker_settings_update up m none account_id s = []
push_worker_settings_update up m (some gateway) account_id s =
    if not (gateway == "") && up then (compose_worker_id m gateway account_id, s) ∷ [] else []
