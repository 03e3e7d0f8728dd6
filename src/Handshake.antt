-- ===== src/Handshake.antt =====
-- broker/services/nats_service.py, `SystemEventConsumer`, with broker/services/account_settings_service.py
-- and the worker ids of broker/schemas/account_schema.py: how a worker that connects is answered
-- with its whole configuration. `json.loads` and the payload schemas have done their work: what a
-- message or a setting decodes to is data here. What pydantic makes of one value of an account's
-- settings is a parameter. Seconds are whole.
pub mod Settings
pub mod Messages
pub mod Answer
pub mod Ids
pub mod Complete
pub mod Fields
use mathlib.Core.Option
use Prim.Native.Char.{code}
use algo_trading_broker.Prelude.{
  ℕ, zero, suc, ◌+◌, ◌-◌, ◌*◌, String, Bool, true, false, not, ◌&&◌, ◌||◌, Option, none, some, List,
  [], ◌∷◌, ◌++◌, leb, ltb, is_some, if◌then◌else◌, keep, ◌==◌, nat_eq, string_eq,
}
use algo_trading_broker.Prelude.Ints.{ℤ, pos, negsuc}
use algo_trading_broker.Prelude.Texts.{Text, codes, strip}
use algo_trading_broker.Accounts.{Market}

abbrev pub market_value : Market → String
market_value Market.forex = "FOREX"
market_value Market.crypto = "CRYPTO"

-- The concatenation of an f-string.
abbrev pub append : String → String → String
append String.[] s = s
append (String.◌∷◌ c p) s = String.◌∷◌ c (append p s)

-- `f"{market}-{gateway}-"`.
unfoldable pub worker_prefix : Market → String → String
worker_prefix m gateway = append (market_value m) (append "-" (append gateway "-"))

unfoldable pub compose_worker_id : Market → String → String → String
compose_worker_id m gateway account_id = append (worker_prefix m gateway) account_id

unfoldable pub strip_prefix : String → String → Option String
strip_prefix String.[] s = some s
strip_prefix (String.◌∷◌ c p) String.[] = none
strip_prefix (String.◌∷◌ c p) (String.◌∷◌ d s) =
    let rest = strip_prefix p s in if code c == code d then rest else none

-- `s.removeprefix(p)`.
abbrev pub remove_prefix : String → String → String
remove_prefix p s = elim (strip_prefix p s) [ none ↦ s | some rest ↦ rest ]

unfoldable pub decompose_worker_id : String → Market → String → String
decompose_worker_id worker_id m gateway = remove_prefix (worker_prefix m gateway) worker_id

abbrev pub is_digit : ℕ → Bool
is_digit c = leb 48 c && leb c 57

-- The digits of a number after its first, of which single underscores may stand between two.
unfoldable pub more_digits : ℕ → Text → Option ℕ
more_digits n [] = some n
more_digits n (c ∷ []) = if is_digit c then some (n * 10 + (c - 48)) else none
more_digits n (c ∷ d ∷ cs) =
    let plain = more_digits (n * 10 + (c - 48)) (d ∷ cs) in
    let skipped = more_digits (n * 10 + (d - 48)) cs in
    if is_digit c then plain else if c == 95 && is_digit d then skipped else none

unfoldable pub natural : Text → Option ℕ
natural [] = none
natural (c ∷ cs) = if is_digit c then more_digits (c - 48) cs else none

abbrev pub negative : ℕ → ℤ
negative zero = pos 0
negative (suc n) = negsuc n

-- `int(raw)` of an ASCII text, `none` where it raises.
unfoldable pub int_of_text : Text → Option ℤ
int_of_text [] = none
int_of_text (c ∷ cs) =
    if c == 45
    then Option.map negative (natural cs)
    else if c == 43
    then Option.map pos (natural cs)
    else Option.map pos (natural (c ∷ cs))

unfoldable pub int_of : String → Option ℤ
int_of raw = int_of_text (strip (codes raw))
