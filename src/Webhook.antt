-- ===== src/Webhook.antt =====
-- broker/schemas/webhook_schema.py, broker/helpers/uxid_helper.py and broker/helpers/signal_helper.py:
-- the validated alert, its cycle id, and the signal that is built from it for the workers.
-- Amounts are integers in units of 10⁻⁸, a timestamp is its ISO text (the program only prints it),
-- and the fields of `indicators` and `inputs` that nothing reads are one opaque text each.
pub mod Uxid
pub mod Signal
use algo_trading_broker.Prelude.{
  ℕ, String, Bool, true, false, ◌&&◌, ◌||◌, Option, none, some, List, [], ◌∷◌, leb, nat_beq, length,
  or_else, if◌then◌else◌,
}
use algo_trading_broker.Prelude.Ints.{ℤ, pos, or_zero}
use algo_trading_broker.Prelude.Texts.{Text, upper, strip, split, last_piece}
use algo_trading_broker.Core.{SignalAction, IdText}

pub record ScalingSchema : Type 0 where
  pub tp : Option ℤ
  pub sl : Option ℤ
  pub quantity : Option ℤ

pub record PositionSchema : Type 0 where
  pub action : SignalAction
  pub price : Option ℤ
  pub quantity : Option ℤ
  pub sl : Option ℤ
  pub tp1 : Option ℤ
  pub tp2 : Option ℤ
  pub risk_percent : Option ℤ
  pub tp1_percent : Option ℤ
  pub use_equity_sizing : Option Bool
  pub move_sl_to_be : Option Bool
  pub is_running : Option Bool
  pub is_scale_position : Option Bool
  pub scale_strategy : Option String
  pub scaling : Option ScalingSchema

pub record InputsSchema : Type 0 where
  pub risk_percent : Option ℤ
  pub others : String

pub record WebhookPayload : Type 0 where
  pub strategy : String
  pub symbol : Text
  pub timeframe : String
  pub timestamp : String
  pub signal_uxid : Text
  pub position : PositionSchema
  pub indicators : Option String
  pub inputs : Option InputsSchema
  pub token : String

abbrev pub uxid_length : ℕ
uxid_length = 16

-- One character of `[0-9A-F]`.
unfoldable pub is_hex : ℕ → Bool
is_hex c = leb 48 c && leb c 57 || leb 65 c && leb c 70

unfoldable pub all_hex : Text → Bool
unfolding is_hex
all_hex [] = true
all_hex (c ∷ t) = is_hex c && all_hex t

-- `UXID_PATTERN.fullmatch(value)`.
unfoldable pub is_valid_uxid : Text → Bool
unfolding all_hex
is_valid_uxid value = nat_beq (length value) uxid_length && all_hex value

-- `_fill_or_validate_uxid`: `fresh` is what `new_uxid()` returns, `none` is the `ValueError`.
unfoldable pub fill_or_validate_uxid : Text → Option Text → Option Text
fill_or_validate_uxid fresh none = some fresh
fill_or_validate_uxid fresh (some value) =
    let text = strip value in
    if nat_beq (length text) 0
    then some fresh
    else let normalised = upper text in if is_valid_uxid normalised then some normalised else none

pub record TradingSignal : Type 0 where
  pub signal_id : IdText
  pub signal_uxid : Text
  pub strategy : String
  pub action : SignalAction
  pub symbol : Text
  pub price : ℤ
  pub quantity : ℤ
  pub sl : Option ℤ
  pub tp1 : Option ℤ
  pub tp2 : Option ℤ
  pub tp1_percent : Option ℤ
  pub move_sl_to_be : Option Bool
  pub is_running : Bool
  pub risk_percent : ℤ
  pub use_equity_sizing : Option Bool
  pub is_scale_position : Option Bool
  pub scale_strategy : Option String
  pub scaling : Option ScalingSchema

-- `payload.symbol.split(":")[-1].upper().strip()`.
unfoldable pub normalise_symbol : Text → Text
normalise_symbol symbol = strip (upper (last_piece (split 58 symbol)))

-- The risk that both the stored row and the published signal carry: the position's, then the
-- inputs', then zero.
unfoldable pub effective_risk : WebhookPayload → ℤ
effective_risk payload = elim payload.position.risk_percent [
  | some r ↦ r
  | none ↦ elim payload.inputs [ some i ↦ or_else i.risk_percent (pos 0) | none ↦ pos 0 ]
]

-- Python's truth of an optional Boolean.
abbrev pub truthy : Option Bool → Bool
truthy (some true) = true
truthy _ = false

unfoldable pub parse_signal : WebhookPayload → IdText → TradingSignal
unfolding normalise_symbol effective_risk
parse_signal payload signal_id =
    let position = payload.position in
    let scales = truthy position.is_scale_position in
    record {
      signal_id = signal_id;
      signal_uxid = payload.signal_uxid;
      strategy = payload.strategy;
      action = position.action;
      symbol = normalise_symbol payload.symbol;
      price = or_zero position.price;
      quantity = or_zero position.quantity;
      sl = position.sl;
      tp1 = position.tp1;
      tp2 = position.tp2;
      tp1_percent = position.tp1_percent;
      move_sl_to_be = position.move_sl_to_be;
      is_running = or_else position.is_running false;
      risk_percent = effective_risk payload;
      use_equity_sizing = position.use_equity_sizing;
      is_scale_position = position.is_scale_position;
      scale_strategy = if scales then position.scale_strategy else none;
      scaling = if scales then position.scaling else none;
    }
