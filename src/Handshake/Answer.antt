-- ===== src/Handshake/Answer.antt =====
-- broker/services/nats_service.py, `SystemEventConsumer`: one message on the SYSTEM subject.
use algo_trading_broker.Prelude.{
  ℕ, ◌+◌, String, Bool, true, false, Option, none, some, List, [], ◌∷◌, ltb, if◌then◌else◌, keep,
  ◌==◌, string_eq, ◌⊎◌, inl, inr,
}
use algo_trading_broker.Prelude.Ints.{ℤ, pos, negsuc}
use algo_trading_broker.Prelude.Texts.{Text, codes, split, strip}
use algo_trading_broker.Core.{uuid}
use algo_trading_broker.Webhook.{TradingSignal, parse_signal}
use algo_trading_broker.Signals.{Raw, payload_object, member_of, list_recent_by_strategies}
use algo_trading_broker.Accounts.{Market, market_eq, Registry}
use algo_trading_broker.Accounts.Operations.{upsert_gateway}
use algo_trading_broker.Accounts.Calls.{get_settings}
use algo_trading_broker.Handshake.{decompose_worker_id, int_of}
use algo_trading_broker.Handshake.Settings.{
  AccountSettings, Validators, parse_strategy_magic_map, parse_account_settings,
  parse_global_max_open_orders, resolve_account_settings, max_retry_timeout,
}
use algo_trading_broker.Handshake.Messages.{
  IdValue, no_id, text_id, other_value, WorkerConnected, Body, SystemMessage, CryptoLeverageConfig,
  Ack, SystemReply, Moment, Desk, malformed, other_action, refused_payload, connected, ack, error,
}

abbrev pub cache_ttl : ℕ
cache_ttl = 30

-- A cached value that is not too old.
abbrev pub fresh {ℓ} : {A : Type ℓ} → ℕ → Option (A × ℕ) → Option A
fresh now none = none
fresh now (some c) = if ltb now (c.1 + cache_ttl) then some c.0 else none

abbrev pub read_if {ℓ} : {A : Type ℓ} → Bool → Option A → Option A
read_if up x = if up then x else none

unfoldable pub get_crypto_settings : Moment → Desk → (Option String × Option String) × Desk
get_crypto_settings m d =
    let read : Option String × Option String =
      (read_if m.crypto_up m.stored.crypto_symbols, read_if m.crypto_up m.stored.crypto_leverage) in
    elim (fresh m.monotonic d.crypto_cache) [
      | some v ↦ (v, d)
      | none ↦ (read, record d { crypto_cache = some (read, m.monotonic) })
    ]

unfoldable pub get_strategy_magic_map : Moment → Desk → List (String × ℤ) × Desk
get_strategy_magic_map m d =
    let read = if m.magic_up then parse_strategy_magic_map m.stored.magic_map else [] in
    elim (fresh m.monotonic d.magic_cache) [
      | some v ↦ (v, d)
      | none ↦ (read, record d { magic_cache = some (read, m.monotonic) })
    ]

abbrev pub no_strategies : List String → Bool
no_strategies [] = true
no_strategies (s ∷ ss) = false

unfoldable pub build_strategy_magic_map : Moment → List String → Desk → List (String × ℤ) × Desk
build_strategy_magic_map m strategies d =
    let (magic, after) = get_strategy_magic_map m d in
    if no_strategies strategies
    then ([], d)
    else (keep (λ e. member_of e.0 strategies) magic, after)

-- `[s.strip() for s in raw.split(",") if s.strip()]`.
abbrev pub has_text : Text → Bool
has_text [] = false
has_text (c ∷ cs) = true

unfoldable pub split_symbols : List Text → List Text
split_symbols [] = []
split_symbols (t ∷ ts) =
    let rest = split_symbols ts in if has_text (strip t) then strip t ∷ rest else rest

abbrev pub leverage_of : List Text → Option ℤ → String ⊎ CryptoLeverageConfig
leverage_of symbols none = inl "crypto_max_leverage is not an integer"
leverage_of symbols (some (pos n)) =
    if ltb 0 n
    then inr (record { symbols = symbols; default_leverage = n })
    else inl "crypto_max_leverage must be a positive integer"
leverage_of symbols (some (negsuc n)) = inl "crypto_max_leverage must be a positive integer"

-- The reason of the refusal, or the configuration.
unfoldable pub crypto_leverage : Option String × Option String → String ⊎ CryptoLeverageConfig
crypto_leverage (some symbols, some leverage) =
    leverage_of (split_symbols (split 44 (codes symbols))) (int_of leverage)
crypto_leverage _ = inl "crypto settings not configured"

unfoldable pub replayed : List (ℕ × Raw) → List TradingSignal
replayed [] = []
replayed (e ∷ es) =
    let rest = replayed es in
    elim e.1 [ payload_object p ↦ parse_signal p (uuid e.0) ∷ rest | _ ↦ rest ]

unfoldable pub build_retry_signals : Moment → List String → List TradingSignal
build_retry_signals m strategies =
    if no_strategies strategies
    then []
    else replayed (
        list_recent_by_strategies m.signals_up m.now strategies
          (max_retry_timeout (read_if m.retry_up m.stored.max_retry_timeout)) m.signals)

abbrev pub bare_id : WorkerConnected → String
bare_id e = decompose_worker_id e.account_id e.market e.gateway

unfoldable pub build_account_settings :
    Validators → Moment → WorkerConnected → Registry → AccountSettings
build_account_settings v m e r =
    resolve_account_settings
      (parse_account_settings v
        (some (get_settings m.accounts_up (bare_id e) e.market e.gateway r)))
      (parse_global_max_open_orders (read_if m.cap_up m.stored.max_open_orders))

abbrev pub remember_worker : Moment → WorkerConnected → Desk → Desk
remember_worker m e d = record d {
  registry =
      upsert_gateway m.remember_up (bare_id e) e.market e.gateway m.account_new m.token_new m.now
        d.registry;
}

-- `_reply_error`: nothing without an inbox, and nothing when the publish fails.
abbrev pub error_to : Bool → Option String → Option String → String → List SystemReply
error_to true (some inbox) account_id reason = error inbox account_id reason ∷ []
error_to _ _ _ _ = []

abbrev pub reply_error : Moment → SystemMessage → Option String → String → List SystemReply
reply_error m msg account_id reason = error_to m.publish_up msg.reply account_id reason

-- `_reply_ack`.
abbrev pub ack_to : Bool → Option String → Ack → List SystemReply
ack_to true reply a = ack reply a ∷ []
ack_to false reply a = []

abbrev pub reply_ack : Moment → SystemMessage → Ack → List SystemReply
reply_ack m msg a = ack_to m.publish_up msg.reply a

-- The rest of the handshake of a worker whose market needs no more than that leverage.
unfoldable pub acknowledge :
    Validators
    → Moment
    → SystemMessage
    → WorkerConnected
    → Option CryptoLeverageConfig
    → Desk
    → List SystemReply × Desk
acknowledge v m msg e leverage d =
    let (magic, after) = build_strategy_magic_map m e.strategies d in
    (
      reply_ack m msg (record {
        account_id = e.account_id;
        strategy_magic_map = magic;
        retry_signals = build_retry_signals m e.strategies;
        settings = build_account_settings v m e after.registry;
        crypto_leverage_init = leverage;
      }),
      after,
    )

unfoldable pub answer_crypto :
    Validators
    → Moment
    → SystemMessage
    → WorkerConnected
    → Desk
    → String ⊎ CryptoLeverageConfig
    → List SystemReply × Desk
answer_crypto v m msg e d (inl reason) = (reply_error m msg (some e.account_id) reason, d)
answer_crypto v m msg e d (inr config) = acknowledge v m msg e (some config) d

unfoldable pub answer :
    Validators → Moment → SystemMessage → WorkerConnected → Desk → List SystemReply × Desk
answer v m msg e d =
    let (crypto, after) = get_crypto_settings m d in
    if e.market == Market.crypto
    then answer_crypto v m msg e after (crypto_leverage crypto)
    else acknowledge v m msg e none d

-- The error of a payload that was refused. `SystemWorkerConnectedError` takes a text or nothing as
-- the id and raises for another value, which `_reply_error` logs: then no reply goes out.
abbrev pub reply_refused : Moment → SystemMessage → IdValue → List SystemReply
reply_refused m msg no_id = reply_error m msg none "invalid WORKER_CONNECTED payload"
reply_refused m msg (text_id account_id) =
    reply_error m msg (some account_id) "invalid WORKER_CONNECTED payload"
reply_refused m msg other_value = []

abbrev pub handle_body : Validators → Moment → SystemMessage → Desk → Body → List SystemReply × Desk
handle_body v m msg d malformed = (reply_error m msg none "malformed JSON", d)
handle_body v m msg d other_action = ([], d)
handle_body v m msg d (refused_payload account_id) = (reply_refused m msg account_id, d)
handle_body v m msg d (connected e) = answer v m msg e (remember_worker m e d)

unfoldable pub handle_subject_system :
    Validators → Moment → SystemMessage → Desk → List SystemReply × Desk
handle_subject_system v m msg d = handle_body v m msg d msg.body
