-- ===== src/Handshake/Complete.antt =====
-- What a worker may rely on in the answer to its handshake.
use mathlib.Core.Path.{subst}
use algo_trading_broker.Prelude.{
  ℕ, ◌≤◌, ◌<◌, ◌≡◌, ◌≢◌, ◌⊎◌, refl, sym, ap, String, Bool, true, false, Option, none, some, List,
  [], ◌∷◌, inl, inr, arith, length, All, keep, if◌then◌else◌, ◌==◌, Bool-cases, ltb,
}
use algo_trading_broker.Prelude.Ints.{ℤ, pos, negsuc}
use algo_trading_broker.Prelude.Texts.{Text, codes, split}
use algo_trading_broker.Signals.{member_of}
use algo_trading_broker.Accounts.{Market, market_eq}
use algo_trading_broker.Handshake.{int_of}
use algo_trading_broker.Handshake.Settings.{Validators, resolve_account_settings}
use algo_trading_broker.Handshake.Messages.{
  no_id, text_id, other_value, WorkerConnected, Body, malformed, other_action, refused_payload,
  connected, SystemMessage, CryptoLeverageConfig, Ack, SystemReply, ack, error, Moment, Desk,
}
use algo_trading_broker.Handshake.Answer.{
  no_strategies, get_strategy_magic_map, build_strategy_magic_map, leverage_of, crypto_leverage,
  split_symbols, build_account_settings, get_crypto_settings, remember_worker, error_to, ack_to,
  acknowledge, answer_crypto, answer, handle_body, handle_subject_system,
}

-- The leverage that goes with a market.
abbrev pub Fits : Market → Option CryptoLeverageConfig → Type 0
Fits Market.forex leverage = leverage ≡ none
Fits Market.crypto none = false ≡ true
Fits Market.crypto (some c) = 0 < c.default_leverage

-- The whole configuration of that worker.
pub record IsComplete (e : WorkerConnected) (a : Ack) : Type 0 where
  pub worker : a.account_id ≡ e.account_id
  pub capped : a.settings.max_open_orders ≢ none
  pub announced : All (λ x. member_of x.0 e.strategies ≡ true) a.strategy_magic_map
  pub leverage : Fits e.market a.crypto_leverage_init

abbrev pub IsReply : Option String → Body → SystemReply → Type 0
IsReply reply body (ack target a) =
    (target ≡ reply) × (e : WorkerConnected) × (body ≡ connected e) × IsComplete e a
IsReply reply body (error inbox account_id reason) = reply ≡ some inbox

-- The messages that are left without a reply: those of another action, and a handshake that is
-- refused and whose id is no text.
abbrev pub goes_unanswered : Body → Bool
goes_unanswered other_action = true
goes_unanswered (refused_payload other_value) = true
goes_unanswered _ = false

-- One reply at most, and exactly one to a request when publishing works, these messages apart.
pub record Answered (up : Bool) (reply : Option String) (body : Body) (replies : List SystemReply)
    : Type 0 where
  pub one : length replies ≤ 1
  pub right : All (IsReply reply body) replies
  pub never : goes_unanswered body ≡ true → replies ≡ []
  pub always : up ≡ true → reply ≢ none → goes_unanswered body ≡ false → length replies ≡ 1

error_to-Answered :
    (up : Bool) (reply : Option String) (body : Body) (account_id : Option String) (reason : String)
    → goes_unanswered body ≡ false
    → Answered up reply body (error_to up reply account_id reason)
error_to-Answered true none body account_id reason g = record {
  never = λ n. cc;
  one = omega arith;
  right = tt;
  always = λ u r b. absurd (r refl);
}
error_to-Answered true (some inbox) body account_id reason g = record {
  never = λ n. absurd (cc (n, g));
  one = omega arith;
  right = (refl, tt);
  always = λ u r b. refl;
}
error_to-Answered false reply body account_id reason g = record {
  never = λ n. cc;
  one = omega arith;
  right = tt;
  always = λ u r b. cc;
}

silence-Answered :
    (up : Bool) (reply : Option String) (body : Body)
    → goes_unanswered body ≡ true
    → Answered up reply body []
silence-Answered up reply body g = record {
  one = omega arith;
  right = tt;
  never = λ n. refl;
  always = λ u r b. absurd (cc (b, g));
}

ack_to-Answered :
    (up : Bool) (reply : Option String) (body : Body) (e : WorkerConnected) (a : Ack)
    → body ≡ connected e
    → IsComplete e a
    → Answered up reply body (ack_to up reply a)
ack_to-Answered true reply body e a h c = record {
  never = λ n. absurd (cc (n, ap goes_unanswered h));
  one = omega arith;
  right = ((refl, e, h, c), tt);
  always = λ u r b. refl;
}
ack_to-Answered false reply body e a h c = record {
  never = λ n. cc;
  one = omega arith;
  right = tt;
  always = λ u r b. cc;
}

magic-announced :
    (strategies : List String) (magic : List (String × ℤ))
    → All (λ x. member_of x.0 strategies ≡ true) (keep (λ x. member_of x.0 strategies) magic)
unfolding keep
magic-announced strategies [] = tt
magic-announced strategies (x ∷ xs) = elim (Bool-cases (member_of x.0 strategies)) [
  | inl e ↦
      subst
        (λ b.
          All (λ y. member_of y.0 strategies ≡ true)
            (if b
              then x ∷ keep (λ y. member_of y.0 strategies) xs
              else keep (λ y. member_of y.0 strategies) xs))
        (sym e) (e, magic-announced strategies xs)
  | inr e ↦ rw e (magic-announced strategies xs)
]

built-announced :
    (m : Moment) (strategies : List String) (d : Desk)
    → All (λ x. member_of x.0 strategies ≡ true) (build_strategy_magic_map m strategies d).0
unfolding build_strategy_magic_map
built-announced m strategies d = elim (Bool-cases (no_strategies strategies)) [
  | inl e ↦ rw e tt
  | inr e ↦ rw e (magic-announced strategies (get_strategy_magic_map m d).0)
]

resolved-capped :
    (blocked : Bool) (own : Option ℕ) (cap : ℕ)
    → (resolve_account_settings
        (record { signal_blocked = blocked; max_open_orders = own })
        cap).max_open_orders
      ≢ none
unfolding resolve_account_settings
resolved-capped blocked none cap h = cc
resolved-capped blocked (some n) cap h = cc

abbrev config_or : CryptoLeverageConfig → String ⊎ CryptoLeverageConfig → CryptoLeverageConfig
config_or d (inl reason) = d
config_or d (inr c) = c

leverage_of-positive :
    (symbols : List Text) (n : Option ℤ) (c : CryptoLeverageConfig)
    → leverage_of symbols n ≡ inr c
    → 0 < c.default_leverage
leverage_of-positive symbols none c h = cc
leverage_of-positive symbols (some (pos n)) c h = elim (Bool-cases (ltb 0 n)) [
  | inl e ↦
      let config : CryptoLeverageConfig = record { symbols = symbols; default_leverage = n } in
      let same_config : config ≡ c = ap (config_or c) (rw e at h) in
      subst (λ k. 0 < k.default_leverage) same_config (ground (arith, e))
  | inr e ↦ absurd (cc (rw e at h))
]
leverage_of-positive symbols (some (negsuc n)) c h = cc

crypto_leverage-positive :
    (stored : Option String × Option String) (c : CryptoLeverageConfig)
    → crypto_leverage stored ≡ inr c
    → 0 < c.default_leverage
unfolding crypto_leverage
crypto_leverage-positive (some symbols, some leverage) c h =
    leverage_of-positive (split_symbols (split 44 (codes symbols))) (int_of leverage) c h
crypto_leverage-positive (some symbols, none) c h = cc
crypto_leverage-positive (none, leverage) c h = cc

acknowledge-Answered :
    (v : Validators) (m : Moment) (msg : SystemMessage) (e : WorkerConnected)
    (leverage : Option CryptoLeverageConfig) (d : Desk)
    → msg.body ≡ connected e
    → Fits e.market leverage
    → Answered m.publish_up msg.reply msg.body (acknowledge v m msg e leverage d).0
unfolding acknowledge build_account_settings
acknowledge-Answered v m msg e leverage d h f =
    ack_to-Answered m.publish_up msg.reply msg.body e _ h (record {
      worker = refl;
      capped = resolved-capped _ _ _;
      announced = built-announced m e.strategies d;
      leverage = f;
    })

answer_crypto-Answered :
    (v : Validators) (m : Moment) (msg : SystemMessage) (e : WorkerConnected) (d : Desk)
    (stored : Option String × Option String) (config : String ⊎ CryptoLeverageConfig)
    → msg.body ≡ connected e
    → e.market ≡ Market.crypto
    → crypto_leverage stored ≡ config
    → Answered m.publish_up msg.reply msg.body (answer_crypto v m msg e d config).0
unfolding answer_crypto
answer_crypto-Answered v m msg e d stored (inl reason) h k c =
    error_to-Answered m.publish_up msg.reply msg.body (some e.account_id) reason
      (ap goes_unanswered h)
answer_crypto-Answered v m msg e d stored (inr config) h k c =
    acknowledge-Answered v m msg e (some config) d h
      (subst (λ x. Fits x (some config)) (sym k) (crypto_leverage-positive stored config c))

not_crypto : (m : Market) → (m == Market.crypto) ≡ false → Fits m none
not_crypto Market.forex h = refl
not_crypto Market.crypto h = cc

answer-Answered :
    (v : Validators) (m : Moment) (msg : SystemMessage) (e : WorkerConnected) (d : Desk)
    → msg.body ≡ connected e
    → Answered m.publish_up msg.reply msg.body (answer v m msg e d).0
unfolding answer
answer-Answered v m msg e d h = elim (Bool-cases (e.market == Market.crypto)) [
  | inl k ↦
      let (crypto, after) = get_crypto_settings m d in
      rw k (
        answer_crypto-Answered v m msg e after crypto (crypto_leverage crypto) h
          ((market_eq.decides e.market Market.crypto).0 k) refl)
  | inr k ↦ rw k (acknowledge-Answered v m msg e none d h (not_crypto e.market k))
]

handle_body-Answered :
    (v : Validators) (m : Moment) (msg : SystemMessage) (d : Desk) (body : Body)
    → msg.body ≡ body
    → Answered m.publish_up msg.reply msg.body (handle_body v m msg d body).0
handle_body-Answered v m msg d malformed h =
    error_to-Answered m.publish_up msg.reply msg.body none "malformed JSON" (ap goes_unanswered h)
handle_body-Answered v m msg d other_action h =
    silence-Answered m.publish_up msg.reply msg.body (ap goes_unanswered h)
handle_body-Answered v m msg d (refused_payload no_id) h =
    error_to-Answered m.publish_up msg.reply msg.body none "invalid WORKER_CONNECTED payload"
      (ap goes_unanswered h)
handle_body-Answered v m msg d (refused_payload (text_id account_id)) h =
    error_to-Answered m.publish_up msg.reply msg.body (some account_id)
      "invalid WORKER_CONNECTED payload" (ap goes_unanswered h)
handle_body-Answered v m msg d (refused_payload other_value) h =
    silence-Answered m.publish_up msg.reply msg.body (ap goes_unanswered h)
handle_body-Answered v m msg d (connected e) h = answer-Answered v m msg e (remember_worker m e d) h

-- Whatever is stored and cached and whichever reads fail, a message gets one reply at most: none if
-- its action is another one, or if its payload is refused and the id in it is no text; otherwise
-- exactly one if it is a request and the publish works. Data that is no UTF-8 is left out. An acknowledgement
-- answers a handshake with its worker's id, a concrete cap, magic numbers of announced strategies
-- only, and a positive leverage if the worker trades crypto and none otherwise.
pub handle_subject_system-Answered :
    (v : Validators) (m : Moment) (msg : SystemMessage) (d : Desk)
    → Answered m.publish_up msg.reply msg.body (handle_subject_system v m msg d).0
unfolding handle_subject_system
handle_subject_system-Answered v m msg d = handle_body-Answered v m msg d msg.body refl
