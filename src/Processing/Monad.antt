-- ===== src/Processing/Monad.antt =====
-- Methods that change the world of the service and may raise: what was done before a raise stays
-- done, so the world comes back beside the exception too.
use algo_trading_broker.Prelude.{ℕ, String, List, Option}
use algo_trading_broker.Prelude.Texts.{Text}
use algo_trading_broker.Core.{IdText}
use algo_trading_broker.Webhook.{WebhookPayload, TradingSignal}
use algo_trading_broker.Signals.{Table}

pub data Failure : Type 0 where
  signal_error : ℕ → Failure
  runtime_error : Failure
  parse_error : Failure
  publish_error : Failure
  store_error : Failure

pub data Result {ℓ} (A : Type ℓ) : Type ℓ where
  ok : A → Result A
  raised : Failure → Result A

-- What a worker is sent on the subject of its strategy.
pub data Message : Type 0 where
  signal_message : TradingSignal → Message
  flat_message :
      (signal_id : IdText) (signal_uxid symbol : Text) (timestamp strategy : String) → Message

-- The table of signals, the messages that reached the workers (oldest first), the calls of the
-- broadcaster with their attempt numbers, and the warnings about blocked signals.
pub record World : Type 0 where
  pub rows : Table
  pub sent : List Message
  pub broadcasts : List (WebhookPayload × Option ℕ)
  pub notices : ℕ

abbrev pub M : Type 0 → Type 0
M A = World → Result A × World

abbrev pub pure : {A : Type 0} → A → M A
pure a w = (ok a, w)

abbrev pub raise : {A : Type 0} → Failure → M A
raise e w = (raised e, w)

abbrev pub follow : {A B : Type 0} → Result A → (A → M B) → M B
follow (ok a) f w = f a w
follow (raised e) f w = (raised e, w)

infixl 10 ◌>>=◌ ◌>>◌
abbrev pub ◌>>=◌ : {A B : Type 0} → M A → (A → M B) → M B
◌>>=◌ m f w = let (r, w') = m w in follow r f w'

abbrev pub ◌>>◌ : {A B : Type 0} → M A → M B → M B
m >> n = m >>= λ _. n

-- `try: m` with the exception as a value.
abbrev pub catch : {A : Type 0} → M A → M (Result A)
catch m w = let (r, w') = m w in (ok r, w')

-- A call of the repository.
abbrev pub on_rows : {A : Type 0} → (Table → Table × A) → M A
on_rows f w = let (t, a) = f w.rows in (ok a, record w { rows = t })
