-- ===== src/RetryJob.antt =====
-- broker/services/signal_retry_job.py: one poll of the job that re-sends queued signals. The pass
-- of the k-th retry of a tick is `passes k`; an exception of one retry is logged and dropped.
pub mod Untouched
use algo_trading_broker.Prelude.{ℕ, suc, ◌+◌, Bool, List, [], ◌∷◌}
use algo_trading_broker.Core.{uuid}
use algo_trading_broker.Signals.{Signal, Table, list_retryable}
use algo_trading_broker.Processing.{World, Pass, Config, retry_signal}

unfoldable pub retry_all : Config → (passes : ℕ → Pass) → ℕ → Table → World → World
retry_all cfg passes k [] w = w
retry_all cfg passes k (row ∷ rows) w =
    retry_all cfg passes (suc k) rows (retry_signal (passes k) cfg (uuid row.id) w).1

unfoldable pub tick_once :
    Config → (up : Bool) (now interval : ℕ) → (passes : ℕ → Pass) → World → World
unfolding retry_all
tick_once cfg up now interval passes w =
    retry_all cfg passes 0 (list_retryable up now interval w.rows) w
