-- ===== src/Lib.antt =====
-- A model of the trading broker's core: what happens to an alert of TradingView from the webhook to
-- the workers, how the cycle of a trade is kept and shown in Telegram chats, what the workers report
-- back, and who may drive an account.
--
-- The parts, their files here, and the code they are about:
--
-- - Prelude: lists, options, texts and tests that the parts share. Texts that the program takes
--   apart are lists of code points, and `upper`, `strip`, `split` and `join` are Python's over ASCII.
-- - Core: the enums of broker/schemas/core.py.
-- - Webhook: broker/schemas/webhook_schema.py, broker/helpers/uxid_helper.py and
--   broker/helpers/signal_helper.py. The payload, the check of its cycle id
--   (`_fill_or_validate_uxid`), and `parse_signal`, which builds the message to the workers.
-- - Signals: broker/db/repository/signal.py. The table of signals is a list of rows; each method is
--   a function from table to table and answer, with a flag for whether its session commits.
-- - Processing: `SignalProcessingService` of broker/services/signal_processing_service.py.
--   `handle_enqueued`, `_handle_redelivery`, `retry_signal` and `_fanout` are written with do blocks
--   over a state that survives exceptions (Processing/Monad). A `Pass` holds how each call of the
--   database, of NATS and of the block gate ends in one run of a handler, so a statement over all
--   passes is one over all patterns of failure. Runs are sequences of deliveries and retries.
-- - Worker: `SignalWorker._handle_one`, with its in-place retries, over the settling of messages of
--   broker/services/jetstream_service.py. The retries recurse on the list of delays, which has four.
-- - RetryJob: `_tick_once` of broker/services/signal_retry_job.py.
-- - Deferred: `enqueue` and `DeferredEnqueuer` of the same service file. The loop of the enqueuer
--   and the HTTP handlers interleave where the loop waits, so a run is a sequence of events. The
--   `taken`, `confirmed`, `gone` and `stream` fields are a ledger that the code keeps only in its log
--   lines. A publish may be stored and not be acknowledged in time.
-- - Cycle: broker/domain/broadcast_status.py, the rules of the status of a cycle.
-- - Cycles: the writers of broker/db/repository/broadcast_message.py, `record_event` and
--   `record_worker_execution`, and `build_broadcast_event` of broker/services/broadcast_service.py.
--   `record_event` makes two passes as the code does; what other transactions commit between its
--   lookup and its insert is an argument.
-- - Backlog: the write log of one cycle in the same repository, `claim_pending_logs`, `finish_logs`,
--   `defer_logs` and `reclaim_stale_logs`.
-- - Delivery: `upsert_chat` of the repository, and `_deliver`, `_notify_updates` and `_deliver_all` of
--   `BroadcastDispatcher`, broker/services/broadcast_service.py.
-- - Dispatch: `_dispatch_locked`, `_park` and `_chats_behind` of the same class, which put the two
--   files before together.
-- - CycleLock: `_CycleLock` and `dispatch` of the same class. The entry of one cycle in the
--   dictionary of locks, the lock objects, and the dispatches that wait or are inside; an event is
--   what one task does between two awaits. Rounds of events are counted out by a list.
-- - Accounts: broker/db/repository/account.py over four tables of broker/db/models.py: accounts, link
--   tokens, links of users, and sessions. Accounts/Operations and Accounts/Calls have the methods
--   that write; a `Call` is one of them with its arguments, and a history is a list of calls.
-- - Trade: broker/domain/trade_status.py, and `upsert_by_position_event` with `_upsert_account` of
--   broker/db/repository/trade.py (Trade/Rows). The abstract lifecycle is that of two columns.
--   Trade/Queries has which trades a user may see. Trade/Reports is `TradeEventConsumer` of
--   broker/services/nats_service.py; an answer to JetStream may fail to
--   arrive, and the redeliveries of a message recurse on fuel, 720 of them, TRADE_MAX_DELIVERIES.
-- - Handshake: `SystemEventConsumer` of broker/services/nats_service.py with its two caches
--   (Handshake/Answer), and broker/services/account_settings_service.py (Handshake/Settings). A
--   `Moment` holds the clocks, the stored settings and which calls succeed.
-- - Paging: bot/app/utils/pagination.py. Following the Next button recurses on fuel, of which one
--   more than there are items is enough.
-- - Examples: concrete alerts, rows and passes.
--
-- How the parts interact: the worker calls the service with an envelope and the retry job calls it
-- with a row's id; both act on the table of Signals. A fan-out hands the payload to the broadcaster,
-- whose cycle writer appends to the log of the cycle; the dispatcher claims entries of that log and
-- delivers to the chats. A dispatch of a cycle runs inside the lock of CycleLock. A report on a
-- position refreshes a row of the accounts, and so does a handshake, which then reads that row's settings and
-- the recent rows of Signals.
--
-- Parameters: NATS, JetStream, Telegram, the clock and `uuid4` answer through the fields of `Pass`,
-- `Job` and `Telegram` and through arguments. Ids are numbers, times are seconds, and amounts are
-- integers in units of 10⁻⁸, which the modelled code only copies.
--
-- Not modelled: the sorted lists of trades, trade cards and their posts; the rendering of messages, whose texts are arguments of a delivery; the targets and the
-- sweeper of the dispatcher; the HTTP routes and the bot, which call what is modelled; logging,
-- configuration and migrations. An unordered select is taken to answer in the order of insertion.
pub mod Prelude
pub mod Core
pub mod Cycle
pub mod Webhook
pub mod Signals
pub mod Processing
pub mod Worker
pub mod RetryJob
pub mod Deferred
pub mod Cycles
pub mod Delivery
pub mod Backlog
pub mod Dispatch
pub mod CycleLock
pub mod Accounts
pub mod Trade
pub mod Handshake
pub mod Paging
pub mod Examples
