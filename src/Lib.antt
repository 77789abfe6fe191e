-- ===== src/Lib.antt =====
-- The trading runtime of this repository (kis_trend_atr_trading): an automatic trader for the Korean
-- stock market. A main loop asks the clock for the session's state, lets a state machine decide
-- what may be traded and over which feed, and gates each bar; strategies queue entry intents; the
-- risk manager is asked before every order; the order synchronizer sends the order and waits for its
-- execution; the position manager and, for positions of many days, the trading state keep what is
-- held. Minute bars come from an aggregator of ticks, and a scheduler says which symbols to evaluate.
-- The parts and their files:
--
-- - Session: utils/market_hours.py, the session's state and the opening hours by the holiday
--   calendar, which is a parameter (a function from dates); Session.TradingDay, its next trading
--   day; Session.Phase, utils/market_phase.py; Session.Checker, the class MarketHoursChecker of
--   engine/order_synchronizer.py, which reads the hours in its own way.
-- - Runtime: engine/runtime_state_machine.py. Runtime.Config is RuntimeConfig with the checks of its
--   `__post_init__`, Runtime.Evaluate the method `evaluate` and its helpers, Runtime.Gate the classes
--   SymbolBarGate and TransitionCooldown. Overlay, Deque, Recovery, Safety and Gate.Spacing hold proofs.
-- - Intents: EntryIntentQueue of engine/pullback_pipeline_stores.py. Each critical section is one
--   function: `put_if_absent` is `admit` and, in Intents.Put, `advance`, between which the lock is
--   free; Intents.Admission has the steps of many threads in any order, and Intents.Precedence which
--   intent comes first.
-- - Health: WorkerHealthStore and, in Health.Degraded, DegradedModeController of
--   engine/strategy_pipeline_health.py.
-- - Risk: DailyPnL and RiskManager of engine/risk_manager.py, with the file of the manual kill switch
--   as part of the state. Risk.Orders has the calls as a data type, and runs of them.
-- - Positions: ManagedPosition and PositionManager of engine/position_manager.py;
--   Positions.Restore is its sync with the account, whose holdings are an argument.
-- - Orders: OrderSynchronizer of engine/order_synchronizer.py. Orders has the state and, as records
--   of functions, the KIS client and the database; Orders.Guard is the shared cache of pending orders
--   before the table `order_state` (`get_pending_order_guard_state` and what it calls); Orders.Steps
--   has `_build_idempotency_key`, `_upsert_order_state`, `_get_holding_snapshot` and the inference of
--   fills; Orders.Execute has `execute_buy_order`, `execute_sell_order` and `recover_pending_orders`,
--   which share all from the duplicate check on (`run_once`). The modules under Orders.Execute hold
--   proofs; `events` of the state is a trace of the orders that were sent, which only they read.
-- - Trading: MultidayPosition and TradingStateMachine of engine/trading_state.py; Trading.Saving its
--   `to_dict` and `from_dict`.
-- - Bars: MinuteBarAggregator of adapters/kis_ws/bar_aggregator.py; Bars.Groups describes the bars by
--   groups of ticks.
-- - Scheduler: SymbolEvaluationScheduler of engine/evaluation_scheduler.py.
-- - Lock: SingleInstanceLock of engine/order_synchronizer.py, with the lock file as inodes that a name
--   leads to; Lock.Info is the file's text. Lock.Exclusion and Lock.Runs hold proofs.
-- - Resync: PositionResynchronizer of engine/order_synchronizer.py. Resync has
--   `_extract_active_holdings`, `_resolve_target_holding` and `_build_stored_position_from_holding`;
--   Resync.Database has `_sync_db_positions_from_api`, Resync.Account the cache of holdings and the
--   class's state, and Resync.Startup `synchronize_on_startup` and `force_sync_from_api`. It saves
--   positions by the operations of Saved.
-- - Saved: StoredPosition and PositionStore of utils/position_store.py, with the conversion to and from
--   the multiday position of Trading; Saved.Daily is its DailyTradeStore.
-- - Executor: of MultidayExecutor of engine/multiday_executor.py. Executor.Buy is `execute_buy` with
--   its checks up to the order: it asks Risk, the guard of Orders, its own validation and guards
--   (Executor.Validation, over the snapshots of Stores.AccountRisk) and the market's hours, makes a
--   plan (Executor.OrderPlan, with the ticks of Prices) and calls `execute_buy_order` of Orders.
--   Executor.PendingExit is the exit that waits, kept in the file of Saved, with `execute_sell` as an
--   argument; Executor.Entry is the permission of new entries, which asks Resync for a new sync.
-- - Prices: the tick sizes of utils/entry_utils.py and, in Prices.Averages, utils/avg_price.py, both with
--   exact decimals.
-- - Virtual: the paper account VirtualAccount of cbt/virtual_account.py; Virtual.Trades its buys, sales
--   and prices.
-- - Stores: the stores of engine/pullback_pipeline_stores.py but for the queue: ArmedCandidateStore,
--   DailyContextStore, DirtySymbolSet and, in Stores.AccountRisk, AccountRiskStore.
-- - Base: shared names, equality as an interface, dicts, integers, texts and floats. Tests: examples.
--
-- An object is a record and a method a function that returns the new record with its result. The
-- time is an argument: a date is a day number, a time a number of microseconds. A text is the list
-- of its code points, with Python's `strip`, `lower`, `upper` and `int` for ASCII. Prices are of
-- any type with the operations of Base.Floats, of which the laws of the order alone are assumed; the
-- integers meet them. The one loop that could go on is that of the next trading day: it runs on fuel, and as many
-- rounds as there are days to some open day are shown to be enough.
--
-- What the code does not hold is a parameter: the broker's answers may be any, exceptions included; a
-- database is any record of its statements (five for orders, three for positions), and where a theorem
-- needs that they do what they say it says so by an `IsTable`, which a dict meets in Tests. SHA-256 is
-- any function on texts, and so is the rounding of a float to two places. `isoformat` and its inverse
-- are a record of two functions; the lock needs of them that a printed instant is one line, the
-- pending exit that it is read back. The balance of the paper account is stated for whole numbers
-- whose sums and differences are exact.
--
-- Not modelled: reading settings and calendar files, log lines, Telegram messages but for the
-- alerts of the risk manager, the account snapshot of the risk manager, and the monitor thread of the
-- pipeline; of the order synchronizer the creation of the table and the texts of messages; calls of
-- the instance lock that overlap; of the scheduler the cadence metrics; of the paper account its
-- order numbers and reports; the gap protection and the detection of ETFs;
-- of the executor what fills do to the position. The pipeline's workers,
-- the rest of the executors, the strategies, the API and database clients and the reports are
-- outside this development.
pub mod Base
pub mod Session
pub mod Runtime
pub mod Intents
pub mod Health
pub mod Risk
pub mod Positions
pub mod Orders
pub mod Bars
pub mod Trading
pub mod Scheduler
pub mod Stores
pub mod Prices
pub mod Saved
pub mod Lock
pub mod Resync
pub mod Executor
pub mod Virtual
pub mod Tests
