-- ===== src/Orders.antt =====
-- The state of `OrderSynchronizer` of kis_trend_atr_trading/engine/order_synchronizer.py, and what it
-- calls outside of it: the KIS client, the database manager, SHA-256. Of a result the message, the
-- time of submission and the requested price and type are left out.
pub mod Guard
pub mod Steps
pub mod Execute
use kis_api_trend_atr.Base.{ℕ, Bool, true, false, Option, List}
use kis_api_trend_atr.Base.Int.{ℤ}
use kis_api_trend_atr.Base.Dict.{Dict}
use kis_api_trend_atr.Base.Text.{Text}
use kis_api_trend_atr.Session.{Instant}

-- `order_state.status`, and the two words that the guard alone uses
pub data OrderStatus : Type 0 where
  pending submitted partial filled cancelled failed : OrderStatus
  unknown_status clear_status no_db_memory_only : OrderStatus

-- one of `PENDING`, `SUBMITTED`, `PARTIAL`
abbrev pub is_open : OrderStatus → Bool
is_open pending = true
is_open submitted = true
is_open partial = true
is_open _ = false

-- A status that a second order of the same key runs into.
abbrev pub is_taken : OrderStatus → Bool
is_taken pending = true
is_taken submitted = true
is_taken partial = true
is_taken filled = true
is_taken _ = false

pub data GuardState : Type 0 where
  open_state clear_state unknown_state : GuardState

pub data Decision : Type 0 where
  allow block unknown_block : Decision

pub data GuardSource : Type 0 where
  shared_memory unknown_source db_source : GuardSource

pub record PendingOrderGuardSnapshot : Type 0 where
  pub symbol : Text
  pub side : Text
  pub state : GuardState
  pub source : GuardSource
  pub decision : Decision
  pub status : OrderStatus
  pub error : Text
  pub cache_hit : Bool

abbrev pub should_block_entry : PendingOrderGuardSnapshot → Bool
should_block_entry g = elim g.decision [ allow ↦ false | block ↦ true | unknown_block ↦ true ]

-- An entry of the shared cache; `expires_at` is a reading of the monotonic clock.
pub record PendingEntry : Type 0 where
  pub state : GuardState
  pub has_open_order : Bool
  pub status : OrderStatus
  pub expires_at : Option ℕ
  pub error : Text

-- The key of an entry, for one database and mode: the symbol and the side.
abbrev pub GuardKey : Type 0
GuardKey = Text × Text

-- `_get_pending_guard_store()`: one for the whole process
pub record GuardStore : Type 0 where
  pub entries : Dict GuardKey PendingEntry
  pub unknown_count : ℕ
  pub db_error_count : ℕ
  pub blocked_due_to_unknown : ℕ

-- The guard's settings `PENDING_ORDER_GUARD_DB_TTL_SEC` and `PENDING_ORDER_GUARD_ERROR_BACKOFF_SEC`.
pub record GuardTimes : Type 0 where
  pub db_ttl : ℕ
  pub error_backoff : ℕ

-- A row of the table `order_state`; an empty number stands for NULL.
pub record OrderRow : Type 0 where
  pub idempotency_key : Text
  pub signal_id : Text
  pub symbol : Text
  pub side : Text
  pub requested_qty : ℕ
  pub filled_qty : ℕ
  pub remaining_qty : ℕ
  pub order_no : Text
  pub status : OrderStatus

-- The answer to the guard's query: an error, or the status of an open order, if there is one.
pub data GuardReply : Type 0 where
  query_failed : Text → GuardReply
  answered : Option OrderStatus → GuardReply

-- The database manager. A failed read is `none`, as the code takes it; a failed write is swallowed.
pub record Database (D : Type 0) : Type 0 where
  -- `self._db` is there, and its configuration enables it
  pub present : Bool
  pub enabled : Bool
  -- INSERT ... ON DUPLICATE KEY UPDATE
  pub upsert : OrderRow → D → D
  -- SELECT * ... WHERE idempotency_key = %s
  pub find : Text → D → Option OrderRow
  -- SELECT status ... WHERE symbol = %s AND side = %s AND status IN (...) LIMIT 1
  pub open_status : Text → Text → D → GuardReply
  -- UPDATE ... SET status = 'CANCELLED' for the rows that are too old
  pub close_stale : D → D
  -- SELECT * ... WHERE status IN (...)
  pub open_rows : D → List OrderRow

pub record OrderRequest : Type 0 where
  pub stock_code : Text
  pub quantity : ℕ
  pub price : ℕ
  pub order_type : Text

pub data PlaceReply : Type 0 where
  place_raised refused : PlaceReply
  -- the order's number and its branch
  accepted : Text → Text → PlaceReply

pub record Holding (A : Type 0) : Type 0 where
  pub symbol : Text
  pub qty : ℤ
  pub avg_price : A

pub record Fill (A : Type 0) : Type 0 where
  pub order_no : Text
  pub price : A
  pub qty : ℕ
  pub side : Text

pub record WaitRequest (A : Type 0) : Type 0 where
  pub order_no : Text
  pub expected_qty : ℕ
  pub timeout_seconds : ℕ
  pub branch_no : Text
  pub stock_code : Text
  pub side : Text
  pub holding_before : Option (ℕ × A)

pub data ExecStatus : Type 0 where
  exec_filled exec_partial exec_other : ExecStatus

pub record ExecReply (A : Type 0) : Type 0 where
  pub status : ExecStatus
  pub exec_qty : ℕ
  pub exec_price : A
  pub fills : List (Fill A)

pub data WaitReply (A : Type 0) : Type 0 where
  wait_raised : WaitReply A
  replied : ExecReply A → WaitReply A

-- The KIS client. `W` is what its calls change: the account, the exchange.
pub record Broker (A W : Type 0) : Type 0 where
  pub place_buy_order : OrderRequest → W → W × PlaceReply
  pub place_sell_order : OrderRequest → W → W × PlaceReply
  pub wait_for_execution : WaitRequest A → W → W × WaitReply A
  -- `none` where the call raises or the client has no such method
  pub get_holdings : W → W × Option (List (Holding A))

pub data OrderExecutionResult : Type 0 where
  success_result partial_result failed_result cancelled_result market_closed_result :
      OrderExecutionResult

pub record SynchronizedOrderResult (A : Type 0) : Type 0 where
  pub success : Bool
  pub result_type : OrderExecutionResult
  pub order_no : Text
  pub exec_qty : ℕ
  pub exec_price : A
  pub fills : List (Fill A)

-- What a call ends with; an exception of `wait_for_execution` is not caught.
pub data CallResult (A : Type 0) : Type 0 where
  returned : SynchronizedOrderResult A → CallResult A
  raised : CallResult A

-- What the calls did, for the theorems: the key of each order that was sent, with the row that the
-- database then had for it.
pub data Event : Type 0 where
  placed : Text → Option OrderRow → Event

pub record Synchronizer (D W : Type 0) : Type 0 where
  pub store : GuardStore
  pub db : D
  pub world : W
  -- the last one first
  pub events : List Event

-- What a synchronizer is made with: the clients, SHA-256 as text, `int(round(price))`, the settings.
pub record Service (A D W : Type 0) : Type 0 where
  pub broker : Broker A W
  pub database : Database D
  pub digest : Text → Text
  pub round_price : A → ℕ
  pub mode : Text
  pub execution_timeout : ℕ
  pub times : GuardTimes

-- The clocks that a call reads: the market's, the monotonic one before and after the guard's query,
-- and the minute as `%Y%m%d%H%M`.
pub record Clocks : Type 0 where
  pub check_time : Instant
  pub asked_at : ℕ
  pub answered_at : ℕ
  pub minute_stamp : Text

pub record BuyOrder (A : Type 0) : Type 0 where
  pub stock_code : Text
  pub quantity : ℕ
  pub signal_id : Text
  pub skip_market_check : Bool
  pub price : A
  pub order_type : Text

pub record SellOrder : Type 0 where
  pub stock_code : Text
  pub quantity : ℕ
  pub signal_id : Text
  pub skip_market_check : Bool
  pub is_emergency : Bool

-- What all writes of one order have in common.
pub record Order : Type 0 where
  pub idempotency_key : Text
  pub signal_id : Text
  pub stock_code : Text
  pub side : Text
  pub quantity : ℕ
