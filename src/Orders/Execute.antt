-- ===== src/Orders/Execute.antt =====
-- `execute_buy_order`, `execute_sell_order` and `recover_pending_orders` of
-- kis_trend_atr_trading/engine/order_synchronizer.py.
pub mod Trace
pub mod Calls
pub mod Once
pub mod Ahead
pub mod Outcome
pub mod After
pub mod Sends
pub mod Retry
pub mod Recovered
use kis_api_trend_atr.Base.{
  ℕ, ◌-◌, ◌*◌, Bool, true, false, ◌||◌, ◌&&◌, not, Option, none, some, List, [], ◌∷◌, if◌then◌else◌,
}
use kis_api_trend_atr.Base.Floats.{Floats}
use kis_api_trend_atr.Base.Text.{Text, codes, strip}
use kis_api_trend_atr.Session.Checker.{
  MarketStatus, simultaneous_quote, get_market_status, is_tradeable,
}
use kis_api_trend_atr.Orders.{
  OrderStatus, pending, filled, partial, cancelled, is_taken, should_block_entry, OrderRow,
  OrderRequest, PlaceReply, WaitRequest, exec_filled, exec_partial, exec_other, ExecStatus,
  ExecReply, WaitReply, wait_raised, replied, OrderExecutionResult, success_result, partial_result,
  failed_result, cancelled_result, market_closed_result, SynchronizedOrderResult, CallResult,
  returned, raised, Synchronizer, Service, Clocks, BuyOrder, SellOrder, Order, GuardStore,
}
use kis_api_trend_atr.Orders.Guard.{
  get_pending_order_guard_state, apply_shared_pending_status, is_empty,
}
use kis_api_trend_atr.Orders.Steps.{
  build_idempotency_key, upsert_order_state, get_order_state, send, get_holding_snapshot,
  infer_buy_fill_from_holdings,
}

unfoldable pub sell_request : SellOrder → OrderRequest
sell_request b = record {
  stock_code = b.stock_code;
  quantity = b.quantity;
  price = 0;
  order_type = codes "01";
}

-- closed for a sale: a simultaneous quote is not
unfoldable pub sale_closed : SellOrder → Clocks → Bool
sale_closed b clocks =
    not b.skip_market_check
    && not b.is_emergency
    && not (is_tradeable clocks.check_time)
    && (elim (get_market_status clocks.check_time) [ simultaneous_quote ↦ false | _ ↦ true ])

unfoldable pub recover_rows : List OrderRow → GuardStore → GuardStore
recover_rows [] st = st
recover_rows (row ∷ rows) st =
    recover_rows rows (apply_shared_pending_status row.symbol row.side row.status st)

module _ {A : Type 0} ⦃f : Floats A⦄ where
  -- a result with nothing but its kind
  unfoldable pub unsent : OrderExecutionResult → CallResult A
  unsent kind = returned (record {
    success = false;
    result_type = kind;
    order_no = [];
    exec_qty = 0;
    exec_price = f.of_nat 0;
    fills = [];
  })

  -- the result for a key that is taken already
  unfoldable pub duplicate : OrderRow → CallResult A
  duplicate row = returned (record {
    success = false;
    result_type = failed_result;
    order_no = row.order_no;
    exec_qty = row.filled_qty;
    exec_price = f.of_nat 0;
    fills = [];
  })

  unfoldable pub executed : Bool → OrderExecutionResult → Text → ExecReply A → CallResult A
  executed success kind order_no r = returned (record {
    success = success;
    result_type = kind;
    order_no = order_no;
    exec_qty = r.exec_qty;
    exec_price = r.exec_price;
    fills = r.fills;
  })

  unfoldable pub buy_request : (A → ℕ) → BuyOrder A → OrderRequest
  buy_request round_price b =
      let order_type = strip b.order_type in
      record {
        stock_code = b.stock_code;
        quantity = b.quantity;
        price = if f.lt (f.of_nat 0) b.price then round_price b.price else 0;
        order_type = if is_empty order_type then codes "01" else order_type;
      }

  module _ {D W : Type 0} (svc : Service A D W) where
    -- what is written down for a reply that needs no inference
    unfoldable pub settle :
        Order → Text → OrderStatus → ExecReply A → Synchronizer D W → Synchronizer D W
    settle o order_no status r s =
        let remaining : ℕ = elim status [ filled ↦ 0 | _ ↦ o.quantity - r.exec_qty ] in
        upsert_order_state svc o status order_no r.exec_qty remaining s

    -- what the holdings tell of a buy of which the client knows nothing that was executed
    unfoldable pub settle_inferred :
        Order
        → Text
        → ExecReply A
        → Synchronizer D W × Option (SynchronizedOrderResult A)
        → Synchronizer D W × CallResult A
    settle_inferred o order_no r (s, some result) = (
      upsert_order_state svc o (if result.success then filled else partial) order_no result.exec_qty
          (o.quantity - result.exec_qty) s,
      returned result,
    )
    settle_inferred o order_no r (s, none) =
        (settle o order_no cancelled r s, executed false cancelled_result order_no r)

    -- `infers` tells a buy from a sale.
    unfoldable pub conclude :
        Bool
        → Order
        → Text
        → Option (ℕ × A)
        → ExecReply A
        → ExecStatus
        → Synchronizer D W
        → Synchronizer D W × CallResult A
    conclude infers o order_no before r exec_filled s =
        (settle o order_no filled r s, executed true success_result order_no r)
    conclude infers o order_no before r exec_partial s =
        (settle o order_no partial r s, executed false partial_result order_no r)
    conclude true o order_no before r exec_other s =
        settle_inferred o order_no r
          (infer_buy_fill_from_holdings svc o.stock_code o.quantity before order_no s)
    conclude false o order_no before r exec_other s =
        (settle o order_no cancelled r s, executed false cancelled_result order_no r)

    unfoldable pub after_wait :
        Bool
        → Order
        → Text
        → Option (ℕ × A)
        → Synchronizer D W
        → W × WaitReply A
        → Synchronizer D W × CallResult A
    after_wait infers o order_no before s (w, wait_raised) = (record s { world = w }, raised)
    after_wait infers o order_no before s (w, replied r) =
        conclude infers o order_no before r r.status (record s { world = w })

    unfoldable pub wait_request : Order → ℕ → Option (ℕ × A) → Text → Text → WaitRequest A
    wait_request o timeout before order_no branch_no = record {
      order_no = order_no;
      expected_qty = o.quantity;
      timeout_seconds = timeout;
      branch_no = branch_no;
      stock_code = o.stock_code;
      side = o.side;
      holding_before = before;
    }

    unfoldable pub after_sent :
        Bool
        → Order
        → ℕ
        → Option (ℕ × A)
        → Synchronizer D W × Option (Text × Text)
        → Synchronizer D W × CallResult A
    after_sent infers o timeout before (s, none) = (s, unsent failed_result)
    after_sent infers o timeout before (s, some (order_no, branch_no)) =
        after_wait infers o order_no before s
          (svc.broker.wait_for_execution (wait_request o timeout before order_no branch_no) s.world)

    -- Write ahead, look at the holdings, send, wait, write down the outcome.
    unfoldable pub run_order :
        Bool → Order → (W → W × PlaceReply) → ℕ → Synchronizer D W → Synchronizer D W × CallResult A
    run_order infers o place timeout s =
        let (s1, before) =
          get_holding_snapshot svc o.stock_code
            (upsert_order_state svc o pending [] 0 o.quantity s) in
        after_sent infers o timeout before (send svc o place s1)

    -- A key that is taken ends the call; else the order is run.
    unfoldable pub unless_taken :
        Bool
        → Order
        → (W → W × PlaceReply)
        → ℕ
        → Synchronizer D W
        → Option OrderRow
        → Synchronizer D W × CallResult A
    unless_taken infers o place timeout s none = run_order infers o place timeout s
    unless_taken infers o place timeout s (some row) =
        if is_taken row.status then (s, duplicate row) else run_order infers o place timeout s

    unfoldable pub run_once :
        Bool → Order → (W → W × PlaceReply) → ℕ → Synchronizer D W → Synchronizer D W × CallResult A
    run_once infers o place timeout s =
        unless_taken infers o place timeout s (get_order_state svc o.idempotency_key s)

    unfoldable pub buy_order : BuyOrder A → Clocks → Order
    buy_order b clocks = record {
      idempotency_key =
          build_idempotency_key svc (codes "BUY") b.stock_code b.quantity b.signal_id
            clocks.minute_stamp;
      signal_id = b.signal_id;
      stock_code = b.stock_code;
      side = codes "BUY";
      quantity = b.quantity;
    }

    unfoldable pub sell_order : SellOrder → Clocks → Order
    sell_order b clocks = record {
      idempotency_key =
          build_idempotency_key svc (codes "SELL") b.stock_code b.quantity b.signal_id
            clocks.minute_stamp;
      signal_id = b.signal_id;
      stock_code = b.stock_code;
      side = codes "SELL";
      quantity = b.quantity;
    }

    unfoldable pub execute_buy_order :
        BuyOrder A → Clocks → Synchronizer D W → Synchronizer D W × CallResult A
    execute_buy_order b clocks s =
        if not b.skip_market_check && not (is_tradeable clocks.check_time)
        then (s, unsent market_closed_result)
        else let (store, guard) =
            get_pending_order_guard_state svc.database s.db svc.times b.stock_code (codes "BUY")
              clocks.asked_at clocks.answered_at s.store in
          let asked : Synchronizer D W = record s { store = store } in
          if should_block_entry guard
          then (asked, unsent failed_result)
          else run_once true (buy_order b clocks)
              (svc.broker.place_buy_order (buy_request svc.round_price b)) svc.execution_timeout
              asked

    unfoldable pub execute_sell_order :
        SellOrder → Clocks → Synchronizer D W → Synchronizer D W × CallResult A
    execute_sell_order b clocks s =
        if sale_closed b clocks
        then (s, unsent market_closed_result)
        else run_once false (sell_order b clocks) (svc.broker.place_sell_order (sell_request b))
            (if b.is_emergency then svc.execution_timeout * 3 else svc.execution_timeout) s

    -- the stale orders are closed before the open ones are read
    unfoldable pub recover_pending_orders : Synchronizer D W → Synchronizer D W × List OrderRow
    recover_pending_orders s =
        if not svc.database.present
        then (s, [])
        else let d = svc.database.close_stale s.db in
          let rows = svc.database.open_rows d in
          (record s { db = d; store = recover_rows rows s.store }, rows)
