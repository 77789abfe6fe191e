-- ===== src/Orders/Execute/Outcome.antt =====
-- How the result of a call of the order synchronizer (kis_trend_atr_trading/engine/order_synchronizer.py)
-- agrees with what it wrote down.
use kis_api_trend_atr.Base.{
  ℕ, ◌*◌, ◌≡◌, refl, Bool, true, false, not, ◌&&◌, Option, none, some, if◌then◌else◌, arith,
}
use kis_api_trend_atr.Base.Floats.{Floats}
use kis_api_trend_atr.Base.Text.{Text, codes}
use kis_api_trend_atr.Session.Checker.{is_tradeable}
use kis_api_trend_atr.Orders.{
  OrderStatus, submitted, filled, partial, cancelled, failed, is_taken, OrderRow, PlaceReply,
  place_raised, refused, accepted, ExecReply, ExecStatus, exec_filled, exec_partial, exec_other,
  WaitReply, wait_raised, replied, SynchronizedOrderResult, OrderExecutionResult, success_result,
  partial_result, failed_result, cancelled_result, market_closed_result, CallResult, returned,
  raised, should_block_entry, Synchronizer, Service, Order, BuyOrder, SellOrder, Clocks,
}
use kis_api_trend_atr.Orders.Guard.{get_pending_order_guard_state}
use kis_api_trend_atr.Orders.Steps.{
  upsert_order_state, get_order_state, send, note_reply, infer_buy_fill_from_holdings,
  inferred_fill, infer_from,
}
use kis_api_trend_atr.Orders.Execute.{
  unsent, duplicate, executed, settle, settle_inferred, conclude, after_wait, after_sent, run_order,
  unless_taken, run_once, execute_buy_order, execute_sell_order, buy_order, sell_order, sale_closed,
  buy_request, sell_request,
}

-- The status that a result stands for; an exception leaves the order SUBMITTED.
unfoldable pub status_of_result : OrderExecutionResult → OrderStatus
status_of_result success_result = filled
status_of_result partial_result = partial
status_of_result cancelled_result = cancelled
status_of_result failed_result = failed
status_of_result market_closed_result = failed

unfoldable pub outcome : {A : Type 0} → CallResult A → OrderStatus
unfolding status_of_result
outcome raised = submitted
outcome (returned r) = status_of_result r.result_type

module _ {A : Type 0} ⦃f : Floats A⦄ where
  -- the kind of an inferred result says whether it is a success
  Consistent : Option (SynchronizedOrderResult A) → Type 0
  Consistent inferred =
      (r : SynchronizedOrderResult A)
      → inferred ≡ some r
      → status_of_result r.result_type ≡ (if r.success then filled else partial)

  inferred-Consistent :
      (n : ℕ) (order_no : Text) (before : ℕ × A) (after : Option (ℕ × A))
      → Consistent (infer_from n order_no before after)
  unfolding Consistent inferred_fill status_of_result infer_from
  inferred-Consistent n order_no (q, p) none r e = ground arith
  inferred-Consistent n order_no (q, p) (some (q', p')) r e = ground arith

  module _ {D W : Type 0} (svc : Service A D W) (o : Order) where
    -- A statement about the last status that the order wrote.
    pub record IsWritten (Q : OrderStatus → Synchronizer D W → Type 0) : Type 0 where
      pub world :
          (st : OrderStatus) (s : Synchronizer D W) (w : W) → Q st s → Q st (record s { world = w })
      pub write :
          (st : OrderStatus) (order_no : Text) (fl re : ℕ) (s : Synchronizer D W)
          → Q st (upsert_order_state svc o st order_no fl re s)

    module _ {Q : OrderStatus → Synchronizer D W → Type 0} (written : IsWritten Q) where
      -- The statement holds of the status that the result stands for, where this takes the key.
      unfoldable pub Reports : Synchronizer D W × CallResult A → Type 0
      Reports (s, res) = is_taken (outcome res) ≡ true → Q (outcome res) s

      settle_inferred-Reports :
          (order_no : Text) (r : ExecReply A) (s : Synchronizer D W)
          (inferred : Option (SynchronizedOrderResult A))
          → Consistent inferred
          → Reports (settle_inferred svc o order_no r (s, inferred))
      unfolding settle_inferred settle Reports Consistent outcome executed status_of_result
      settle_inferred-Reports order_no r s none h taken = written.write _ _ _ _ s
      settle_inferred-Reports order_no r s (some result) h taken =
          rw (h result refl) (written.write _ _ _ _ s)

      conclude-Reports :
          (infers : Bool) (order_no : Text) (before : Option (ℕ × A)) (r : ExecReply A)
          (status : ExecStatus) (s : Synchronizer D W)
          → Reports (conclude svc infers o order_no before r status s)
      unfolding conclude settle Reports outcome executed status_of_result
          infer_buy_fill_from_holdings Consistent
      conclude-Reports infers order_no before r exec_filled s taken = written.write _ _ _ _ s
      conclude-Reports infers order_no before r exec_partial s taken = written.write _ _ _ _ s
      conclude-Reports true order_no none r exec_other s taken =
          settle_inferred-Reports order_no r s none (λ x e. ground arith) taken
      conclude-Reports true order_no (some before) r exec_other s taken =
          settle_inferred-Reports order_no r _ _ (inferred-Consistent o.quantity order_no before _)
            taken
      conclude-Reports false order_no before r exec_other s taken = written.write _ _ _ _ s

      after_wait-Reports :
          (infers : Bool) (order_no : Text) (before : Option (ℕ × A)) (s : Synchronizer D W) (w : W)
          (reply : WaitReply A)
          → Q submitted s
          → Reports (after_wait svc infers o order_no before s (w, reply))
      unfolding after_wait Reports outcome
      after_wait-Reports infers order_no before s w wait_raised q taken = written.world _ s w q
      after_wait-Reports infers order_no before s w (replied r) q taken =
          conclude-Reports infers order_no before r r.status (record s { world = w }) taken

      noted-Reports :
          (infers : Bool) (timeout : ℕ) (before : Option (ℕ × A)) (reply : PlaceReply)
          (s : Synchronizer D W)
          → Reports (after_sent svc infers o timeout before (note_reply svc o reply s))
      unfolding after_sent note_reply Reports unsent outcome status_of_result
      noted-Reports infers timeout before place_raised s taken = ground arith
      noted-Reports infers timeout before refused s taken = ground arith
      noted-Reports infers timeout before (accepted order_no branch_no) s taken =
          after_wait-Reports infers order_no before _ _ _ (written.write _ _ _ _ s) taken

      run_order-Reports :
          (infers : Bool) (place : W → W × PlaceReply) (timeout : ℕ) (s : Synchronizer D W)
          → Reports (run_order svc infers o place timeout s)
      unfolding run_order send
      run_order-Reports infers place timeout s = noted-Reports infers timeout _ _ _

      either_way :
          (b : Bool) (x y : Synchronizer D W × CallResult A)
          → Reports x
          → Reports y
          → Reports (if b then x else y)
      either_way true x y p q = p
      either_way false x y p q = q

      unsent-Reports : (s : Synchronizer D W) → Reports (s, unsent failed_result)
      unfolding Reports unsent outcome status_of_result
      unsent-Reports s taken = ground arith

      closed-Reports : (s : Synchronizer D W) → Reports (s, unsent market_closed_result)
      unfolding Reports unsent outcome status_of_result
      closed-Reports s taken = ground arith

      duplicate-Reports : (s : Synchronizer D W) (row : OrderRow) → Reports (s, duplicate row)
      unfolding Reports duplicate outcome status_of_result
      duplicate-Reports s row taken = ground arith

      run_once-Reports :
          (infers : Bool) (place : W → W × PlaceReply) (timeout : ℕ) (s : Synchronizer D W)
          (found : Option OrderRow)
          → Reports (unless_taken svc infers o place timeout s found)
      unfolding unless_taken
      run_once-Reports infers place timeout s none = run_order-Reports infers place timeout s
      run_once-Reports infers place timeout s (some row) =
          either_way _ _ _ (duplicate-Reports s row) (run_order-Reports infers place timeout s)

  module _ {D W : Type 0} (svc : Service A D W) {Q : OrderStatus → Synchronizer D W → Type 0} where
    pub execute_buy_order-Reports :
        (b : BuyOrder A) (clocks : Clocks) (written : IsWritten svc (buy_order svc b clocks) Q)
        (s : Synchronizer D W)
        → Reports svc (buy_order svc b clocks) written (execute_buy_order svc b clocks s)
    unfolding execute_buy_order run_once
    execute_buy_order-Reports b clocks written s =
        let o = buy_order svc b clocks in
        let asked =
          get_pending_order_guard_state svc.database s.db svc.times b.stock_code (codes "BUY")
            clocks.asked_at clocks.answered_at s.store in
        let s1 : Synchronizer D W = record s { store = asked.0 } in
        let place = svc.broker.place_buy_order (buy_request svc.round_price b) in
        either_way svc o written (not b.skip_market_check && not (is_tradeable clocks.check_time)) _
          _ (closed-Reports svc o written s)
          (either_way svc o written (should_block_entry asked.1) (s1, unsent failed_result) _
            (unsent-Reports svc o written s1)
            (run_once-Reports svc o written true place svc.execution_timeout s1
              (get_order_state svc o.idempotency_key s1)))

    pub execute_sell_order-Reports :
        (b : SellOrder) (clocks : Clocks) (written : IsWritten svc (sell_order svc b clocks) Q)
        (s : Synchronizer D W)
        → Reports svc (sell_order svc b clocks) written (execute_sell_order svc b clocks s)
    unfolding execute_sell_order run_once
    execute_sell_order-Reports b clocks written s =
        let o = sell_order svc b clocks in
        let place = svc.broker.place_sell_order (sell_request b) in
        let timeout = if b.is_emergency then svc.execution_timeout * 3 else svc.execution_timeout in
        either_way svc o written (sale_closed b clocks) _ _ (closed-Reports svc o written s) (
          run_once-Reports svc o written false place timeout s
            (get_order_state svc o.idempotency_key s))
