-- ===== src/Orders/Steps.antt =====
-- What execute_buy_order and execute_sell_order of kis_trend_atr_trading/engine/order_synchronizer.py
-- do step by step: the idempotency key, the writes, the holdings, sending. A quantity is from 0 on.
use kis_api_trend_atr.Base.{
  ℕ, ◌-◌, Option, none, some, List, [], ◌∷◌, ◌++◌, if◌then◌else◌, leb, min,
}
use kis_api_trend_atr.Base.Eq.{◌==◌}
use kis_api_trend_atr.Base.Int.{at_least}
use kis_api_trend_atr.Base.Floats.{Floats}
use kis_api_trend_atr.Base.Text.{Text, codes, strip, decimal, text_keyed}
use kis_api_trend_atr.Orders.{
  OrderStatus, submitted, failed, OrderRow, PlaceReply, place_raised, refused, accepted, Holding,
  SynchronizedOrderResult, success_result, partial_result, placed, Synchronizer, Service, Order,
}
use kis_api_trend_atr.Orders.Guard.{apply_shared_pending_status, is_empty}

-- the text `{mode}|{side}|{stock_code}|{quantity}|{signal_id}`
unfoldable pub raw_key : Text → Text → Text → ℕ → Text → Text
raw_key mode side stock_code quantity signal =
    mode
    ++ codes "|"
    ++ side
    ++ codes "|"
    ++ stock_code
    ++ codes "|"
    ++ decimal quantity
    ++ codes "|"
    ++ signal

module _ {A D W : Type 0} (svc : Service A D W) where
  unfoldable pub build_idempotency_key : Text → Text → ℕ → Text → Text → Text
  unfolding raw_key
  build_idempotency_key side stock_code quantity signal_id minute_stamp = svc.digest (
      raw_key svc.mode side stock_code quantity
        (if is_empty signal_id then minute_stamp else signal_id))

  -- The shared state first, then the row; an empty order number is NULL.
  unfoldable pub upsert_order_state :
      Order → OrderStatus → Text → ℕ → ℕ → Synchronizer D W → Synchronizer D W
  upsert_order_state o status order_no filled remaining s = record s {
    store = apply_shared_pending_status o.stock_code o.side status s.store;
    db =
        if svc.database.present
        then svc.database.upsert
            (record {
              idempotency_key = o.idempotency_key;
              signal_id = o.signal_id;
              symbol = o.stock_code;
              side = o.side;
              requested_qty = o.quantity;
              filled_qty = filled;
              remaining_qty = remaining;
              order_no = order_no;
              status = status;
            })
            s.db
        else s.db;
  }

  unfoldable pub get_order_state : Text → Synchronizer D W → Option OrderRow
  get_order_state key s = if svc.database.present then svc.database.find key s.db else none

  -- What became of an order that was sent. The result is the order's number and its branch; there is
  -- none when the client raised or refused.
  unfoldable pub note_reply :
      Order → PlaceReply → Synchronizer D W → Synchronizer D W × Option (Text × Text)
  note_reply o place_raised s = (upsert_order_state o failed [] 0 o.quantity s, none)
  note_reply o refused s = (upsert_order_state o failed [] 0 o.quantity s, none)
  note_reply o (accepted order_no branch_no) s =
      (upsert_order_state o submitted order_no 0 o.quantity s, some (order_no, strip branch_no))

  unfoldable pub send :
      Order → (W → W × PlaceReply) → Synchronizer D W → Synchronizer D W × Option (Text × Text)
  send o place s =
      let (w, reply) = place s.world in
      note_reply o reply (record s {
        world = w;
        events = placed o.idempotency_key (get_order_state o.idempotency_key s) ∷ s.events;
      })

module _ {A : Type 0} ⦃f : Floats A⦄ where
  unfoldable pub find_holding : Text → List (Holding A) → ℕ × A
  find_holding target [] = (0, f.of_nat 0)
  find_holding target (h ∷ holdings) =
      let rest = find_holding target holdings in
      if strip h.symbol == target
      then (at_least 0 h.qty, if f.lt h.avg_price (f.of_nat 0) then f.of_nat 0 else h.avg_price)
      else rest

  unfoldable pub snapshot_of : Text → Option (List (Holding A)) → Option (ℕ × A)
  snapshot_of stock_code none = none
  snapshot_of stock_code (some holdings) =
      let target = strip stock_code in
      if is_empty target then none else some (find_holding target holdings)

  -- the result that `_infer_buy_fill_from_holdings` makes of the two snapshots
  unfoldable pub inferred_fill : ℕ → Text → ℕ × A → ℕ × A → Option (SynchronizedOrderResult A)
  inferred_fill requested order_no (before_qty, before_price) (after_qty, after_price) =
      let delta = after_qty - before_qty in
      let exec_qty = min delta requested in
      let zero = f.of_nat 0 in
      let exec_price = if f.le after_price zero then before_price else after_price in
      let is_filled = leb requested exec_qty in
      if leb delta 0
      then none
      else if leb exec_qty 0
      then none
      else if f.le exec_price zero
      then none
      else some (record {
        success = is_filled;
        result_type = if is_filled then success_result else partial_result;
        order_no = order_no;
        exec_qty = exec_qty;
        exec_price = exec_price;
        fills =
            record { order_no = order_no; price = exec_price; qty = exec_qty; side = codes "BUY" }
            ∷ [];
      })

  unfoldable pub infer_from : ℕ → Text → ℕ × A → Option (ℕ × A) → Option (SynchronizedOrderResult A)
  infer_from requested order_no before none = none
  infer_from requested order_no before (some after) = inferred_fill requested order_no before after

  module _ {D W : Type 0} (svc : Service A D W) where
    unfoldable pub get_holding_snapshot :
        Text → Synchronizer D W → Synchronizer D W × Option (ℕ × A)
    get_holding_snapshot stock_code s =
        let (w, holdings) = svc.broker.get_holdings s.world in
        (record s { world = w }, snapshot_of stock_code holdings)

    unfoldable pub infer_buy_fill_from_holdings :
        Text
        → ℕ
        → Option (ℕ × A)
        → Text
        → Synchronizer D W
        → Synchronizer D W × Option (SynchronizedOrderResult A)
    infer_buy_fill_from_holdings stock_code requested none order_no s = (s, none)
    infer_buy_fill_from_holdings stock_code requested (some before) order_no s =
        let (s', after) = get_holding_snapshot stock_code s in
        (s', infer_from requested order_no before after)
