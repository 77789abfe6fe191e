-- ===== src/Orders/Execute/Retry.antt =====
-- Sales of kis_trend_atr_trading/engine/order_synchronizer.py and their retry after an exception, and
-- the guard after a recovery.
use kis_api_trend_atr.Base.{
  ℕ, suc, ◌+◌, ◌≡◌, refl, Bool, true, false, not, ◌&&◌, ◌||◌, Option, none, some, [], if◌then◌else◌,
  ◌*◌, arith,
}
use kis_api_trend_atr.Base.Eq.{pair_keyed}
use kis_api_trend_atr.Base.Floats.{Floats}
use kis_api_trend_atr.Base.Text.{Text, text_keyed, text_beq_iff}
use kis_api_trend_atr.Session.Checker.{simultaneous_quote, get_market_status, is_tradeable}
use kis_api_trend_atr.Orders.{
  failed, OrderRow, PlaceReply, place_raised, refused, accepted, Synchronizer, Service, Order,
  SellOrder, Clocks,
}
use kis_api_trend_atr.Orders.Steps.{get_order_state, send, note_reply}
use kis_api_trend_atr.Orders.Execute.{
  run_order, run_once, unless_taken, after_sent, execute_sell_order, sell_order, sale_closed,
  sell_request,
}
use kis_api_trend_atr.Orders.Execute.Once.{IsTable, status_of, times_placed, recorded-upsert}
use kis_api_trend_atr.Orders.Execute.Sends.{is_free, unless_taken-sends}

-- a sale may be sent at this time
abbrev pub market_admits : SellOrder → Clocks → Bool
market_admits b clocks =
    b.skip_market_check
    || b.is_emergency
    || is_tradeable clocks.check_time
    || (elim (get_market_status clocks.check_time) [ simultaneous_quote ↦ true | _ ↦ false ])

sale_closed_lem :
    (b : SellOrder) (clocks : Clocks) → sale_closed b clocks ≡ not (market_admits b clocks)
unfolding sale_closed
sale_closed_lem b clocks = ground arith

module _ {A : Type 0} ⦃f : Floats A⦄ {D W : Type 0} (svc : Service A D W) where
  -- A sale sends its order once if the market is not asked about, or it is an emergency, or the market is
  -- tradeable or in its closing auction, and its key is not taken; else it sends nothing and writes nothing.
  pub sale_sends :
      (b : SellOrder) (clocks : Clocks) (s : Synchronizer D W)
      → let k = (sell_order svc b clocks).idempotency_key in
        let s' = (execute_sell_order svc b clocks s).0 in
        let admitted = market_admits b clocks && is_free svc k s in
        (admitted ≡ true → times_placed k s'.events ≡ suc (times_placed k s.events))
        × (admitted ≡ false → (s'.events ≡ s.events) × (s'.db ≡ s.db) × (s'.world ≡ s.world))
  unfolding execute_sell_order run_once
  sale_sends b clocks s =
      let o = sell_order svc b clocks in
      let timeout = if b.is_emergency then svc.execution_timeout * 3 else svc.execution_timeout in
      let sends =
        unless_taken-sends svc false o (svc.broker.place_sell_order (sell_request b)) timeout s
          (get_order_state svc o.idempotency_key s) refl in
      let gate = sale_closed_lem b clocks in
      (λ h. ground (arith, gate, sends.0), λ h. ground (arith, gate, sends.1))

  raised-noted :
      (infers : Bool) (o : Order) (timeout : ℕ) (before : Option (ℕ × A)) (reply : PlaceReply)
      (s : Synchronizer D W)
      → IsTable svc.database
      → reply ≡ place_raised
      → status_of (
          svc.database.find o.idempotency_key
            (after_sent svc infers o timeout before (note_reply svc o reply s)).0.db)
        ≡ some failed
  unfolding note_reply after_sent
  raised-noted infers o timeout before place_raised s table e = ground (
    arith,
    recorded-upsert svc table o failed [] 0 o.quantity s o.idempotency_key,
    text_beq_iff o.idempotency_key o.idempotency_key,
  )
  raised-noted infers o timeout before refused s table e = ground arith
  raised-noted infers o timeout before (accepted order_no branch_no) s table e = ground arith

  raised-failed :
      (infers : Bool) (o : Order) (place : W → W × PlaceReply) (timeout : ℕ) (s : Synchronizer D W)
      → IsTable svc.database
      → ((w : W) → (place w).1 ≡ place_raised)
      → status_of
          (svc.database.find o.idempotency_key (run_order svc infers o place timeout s).0.db)
        ≡ some failed
  unfolding run_order send
  raised-failed infers o place timeout s table raises =
      raised-noted infers o timeout _ _ _ table (raises _)

  failed-is_free :
      (k : Text) (s : Synchronizer D W) (found : Option OrderRow)
      → get_order_state svc k s ≡ found
      → status_of found ≡ some failed
      → is_free svc k s ≡ true
  unfolding is_free
  failed-is_free k s none e h = ground arith
  failed-is_free k s (some row) e h = ground (arith, e, h)

  unless_taken-failed :
      (o : Order) (place : W → W × PlaceReply) (timeout : ℕ) (s : Synchronizer D W)
      (found : Option OrderRow)
      → IsTable svc.database
      → ((w : W) → (place w).1 ≡ place_raised)
      → get_order_state svc o.idempotency_key s ≡ found
      → is_free svc o.idempotency_key s ≡ true
      → status_of (
          svc.database.find o.idempotency_key (unless_taken svc false o place timeout s found).0.db)
        ≡ some failed
  unfolding unless_taken is_free
  unless_taken-failed o place timeout s none table raises e free =
      raised-failed false o place timeout s table raises
  unless_taken-failed o place timeout s (some row) table raises e free =
      ground (arith, e, raised-failed false o place timeout s table raises)

  raised_sale-failed :
      (b : SellOrder) (clocks : Clocks) (s : Synchronizer D W)
      → IsTable svc.database
      → ((w : W) → (svc.broker.place_sell_order (sell_request b) w).1 ≡ place_raised)
      → sale_closed b clocks ≡ false
      → is_free svc (sell_order svc b clocks).idempotency_key s ≡ true
      → status_of (
          get_order_state svc
            (sell_order svc b clocks).idempotency_key
            (execute_sell_order svc b clocks s).0)
        ≡ some failed
  unfolding execute_sell_order run_once get_order_state
  raised_sale-failed b clocks s table raises opened free =
      let o = sell_order svc b clocks in
      let timeout = if b.is_emergency then svc.execution_timeout * 3 else svc.execution_timeout in
      ground (
        arith,
        opened,
        table.in_use,
        unless_taken-failed o (svc.broker.place_sell_order (sell_request b)) timeout s
            (get_order_state svc o.idempotency_key s) table raises refl free,
      )

  -- With a table whose writes do not fail: when the client raises while a sale is sent, its key is
  -- free again, and the same call once more sends it a second time.
  pub raised_sale_resent :
      (b : SellOrder) (clocks : Clocks) (s : Synchronizer D W)
      → IsTable svc.database
      → ((w : W) → (svc.broker.place_sell_order (sell_request b) w).1 ≡ place_raised)
      → sale_closed b clocks ≡ false
      → let k = (sell_order svc b clocks).idempotency_key in
        let s' = (execute_sell_order svc b clocks s).0 in
        let s'' = (execute_sell_order svc b clocks s').0 in
        is_free svc k s ≡ true → times_placed k s''.events ≡ 2 + times_placed k s.events
  raised_sale_resent b clocks s table raises opened free =
      let o = sell_order svc b clocks in
      let s' = (execute_sell_order svc b clocks s).0 in
      let first =
        (sale_sends b clocks s).0 (ground (arith, sale_closed_lem b clocks, opened, free)) in
      let again : is_free svc o.idempotency_key s' ≡ true =
        failed-is_free o.idempotency_key s' _ refl
          (raised_sale-failed b clocks s table raises opened free) in
      let second =
        (sale_sends b clocks s').0 (ground (arith, sale_closed_lem b clocks, opened, again)) in
      omega (arith, first, second)
