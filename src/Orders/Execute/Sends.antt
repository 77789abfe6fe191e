-- ===== src/Orders/Execute/Sends.antt =====
-- When a call of the order synchronizer (kis_trend_atr_trading/engine/order_synchronizer.py) sends, and
-- what it takes for a fill.
use kis_api_trend_atr.Base.{
  ℕ, suc, ◌+◌, ◌≡◌, ◌↔◌, ◌≤◌, ◌<◌, refl, Bool, true, false, not, ◌&&◌, ◌||◌, Option, none, some,
  if◌then◌else◌, arith, is_some,
}
use kis_api_trend_atr.Base.Floats.{Floats}
use kis_api_trend_atr.Base.Text.{Text, codes, text_keyed, text_beq_iff}
use kis_api_trend_atr.Session.Checker.{is_tradeable}
use kis_api_trend_atr.Orders.{
  is_taken, OrderRow, PlaceReply, should_block_entry, SynchronizedOrderResult, Synchronizer,
  Service, Order, BuyOrder, Clocks,
}
use kis_api_trend_atr.Orders.Guard.{get_pending_order_guard_state}
use kis_api_trend_atr.Orders.Steps.{upsert_order_state, get_order_state, inferred_fill}
use kis_api_trend_atr.Orders.Execute.{
  run_order, run_once, unless_taken, execute_buy_order, buy_order, buy_request,
}
use kis_api_trend_atr.Orders.Execute.Trace.{IsKept, sent_state, run_order-IsKept}
use kis_api_trend_atr.Orders.Execute.Once.{times_placed}

module _ {A : Type 0} ⦃f : Floats A⦄ where
  -- A fill is inferred exactly when the holding grew, shares were asked for and a price is known. Its
  -- quantity is at most what was asked for and what the holding grew by, and it counts as complete
  -- exactly when the holding grew by all that was asked for.
  pub inferred_fill_iff :
      (requested : ℕ) (order_no : Text) (q q' : ℕ) (p p' : A)
      → let inferred = inferred_fill requested order_no (q, p) (q', p') in
        let zero = f.of_nat 0 in
        ((is_some inferred ≡ true)
          ↔ ((q < q') × (0 < requested) × (f.le (if f.le p' zero then p else p') zero ≡ false)))
        × ((r : SynchronizedOrderResult A)
            → inferred ≡ some r
            → (r.exec_qty ≤ requested)
              × (q + r.exec_qty ≤ q')
              × ((r.success ≡ true) ↔ (q + requested ≤ q')))
  unfolding inferred_fill
  inferred_fill_iff requested order_no q q' p p' = (ground arith, λ r e. ground arith)

  module _ {D W : Type 0} (svc : Service A D W) where
    placed_once-IsKept :
        (o : Order) (k : Text) (n : ℕ) → IsKept svc o (λ s. times_placed k s.events ≡ n)
    unfolding times_placed upsert_order_state
    placed_once-IsKept o k n = record { world = λ s w p. p; write = λ status no fl re s p. p }

    pub run_order-times_placed :
        (infers : Bool) (o : Order) (place : W → W × PlaceReply) (timeout : ℕ)
        (s : Synchronizer D W)
        → times_placed o.idempotency_key (run_order svc infers o place timeout s).0.events
          ≡ suc (times_placed o.idempotency_key s.events)
    unfolding times_placed sent_state upsert_order_state
    run_order-times_placed infers o place timeout s =
        run_order-IsKept svc o (placed_once-IsKept o o.idempotency_key _) infers place timeout s
          (λ w. ground (arith, text_beq_iff o.idempotency_key o.idempotency_key))

    -- the row of the key, if there is one, is of an order that can be sent again
    unfoldable pub is_free : Text → Synchronizer D W → Bool
    is_free k s = elim (get_order_state svc k s) [
      | none ↦ true
      | some row ↦ not (is_taken row.status)
    ]

    pub unless_taken-sends :
        (infers : Bool) (o : Order) (place : W → W × PlaceReply) (timeout : ℕ)
        (s : Synchronizer D W) (found : Option OrderRow)
        → get_order_state svc o.idempotency_key s ≡ found
        → let s' = (unless_taken svc infers o place timeout s found).0 in
          (is_free o.idempotency_key s ≡ true
            → times_placed o.idempotency_key s'.events
              ≡ suc (times_placed o.idempotency_key s.events))
          × (is_free o.idempotency_key s ≡ false
              → (s'.events ≡ s.events) × (s'.db ≡ s.db) × (s'.world ≡ s.world))
    unfolding unless_taken is_free
    unless_taken-sends infers o place timeout s none e =
        (λ free. run_order-times_placed infers o place timeout s, λ taken. ground (arith, e))
    unless_taken-sends infers o place timeout s (some row) e =
        let again = run_order-times_placed infers o place timeout s in
        (λ free. ground (arith, e, again), λ taken. ground (arith, e))

    -- what a buy needs in order to be sent
    unfoldable pub admits_buy : BuyOrder A → Clocks → Synchronizer D W → Bool
    admits_buy b clocks s =
        let guard =
          (get_pending_order_guard_state svc.database s.db svc.times b.stock_code (codes "BUY")
            clocks.asked_at clocks.answered_at s.store).1 in
        (b.skip_market_check || is_tradeable clocks.check_time)
        && not (should_block_entry guard)
        && is_free (buy_order svc b clocks).idempotency_key s

    -- A buy sends its order once if the market is open or not asked about, the guard lets it pass and
    -- its key is not taken; else it sends nothing and writes nothing.
    pub buy_sends :
        (b : BuyOrder A) (clocks : Clocks) (s : Synchronizer D W)
        → let k = (buy_order svc b clocks).idempotency_key in
          let s' = (execute_buy_order svc b clocks s).0 in
          (admits_buy b clocks s ≡ true → times_placed k s'.events ≡ suc (times_placed k s.events))
          × (admits_buy b clocks s ≡ false
              → (s'.events ≡ s.events) × (s'.db ≡ s.db) × (s'.world ≡ s.world))
    unfolding admits_buy execute_buy_order run_once is_free get_order_state
    buy_sends b clocks s =
        let o = buy_order svc b clocks in
        let asked =
          get_pending_order_guard_state svc.database s.db svc.times b.stock_code (codes "BUY")
            clocks.asked_at clocks.answered_at s.store in
        let s1 : Synchronizer D W = record s { store = asked.0 } in
        let sends =
          unless_taken-sends true o (svc.broker.place_buy_order (buy_request svc.round_price b))
            svc.execution_timeout s1 (get_order_state svc o.idempotency_key s1) refl in
        (λ h. ground (arith, sends.0), λ h. ground (arith, sends.1))
