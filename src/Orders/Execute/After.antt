-- ===== src/Orders/Execute/After.antt =====
-- What a call of the order synchronizer (kis_trend_atr_trading/engine/order_synchronizer.py) means for
-- the later ones.
use kis_api_trend_atr.Base.{
  ◌≡◌, ap, refl, true, none, some, List, [], if◌then◌else◌, arith, inl, inr,
}
use kis_api_trend_atr.Base.Eq.{pair_keyed, same_pair_iff}
use kis_api_trend_atr.Base.Dict.{lookup}
use kis_api_trend_atr.Base.Floats.{Floats}
use kis_api_trend_atr.Base.Text.{Text, codes, text_keyed, text_beq_iff, strip, upper}
use kis_api_trend_atr.Orders.{
  OrderStatus, filled, is_taken, is_open, open_state, clear_state, PendingEntry, should_block_entry,
  SynchronizedOrderResult, success_result, returned, Synchronizer, Service, Order, BuyOrder,
  SellOrder, Clocks,
}
use kis_api_trend_atr.Orders.Guard.{
  get_pending_order_guard_state, normalize_guard_symbol, normalize_guard_side,
  apply_shared_pending_status, is_expired,
}
use kis_api_trend_atr.Orders.Guard.Answers.{IsSpelled, live, guard_blocks_iff, lookup-update}
use kis_api_trend_atr.Orders.Steps.{upsert_order_state}
use kis_api_trend_atr.Orders.Execute.{execute_buy_order, execute_sell_order, buy_order, sell_order}
use kis_api_trend_atr.Orders.Execute.Calls.{Call, run}
use kis_api_trend_atr.Orders.Execute.Once.{
  IsTable, status_of, times_placed, recorded-upsert, filled_once,
}
use kis_api_trend_atr.Orders.Execute.Outcome.{
  status_of_result, outcome, IsWritten, execute_buy_order-Reports, execute_sell_order-Reports,
  Reports,
}

abbrev open_entry : OrderStatus → PendingEntry
open_entry st = record {
  state = open_state;
  has_open_order = true;
  status = st;
  expires_at = none;
  error = [];
}

taken_of_open : (st : OrderStatus) → is_open st ≡ true → is_taken st ≡ true
taken_of_open st h = ground arith

module _ {A : Type 0} ⦃f : Floats A⦄ {D W : Type 0} (svc : Service A D W) where
  -- the row of a key has a status
  Recorded : Text → OrderStatus → Synchronizer D W → Type 0
  Recorded k st s = status_of (svc.database.find k s.db) ≡ some st

  Recorded-IsWritten :
      (o : Order) → IsTable svc.database → IsWritten svc o (Recorded o.idempotency_key)
  unfolding Recorded
  Recorded-IsWritten o table = record {
    world = λ st s w q. q;
    write = λ st no fl re s. ground (
      arith,
      recorded-upsert svc table o st no fl re s o.idempotency_key,
      text_beq_iff o.idempotency_key o.idempotency_key,
    );
  }

  -- With a table whose writes do not fail: when a buy has returned SUCCESS, its key is never sent
  -- again, whatever is called and whatever the broker answers.
  pub bought_once :
      (b : BuyOrder A) (clocks : Clocks) (s : Synchronizer D W) (calls : List (Call A))
      (r : SynchronizedOrderResult A)
      → IsTable svc.database
      → (execute_buy_order svc b clocks s).1 ≡ returned r
      → r.result_type ≡ success_result
      → let k = (buy_order svc b clocks).idempotency_key in
        let s' = (execute_buy_order svc b clocks s).0 in
        times_placed k (run svc calls s').events ≡ times_placed k s'.events
  unfolding Reports outcome status_of_result Recorded
  bought_once b clocks s calls r table e kind =
      let o = buy_order svc b clocks in
      let reports = execute_buy_order-Reports svc b clocks (Recorded-IsWritten o table) s in
      let closed : outcome (execute_buy_order svc b clocks s).1 ≡ filled = rw e (rw kind refl) in
      (filled_once svc table calls o.idempotency_key (execute_buy_order svc b clocks s).0
        (cc (closed, reports (ap is_taken closed)))).1

  -- The same of a sale.
  pub sold_once :
      (b : SellOrder) (clocks : Clocks) (s : Synchronizer D W) (calls : List (Call A))
      (r : SynchronizedOrderResult A)
      → IsTable svc.database
      → (execute_sell_order svc b clocks s).1 ≡ returned r
      → r.result_type ≡ success_result
      → let k = (sell_order svc b clocks).idempotency_key in
        let s' = (execute_sell_order svc b clocks s).0 in
        times_placed k (run svc calls s').events ≡ times_placed k s'.events
  unfolding Reports outcome status_of_result Recorded
  sold_once b clocks s calls r table e kind =
      let o = sell_order svc b clocks in
      let reports = execute_sell_order-Reports svc b clocks (Recorded-IsWritten o table) s in
      let closed : outcome (execute_sell_order svc b clocks s).1 ≡ filled = rw e (rw kind refl) in
      (filled_once svc table calls o.idempotency_key (execute_sell_order svc b clocks s).0
        (cc (closed, reports (ap is_taken closed)))).1

  -- the guard's entry of an order that is open
  Noted : Order → OrderStatus → Synchronizer D W → Type 0
  Noted o st s =
      is_open st ≡ true → lookup (o.stock_code, o.side) s.store.entries ≡ some (open_entry st)

  Noted-IsWritten : (o : Order) → IsSpelled o.stock_code o.side → IsWritten svc o (Noted o)
  unfolding Noted upsert_order_state apply_shared_pending_status
  Noted-IsWritten o spelled = record {
    world = λ st s w q. q;
    write = λ st no fl re s is_open_now. ground (
      arith,
      is_open_now,
      lookup-update spelled st (if is_open st then open_state else clear_state) (is_open st) none []
          0 s.store (o.stock_code, o.side),
      same_pair_iff (o.stock_code, o.side) (o.stock_code, o.side),
    );
  }

  -- the side that a buy asks the guard about
  buy-IsSpelled : (code : Text) → normalize_guard_symbol code ≡ code → IsSpelled code (codes "BUY")
  unfolding normalize_guard_side strip upper
  buy-IsSpelled code kept = record { code_kept = kept; side_kept = refl; has_side = refl }

  blocked_buy :
      (b : BuyOrder A) (clocks : Clocks) (s : Synchronizer D W)
      → should_block_entry
          (get_pending_order_guard_state svc.database s.db svc.times b.stock_code
            (codes "BUY")
            clocks.asked_at
            clocks.answered_at
            s.store).1
        ≡ true
      → let s' = (execute_buy_order svc b clocks s).0 in
        (s'.events ≡ s.events) × (s'.db ≡ s.db) × (s'.world ≡ s.world)
  unfolding execute_buy_order
  blocked_buy b clocks s blocked = ground (arith, blocked)

  -- an open entry that never expires blocks at any time
  guard_blocks_open :
      (code : Text) (clocks : Clocks) (s : Synchronizer D W) (e : PendingEntry)
      → normalize_guard_symbol code ≡ code
      → lookup (code, codes "BUY") s.store.entries ≡ some e
      → e.expires_at ≡ none
      → e.has_open_order ≡ true
      → should_block_entry
          (get_pending_order_guard_state svc.database s.db svc.times code
            (codes "BUY")
            clocks.asked_at
            clocks.answered_at
            s.store).1
        ≡ true
  unfolding live is_expired
  guard_blocks_open code clocks s e kept found stays has_open =
      (guard_blocks_iff (buy-IsSpelled code kept) svc.database s.db svc.times clocks.asked_at
          clocks.answered_at s.store).1
        (inl (e, ground (arith, found, stays), inr has_open))

  -- When a buy of a code that is spelled as the guard spells it has ended PARTIAL or with an exception
  -- of the wait, the next call, if it is a buy of the same code, sends nothing and writes nothing,
  -- whatever its quantity, signal and price and whatever the clocks.
  pub open_buy_blocks :
      (b b' : BuyOrder A) (clocks clocks' : Clocks) (s : Synchronizer D W)
      → normalize_guard_symbol b.stock_code ≡ b.stock_code
      → b'.stock_code ≡ b.stock_code
      → is_open (outcome (execute_buy_order svc b clocks s).1) ≡ true
      → let s' = (execute_buy_order svc b clocks s).0 in
        let s'' = (execute_buy_order svc b' clocks' s').0 in
        (s''.events ≡ s'.events) × (s''.db ≡ s'.db) × (s''.world ≡ s'.world)
  unfolding Reports Noted buy_order
  open_buy_blocks b b' clocks clocks' s kept same is_open_now =
      let o = buy_order svc b clocks in
      let s' = (execute_buy_order svc b clocks s).0 in
      let entry =
        execute_buy_order-Reports svc b clocks (Noted-IsWritten o (buy-IsSpelled b.stock_code kept))
          s (taken_of_open _ is_open_now) is_open_now in
      blocked_buy b' clocks' s' (
        guard_blocks_open b'.stock_code clocks' s'
          (open_entry (outcome (execute_buy_order svc b clocks s).1)) (rw same kept) (rw same entry)
          refl refl)
