-- ===== src/Orders/Execute/Calls.antt =====
-- Runs of calls of the order synchronizer (kis_trend_atr_trading/engine/order_synchronizer.py): a rule
-- for what they keep.
use kis_api_trend_atr.Base.{
  ℕ, ◌≡◌, refl, Bool, true, false, not, ◌&&◌, Option, none, some, List, [], ◌∷◌, if◌then◌else◌,
  arith,
}
use kis_api_trend_atr.Base.Floats.{Floats}
use kis_api_trend_atr.Base.Text.{text_keyed, codes}
use kis_api_trend_atr.Orders.{
  is_taken, OrderRow, PlaceReply, Synchronizer, Service, Order, BuyOrder, SellOrder, Clocks,
  GuardStore, CallResult, should_block_entry,
}
use kis_api_trend_atr.Orders.Steps.{get_order_state}
use kis_api_trend_atr.Orders.Guard.{get_pending_order_guard_state}
use kis_api_trend_atr.Session.Checker.{is_tradeable}
use kis_api_trend_atr.Orders.Execute.{
  run_order, run_once, unless_taken, execute_buy_order, execute_sell_order, recover_pending_orders,
  sale_closed,
}

pub data Call (A : Type 0) : Type 0 where
  buy : BuyOrder A → Clocks → Call A
  sell : SellOrder → Clocks → Call A
  recover : Call A

module _ {A : Type 0} ⦃f : Floats A⦄ {D W : Type 0} (svc : Service A D W) where
  unfoldable pub call : Call A → Synchronizer D W → Synchronizer D W
  call (buy b clocks) s = (execute_buy_order svc b clocks s).0
  call (sell b clocks) s = (execute_sell_order svc b clocks s).0
  call recover s = (recover_pending_orders svc s).0

  unfoldable pub run : List (Call A) → Synchronizer D W → Synchronizer D W
  run [] s = s
  run (c ∷ calls) s = run calls (call c s)

  -- What keeps a property over a run: the guard's writes, an order whose key is free, a recovery.
  pub record IsStable (P : Synchronizer D W → Type 0) : Type 0 where
    pub stores : (s : Synchronizer D W) (st : GuardStore) → P s → P (record s { store = st })
    pub orders :
        (infers : Bool) (o : Order) (place : W → W × PlaceReply) (timeout : ℕ)
        (s : Synchronizer D W)
        → ((row : OrderRow)
            → get_order_state svc o.idempotency_key s ≡ some row
            → is_taken row.status ≡ false)
        → P s
        → P (run_order svc infers o place timeout s).0
    pub recovery : (s : Synchronizer D W) → P s → P (recover_pending_orders svc s).0

  module _ {P : Synchronizer D W → Type 0} (stable : IsStable P) where
    either_way :
        (b : Bool) (x y : Synchronizer D W × CallResult A)
        → P x.0
        → (b ≡ false → P y.0)
        → P (if b then x else y).0
    either_way true x y p q = p
    either_way false x y p q = q refl

    unless_taken-keeps :
        (infers : Bool) (o : Order) (place : W → W × PlaceReply) (timeout : ℕ)
        (s : Synchronizer D W) (found : Option OrderRow)
        → get_order_state svc o.idempotency_key s ≡ found
        → P s
        → P (unless_taken svc infers o place timeout s found).0
    unfolding unless_taken
    unless_taken-keeps infers o place timeout s none e p =
        stable.orders infers o place timeout s (λ row h. ground arith) p
    unless_taken-keeps infers o place timeout s (some row) e p =
        either_way (is_taken row.status) _ _ p
          (λ free. stable.orders infers o place timeout s (λ other h. ground arith) p)

    run_once-keeps :
        (infers : Bool) (o : Order) (place : W → W × PlaceReply) (timeout : ℕ)
        (s : Synchronizer D W)
        → P s
        → P (run_once svc infers o place timeout s).0
    unfolding run_once
    run_once-keeps infers o place timeout s p = unless_taken-keeps infers o place timeout s _ refl p

    call-keeps : (c : Call A) (s : Synchronizer D W) → P s → P (call c s)
    unfolding call execute_buy_order execute_sell_order
    call-keeps (buy b clocks) s p =
        either_way (not b.skip_market_check && not (is_tradeable clocks.check_time)) _ _ p
          (λ open_now.
            let asked =
              get_pending_order_guard_state svc.database s.db svc.times b.stock_code (codes "BUY")
                clocks.asked_at clocks.answered_at s.store in
            let p1 = stable.stores s asked.0 p in
            either_way (should_block_entry asked.1) _ _ p1 (λ passed. run_once-keeps _ _ _ _ _ p1))
    call-keeps (sell b clocks) s p =
        either_way (sale_closed b clocks) _ _ p (λ open_now. run_once-keeps _ _ _ _ _ p)
    call-keeps recover s p = stable.recovery s p

    pub run-keeps : (calls : List (Call A)) (s : Synchronizer D W) → P s → P (run calls s)
    unfolding run
    run-keeps [] s p = p
    run-keeps (c ∷ calls) s p = run-keeps calls (call c s) (call-keeps c s p)
