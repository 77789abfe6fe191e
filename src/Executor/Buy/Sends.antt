-- ===== src/Executor/Buy/Sends.antt =====
-- What `execute_buy` does to the order synchronizer (kis_trend_atr_trading/engine/multiday_executor.py).
use kis_api_trend_atr.Base.{◌≡◌, ◌⊎◌, Bool, true, false, some}
use kis_api_trend_atr.Base.Floats.{Floats}
use kis_api_trend_atr.Base.Text.{text_keyed}
use kis_api_trend_atr.Orders.{Service, CallResult, GuardStore}
use kis_api_trend_atr.Orders.Execute.{execute_buy_order}
use kis_api_trend_atr.Executor.OrderPlan.{EntryPlan, build_entry_order_plan}
use kis_api_trend_atr.Executor.Buy.{
  BuySettings, BuySignal, BuyReads, Buyer, Quote, BuyOutcome, exits, rejected, virtual_buy, ordered,
  buy_order_of,
}

-- whether the outcome is a result of the order synchronizer
abbrev pub is_ordered : {A : Type 0} → BuyOutcome A → Bool
is_ordered x = elim x [
  | exits ↦ false
  | rejected reason ↦ false
  | virtual_buy ↦ false
  | ordered r ↦ true
]

module _ {A D W : Type 0} ⦃f : Floats A⦄ (svc : Service A D W) (s : BuySettings A)
    (signal : BuySignal A) (reads : BuyReads A) where
  -- the plan of an order at the quote that was read, which does not block it
  abbrev pub IsPlanned : EntryPlan → Type 0
  IsPlanned plan =
      (plan.blocked ≡ false)
      × ((q : Quote A) × (reads.quote ≡ some q)
          × (plan ≡ build_entry_order_plan s.plan signal.meta q.prices))

  -- Nothing is sent, written or given back as ordered, or the synchronizer is called once, with a plan
  -- that is not blocked.
  abbrev pub SendsOnce : Buyer A D W → Buyer A D W × BuyOutcome A → Type 0
  SendsOnce b x =
      ((x.0.synchronizer.db ≡ b.synchronizer.db)
        × (x.0.synchronizer.world ≡ b.synchronizer.world)
        × (x.0.synchronizer.events ≡ b.synchronizer.events)
        × (is_ordered x.1 ≡ false))
      ⊎ ((plan : EntryPlan) × (store : GuardStore) × (r : CallResult A) × IsPlanned plan
          × (x.1 ≡ ordered r)
          × (execute_buy_order svc (buy_order_of svc s signal reads plan) reads.clocks
                (record b.synchronizer { store = store })
              ≡ (x.0.synchronizer, r)))
