-- ===== src/Orders/Execute/Ahead.antt =====
-- What the database has of an order when it is sent (kis_trend_atr_trading/engine/order_synchronizer.py).
use kis_api_trend_atr.Base.{◌≡◌, some, List, [], ◌∷◌, arith}
use kis_api_trend_atr.Base.Floats.{Floats}
use kis_api_trend_atr.Base.Text.{text_keyed, text_beq_iff}
use kis_api_trend_atr.Orders.{pending, Event, placed, Synchronizer, Service, Order}
use kis_api_trend_atr.Orders.Steps.{upsert_order_state, get_order_state}
use kis_api_trend_atr.Orders.Execute.{recover_pending_orders}
use kis_api_trend_atr.Orders.Execute.Trace.{sent_state, run_order-IsKept}
use kis_api_trend_atr.Orders.Execute.Calls.{Call, run, IsStable, run-keeps}
use kis_api_trend_atr.Orders.Execute.Once.{IsTable, status_of, recorded-upsert}

-- When each order was sent, the database had a row of its key, and that was PENDING.
unfoldable pub IsWrittenAhead : List Event → Type 0
IsWrittenAhead [] = Unit
IsWrittenAhead (placed k found ∷ es) = (status_of found ≡ some pending) × IsWrittenAhead es

module _ {A : Type 0} ⦃f : Floats A⦄ {D W : Type 0} (svc : Service A D W)
    (table : IsTable svc.database) where
  pending-upsert :
      (o : Order) (s : Synchronizer D W)
      → status_of (
          get_order_state svc o.idempotency_key
            (upsert_order_state svc o pending [] 0 o.quantity s))
        ≡ some pending
  unfolding get_order_state
  pending-upsert o s = ground (
    arith,
    table.in_use,
    recorded-upsert svc table o pending [] 0 o.quantity s o.idempotency_key,
    text_beq_iff o.idempotency_key o.idempotency_key,
  )

  recover-events : (s : Synchronizer D W) → (recover_pending_orders svc s).0.events ≡ s.events
  unfolding recover_pending_orders
  recover-events s = ground arith

  sent-IsWrittenAhead :
      (o : Order) (s : Synchronizer D W) (w : W)
      → IsWrittenAhead s.events
      → IsWrittenAhead (sent_state svc o s w).events
  unfolding IsWrittenAhead sent_state upsert_order_state
  sent-IsWrittenAhead o s w p = (pending-upsert o s, p)

  IsWrittenAhead-IsStable : IsStable svc (λ s. IsWrittenAhead s.events)
  unfolding upsert_order_state
  IsWrittenAhead-IsStable = record {
    stores = λ s st p. p;
    orders = λ infers o place timeout s free p.
        run_order-IsKept svc o {P = λ s. IsWrittenAhead s.events}
          (record { world = λ s w p. p; write = λ status no fl re s p. p }) infers place timeout s
          (λ w. sent-IsWrittenAhead o s w p);
    recovery = λ s p. rw (recover-events s) p;
  }

  -- With a table whose writes do not fail, and from a trace of which this holds, whatever is called and
  -- whatever the broker answers: when an order is sent, the table has its key as PENDING.
  pub run-IsWrittenAhead :
      (calls : List (Call A)) (s : Synchronizer D W)
      → IsWrittenAhead s.events
      → IsWrittenAhead (run svc calls s).events
  run-IsWrittenAhead = run-keeps svc IsWrittenAhead-IsStable
