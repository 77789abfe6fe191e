-- ===== src/Orders/Execute/Once.antt =====
-- An order of kis_trend_atr_trading/engine/order_synchronizer.py that was filled is not sent again.
use kis_api_trend_atr.Base.{
  ℕ, suc, ◌≡◌, refl, true, false, Option, none, some, List, [], ◌∷◌, if◌then◌else◌, arith,
  Bool-cases, inl, inr,
}
use kis_api_trend_atr.Base.Eq.{◌==◌}
use kis_api_trend_atr.Base.Floats.{Floats}
use kis_api_trend_atr.Base.Text.{Text, text_keyed, text_beq_iff}
use kis_api_trend_atr.Orders.{
  OrderStatus, pending, filled, is_taken, OrderRow, Database, Event, placed, Synchronizer, Service,
  Order,
}
use kis_api_trend_atr.Orders.Steps.{upsert_order_state, get_order_state}
use kis_api_trend_atr.Orders.Execute.{recover_pending_orders}
use kis_api_trend_atr.Orders.Execute.Trace.{IsKept, sent_state, run_order-IsKept}
use kis_api_trend_atr.Orders.Execute.Calls.{Call, run, IsStable, run-keeps}

-- how often an order of a key was sent
unfoldable pub times_placed : Text → List Event → ℕ
times_placed k [] = 0
times_placed k (placed j found ∷ es) =
    let rest = times_placed k es in if j == k then suc rest else rest

abbrev pub status_of : Option OrderRow → Option OrderStatus
status_of none = none
status_of (some row) = some row.status

filled_not_free :
    (found : Option OrderRow)
    → status_of found ≡ some filled
    → ((row : OrderRow) → found ≡ some row → is_taken row.status ≡ false)
    → ⊥
filled_not_free none e free = ground arith
filled_not_free (some row) e free = ground (arith, free row refl)

-- A table that does what the statements say, and no write of which fails.
pub record IsTable {D : Type 0} (db : Database D) : Type 0 where
  pub in_use : db.present ≡ true
  pub upserted :
      (row : OrderRow) (d : D) (k : Text)
      → status_of (db.find k (db.upsert row d))
        ≡ (if row.idempotency_key == k then some row.status else status_of (db.find k d))
  -- only open orders are closed as stale
  pub cleaned :
      (d : D) (k : Text)
      → status_of (db.find k d) ≡ some filled
      → status_of (db.find k (db.close_stale d)) ≡ some filled

module _ {A : Type 0} ⦃f : Floats A⦄ {D W : Type 0} (svc : Service A D W)
    (table : IsTable svc.database) where
  pub recorded-upsert :
      (o : Order) (status : OrderStatus) (order_no : Text) (fl re : ℕ) (s : Synchronizer D W)
      (k : Text)
      → status_of (svc.database.find k (upsert_order_state svc o status order_no fl re s).db)
        ≡ (if o.idempotency_key == k then some status else status_of (svc.database.find k s.db))
  unfolding upsert_order_state
  recorded-upsert o status order_no fl re s k = rw table.in_use (table.upserted _ s.db k)

  -- the key is filled, and was sent so many times
  unfoldable pub Closed : Text → ℕ → Synchronizer D W → Type 0
  Closed k n s =
      (status_of (svc.database.find k s.db) ≡ some filled) × (times_placed k s.events ≡ n)

  other_key-IsKept :
      (k : Text) (n : ℕ) (o : Order) → (o.idempotency_key == k) ≡ false → IsKept svc o (Closed k n)
  unfolding Closed upsert_order_state times_placed
  other_key-IsKept k n o other = record {
    world = λ s w p. p;
    write =
        λ status no fl re s p. (ground (arith, p.0, recorded-upsert o status no fl re s k), p.1);
  }

  get_order_state-find :
      (k : Text) (s : Synchronizer D W) → get_order_state svc k s ≡ svc.database.find k s.db
  unfolding get_order_state
  get_order_state-find k s = ground (arith, table.in_use)

  sent-Closed :
      (k : Text) (n : ℕ) (o : Order) (s : Synchronizer D W) (w : W)
      → (o.idempotency_key == k) ≡ false
      → Closed k n s
      → Closed k n (sent_state svc o s w)
  unfolding Closed sent_state times_placed upsert_order_state
  sent-Closed k n o s w other p =
      (ground (arith, p.0, recorded-upsert o pending [] 0 o.quantity s k), ground (arith, p.1))

  recover-Closed :
      (k : Text) (n : ℕ) (s : Synchronizer D W)
      → Closed k n s
      → Closed k n (recover_pending_orders svc s).0
  unfolding Closed recover_pending_orders
  recover-Closed k n s p = ground (arith, p.0, p.1, table.in_use, table.cleaned s.db k)

  filled-IsStable : (k : Text) (n : ℕ) → IsStable svc (Closed k n)
  unfolding Closed
  filled-IsStable k n = record {
    stores = λ s st p. p;
    orders = λ infers o place timeout s free p. elim (Bool-cases (o.idempotency_key == k)) [
      | inl e ↦ absurd (
          filled_not_free (get_order_state svc o.idempotency_key s)
            (ground (arith, p.0, get_order_state-find k s, text_beq_iff o.idempotency_key k)) free)
      | inr e ↦
          run_order-IsKept svc o (other_key-IsKept k n o e) infers place timeout s
            (λ w. sent-Closed k n o s w e p)
    ];
    recovery = recover-Closed k n;
  }

  -- With a table whose writes do not fail: an order whose key is FILLED stays so and is not sent
  -- again, whatever is called and whatever the broker answers.
  pub filled_once :
      (calls : List (Call A)) (k : Text) (s : Synchronizer D W)
      → status_of (svc.database.find k s.db) ≡ some filled
      → (status_of (svc.database.find k (run svc calls s).db) ≡ some filled)
        × (times_placed k (run svc calls s).events ≡ times_placed k s.events)
  unfolding Closed
  filled_once calls k s e =
      run-keeps svc (filled-IsStable k (times_placed k s.events)) calls s (e, refl)
