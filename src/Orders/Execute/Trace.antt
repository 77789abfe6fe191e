-- ===== src/Orders/Execute/Trace.antt =====
-- A rule for what holds after an order of kis_trend_atr_trading/engine/order_synchronizer.py has run, and
-- the trace that it leaves.
use kis_api_trend_atr.Base.{ℕ, Bool, true, false, Option, none, some, [], ◌∷◌}
use kis_api_trend_atr.Base.Floats.{Floats}
use kis_api_trend_atr.Base.Text.{Text, text_keyed}
use kis_api_trend_atr.Orders.{
  OrderStatus, pending, PlaceReply, place_raised, refused, accepted, ExecReply, ExecStatus,
  exec_filled, exec_partial, exec_other, WaitReply, wait_raised, replied, SynchronizedOrderResult,
  placed, Synchronizer, Service, Order,
}
use kis_api_trend_atr.Orders.Steps.{
  upsert_order_state, get_order_state, send, note_reply, get_holding_snapshot,
  infer_buy_fill_from_holdings,
}
use kis_api_trend_atr.Orders.Execute.{
  settle, settle_inferred, conclude, after_wait, after_sent, run_order,
}

module _ {A : Type 0} ⦃f : Floats A⦄ {D W : Type 0} (svc : Service A D W) (o : Order) where
  -- A property that the order's writes and the client's calls keep.
  pub record IsKept (P : Synchronizer D W → Type 0) : Type 0 where
    pub world : (s : Synchronizer D W) (w : W) → P s → P (record s { world = w })
    pub write :
        (status : OrderStatus) (order_no : Text) (filled remaining : ℕ) (s : Synchronizer D W)
        → P s
        → P (upsert_order_state svc o status order_no filled remaining s)

  -- the order as the trace has it when it is sent
  unfoldable pub sent_state : Synchronizer D W → W → Synchronizer D W
  sent_state s w =
      let s1 = upsert_order_state svc o pending [] 0 o.quantity s in
      record s1 {
        world = w;
        events = placed o.idempotency_key (get_order_state svc o.idempotency_key s1) ∷ s1.events;
      }

  module _ {P : Synchronizer D W → Type 0} (kept : IsKept P) where
    infer-IsKept :
        (code : Text) (n : ℕ) (before : Option (ℕ × A)) (order_no : Text) (s : Synchronizer D W)
        → P s
        → P (infer_buy_fill_from_holdings svc code n before order_no s).0
    unfolding infer_buy_fill_from_holdings get_holding_snapshot
    infer-IsKept code n none order_no s p = p
    infer-IsKept code n (some before) order_no s p =
        kept.world s (svc.broker.get_holdings s.world).0 p

    settle_inferred-IsKept :
        (order_no : Text) (r : ExecReply A) (s : Synchronizer D W)
        (inferred : Option (SynchronizedOrderResult A))
        → P s
        → P (settle_inferred svc o order_no r (s, inferred)).0
    unfolding settle_inferred settle
    settle_inferred-IsKept order_no r s none p = kept.write _ _ _ _ s p
    settle_inferred-IsKept order_no r s (some result) p = kept.write _ _ _ _ s p

    conclude-IsKept :
        (infers : Bool) (order_no : Text) (before : Option (ℕ × A)) (r : ExecReply A)
        (status : ExecStatus) (s : Synchronizer D W)
        → P s
        → P (conclude svc infers o order_no before r status s).0
    unfolding conclude settle
    conclude-IsKept infers order_no before r exec_filled s p = kept.write _ _ _ _ s p
    conclude-IsKept infers order_no before r exec_partial s p = kept.write _ _ _ _ s p
    conclude-IsKept true order_no before r exec_other s p =
        let (s', inferred) =
          infer_buy_fill_from_holdings svc o.stock_code o.quantity before order_no s in
        settle_inferred-IsKept order_no r s' inferred
          (infer-IsKept o.stock_code o.quantity before order_no s p)
    conclude-IsKept false order_no before r exec_other s p = kept.write _ _ _ _ s p

    after_wait-IsKept :
        (infers : Bool) (order_no : Text) (before : Option (ℕ × A)) (s : Synchronizer D W) (w : W)
        (reply : WaitReply A)
        → P s
        → P (after_wait svc infers o order_no before s (w, reply)).0
    unfolding after_wait
    after_wait-IsKept infers order_no before s w wait_raised p = kept.world s w p
    after_wait-IsKept infers order_no before s w (replied r) p =
        conclude-IsKept infers order_no before r r.status (record s { world = w })
          (kept.world s w p)

    after_sent-IsKept :
        (infers : Bool) (timeout : ℕ) (before : Option (ℕ × A)) (s : Synchronizer D W)
        (sent : Option (Text × Text))
        → P s
        → P (after_sent svc infers o timeout before (s, sent)).0
    unfolding after_sent
    after_sent-IsKept infers timeout before s none p = p
    after_sent-IsKept infers timeout before s (some (order_no, branch_no)) p =
        after_wait-IsKept infers order_no before s _ _ p

    note_reply-IsKept :
        (reply : PlaceReply) (s : Synchronizer D W) → P s → P (note_reply svc o reply s).0
    unfolding note_reply
    note_reply-IsKept place_raised s p = kept.write _ _ _ _ s p
    note_reply-IsKept refused s p = kept.write _ _ _ _ s p
    note_reply-IsKept (accepted order_no branch_no) s p = kept.write _ _ _ _ s p

    -- What holds when the order has been sent holds when it has run.
    pub run_order-IsKept :
        (infers : Bool) (place : W → W × PlaceReply) (timeout : ℕ) (s : Synchronizer D W)
        → ((w : W) → P (sent_state s w))
        → P (run_order svc infers o place timeout s).0
    unfolding run_order send get_holding_snapshot sent_state get_order_state
    run_order-IsKept infers place timeout s start =
        after_sent-IsKept infers timeout _ _ _ (note_reply-IsKept _ _ (start _))
