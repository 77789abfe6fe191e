-- ===== src/Executor/Buy/Cleared.antt =====
-- What holds when a buy is handed to the order synchronizer, and what is left when it is not
-- (kis_trend_atr_trading/engine/multiday_executor.py).
use kis_api_trend_atr.Base.{◌≡◌, ◌⊎◌, true, false, ◌&&◌, Option, none, some, eqb}
use kis_api_trend_atr.Base.Floats.{Floats}
use kis_api_trend_atr.Base.Text.{codes, lower, text_keyed}
use kis_api_trend_atr.Resync.{max_of}
use kis_api_trend_atr.Session.Checker.{is_tradeable}
use kis_api_trend_atr.Risk.Orders.{is_killed}
use kis_api_trend_atr.Orders.{Service, should_block_entry}
use kis_api_trend_atr.Orders.Guard.{get_pending_order_guard_state}
use kis_api_trend_atr.Executor.OrderPlan.{build_entry_order_plan}
use kis_api_trend_atr.Executor.Validation.{
  neutral, bad, RegimeSettings, RegimeSnapshot, QuoteAge, Store, run_order_final_validation,
  applies, is_real, after_holdings,
}
use kis_api_trend_atr.Executor.Validation.Validated.{IsValidated, validated}
use kis_api_trend_atr.Executor.Buy.{
  BuySettings, BuySignal, BuyReads, Buyer, Quote, can_place_orders, asks_guard, estimated_cost,
}

-- no snapshot, or a stale one
abbrev pub IsUnknown : Option RegimeSnapshot → Type 0
IsUnknown o = (o ≡ none) ⊎ ((x : RegimeSnapshot) × (o ≡ some x) × (x.is_stale ≡ true))

-- The filter is off, or a missing or stale snapshot may pass and it is one, or the regime allows buys.
abbrev pub IsRegimeOpen : RegimeSettings → Option RegimeSnapshot → Type 0
IsRegimeOpen s o =
    (s.filter_enabled ≡ false)
    ⊎ ((s.fail_open ≡ true) × IsUnknown o)
    ⊎ ((x : RegimeSnapshot) × (o ≡ some x)
        × (x.is_stale ≡ false)
        × (x.regime ≡ bad → s.bad_blocks ≡ false)
        × (x.regime ≡ neutral → s.neutral_allows ≡ true))

module _ {A : Type 0} ⦃f : Floats A⦄ where
  -- a quote of the websocket is a connected one's own tick, and young enough
  abbrev pub IsFresh : A → QuoteAge A → Type 0
  IsFresh max_age q =
      lower q.data_feed ≡ codes "ws"
      → (q.source ≡ codes "ws_tick")
        × (q.ws_connected ≡ true)
        × ((age : A) × (q.age_sec ≡ some age) × (f.lt (max_of max_age (f.of_nat 0)) age ≡ false))

module _ {A D W : Type 0} ⦃f : Floats A⦄ (svc : Service A D W) (s : BuySettings A)
    (signal : BuySignal A) (reads : BuyReads A) where
  -- what the market, its regime and the quote allow
  pub record IsMarketOpen : Type 0 where
    pub tradeable :
        can_place_orders s.trading_mode ≡ true → is_tradeable reads.clocks.check_time ≡ true
    pub regime : IsRegimeOpen s.regime reads.regime
    pub quote :
        (q : Quote A) × (reads.quote ≡ some q)
        × (s.enable_stale_quote_guard ≡ true → IsFresh s.quote_max_age_sec q.age)
        × ((build_entry_order_plan s.plan signal.meta q.prices).blocked ≡ false)

  -- what is known of the account when a buy is handed over
  pub record IsCleared (b : Buyer A D W) : Type 0 where
    pub unkilled : is_killed b.risk ≡ false
    pub within_limit : (b.risk.daily_limit_reached && eqb b.risk.daily_pnl.date reads.today) ≡ false
    pub free : b.has_position ≡ false
    pub unguarded :
        asks_guard s signal ≡ true
        → should_block_entry
            (get_pending_order_guard_state svc.database b.synchronizer.db svc.times s.stock_code
              (codes "BUY")
              reads.guard_asked_at
              reads.guard_answered_at
              b.synchronizer.store).1
          ≡ false
    pub validated :
        applies s.validation signal.strategy_tag ≡ true
        → is_real s.validation.report_mode ≡ true
        → IsValidated s.validation s.stock_code
            (estimated_cost svc s signal reads)
            reads.api
            b.snapshots
            (after_holdings s.validation reads.api b.snapshots)
    pub market : IsMarketOpen

  -- the final validation let the buy pass, and so did what follows
  abbrev Passes : Store A → Type 0
  Passes store =
      ((run_order_final_validation s.validation signal.strategy_tag s.stock_code
          (estimated_cost svc s signal reads) reads.api store).1
        ≡ none)
      × IsMarketOpen
