-- ===== src/Executor/Buy.antt =====
-- `execute_buy` of MultidayExecutor (kis_trend_atr_trading/engine/multiday_executor.py) up to the order: the
-- checks in their order, and the call of the order synchronizer. The signal is a buy. What the result does
-- to the position, log lines, messages and the events for the analytics are left out.
pub mod Cleared
pub mod Sends
use kis_api_trend_atr.Base.{
  ℕ, ◌&&◌, ◌||◌, not, Bool, true, false, Option, none, some, [], if◌then◌else◌, max, is_some,
}
use kis_api_trend_atr.Base.Eq.{◌==◌}
use kis_api_trend_atr.Base.Floats.{Floats}
use kis_api_trend_atr.Base.Text.{Text, codes, text_keyed}
use kis_api_trend_atr.Session.Checker.{is_tradeable}
use kis_api_trend_atr.Risk.{RiskManager, RiskCheckResult, CheckReason, check_order_allowed}
use kis_api_trend_atr.Orders.{
  Synchronizer, Service, Clocks, BuyOrder, CallResult, GuardStore, PendingOrderGuardSnapshot,
  should_block_entry,
}
use kis_api_trend_atr.Orders.Guard.{get_pending_order_guard_state}
use kis_api_trend_atr.Orders.Execute.{execute_buy_order}
use kis_api_trend_atr.Executor.OrderPlan.{
  PlanSettings, PlanMeta, PlanQuote, EntryPlan, build_entry_order_plan,
}
use kis_api_trend_atr.Executor.Validation.{
  ValidationSettings, ValidationBlock, RegimeSettings, RegimeSnapshot, QuoteAge, ApiAnswers, Store,
  run_order_final_validation, is_regime_blocked, is_stale_quote,
}

-- the settings and what the executor is made with
pub record BuySettings (A : Type 0) : Type 0 where
  pub stock_code : Text
  pub order_quantity : ℕ
  pub trading_mode : Text
  pub pullback_block_if_pending_order : Bool
  pub enable_stale_quote_guard : Bool
  pub quote_max_age_sec : A
  pub validation : ValidationSettings
  pub regime : RegimeSettings
  pub plan : PlanSettings

-- with the text that the code makes of its code, strategy, price and minute as `signal_id`
pub record BuySignal (A : Type 0) : Type 0 where
  pub strategy_tag : Text
  pub price : A
  pub meta : PlanMeta
  pub signal_id : Text

pub record Quote (A : Type 0) : Type 0 where
  pub age : QuoteAge A
  pub prices : PlanQuote

-- What a call reads: the clocks, the answers of the API, and the last snapshot of the market's regime. A
-- quote that is `none` could not be fetched.
pub record BuyReads (A : Type 0) : Type 0 where
  pub today : ℕ
  pub guard_asked_at : ℕ
  pub guard_answered_at : ℕ
  pub api : ApiAnswers A
  pub regime : Option RegimeSnapshot
  pub quote : Option (Quote A)
  pub clocks : Clocks

pub record Buyer (A D W : Type 0) : Type 0 where
  pub risk : RiskManager A
  pub has_position : Bool
  pub snapshots : Store A
  pub synchronizer : Synchronizer D W

pub data BuyBlock : Type 0 where
  risk_check_failed : CheckReason → BuyBlock
  existing_position pending_order market_unavailable market_regime_guard stale_quote : BuyBlock
  protected_limit_exceeds_cap quote_raised : BuyBlock
  final_validation_failed : ValidationBlock → BuyBlock

pub data BuyOutcome (A : Type 0) : Type 0 where
  -- `safe_exit_with_message` ends the program
  exits : BuyOutcome A
  rejected : BuyBlock → BuyOutcome A
  -- the position is opened without an order
  virtual_buy : BuyOutcome A
  ordered : CallResult A → BuyOutcome A

-- `_can_place_orders`
unfoldable pub can_place_orders : Text → Bool
can_place_orders mode = mode == codes "LIVE" || mode == codes "REAL" || mode == codes "PAPER"

unfoldable pub asks_guard : {A : Type 0} → BuySettings A → BuySignal A → Bool
asks_guard s signal =
    signal.strategy_tag == codes "pullback_rebreakout" && s.pullback_block_if_pending_order

module _ {A D W : Type 0} ⦃f : Floats A⦄ (svc : Service A D W) (s : BuySettings A)
    (signal : BuySignal A) (reads : BuyReads A) where
  -- the cost that the validation estimates
  abbrev pub estimated_cost : A
  estimated_cost = f.mul signal.price (f.of_nat (max s.order_quantity 1))

  unfoldable pub buy_order_of : EntryPlan → BuyOrder A
  buy_order_of plan = record {
    stock_code = s.stock_code;
    quantity = s.order_quantity;
    signal_id = signal.signal_id;
    skip_market_check = true;
    price = f.of_nat plan.price;
    order_type = plan.order_type;
  }

  send_planned : Buyer A D W → EntryPlan → Buyer A D W × BuyOutcome A
  send_planned b plan =
      let (sync, result) = execute_buy_order svc (buy_order_of plan) reads.clocks b.synchronizer in
      if plan.blocked
      then (b, rejected protected_limit_exceeds_cap)
      else (record b { synchronizer = sync }, ordered result)

  with_quote : Buyer A D W → Option (Quote A) → Buyer A D W × BuyOutcome A
  unfolding send_planned
  with_quote b none = (b, rejected quote_raised)
  with_quote b (some q) =
      if is_stale_quote s.enable_stale_quote_guard s.quote_max_age_sec q.age
      then (b, rejected stale_quote)
      else send_planned b (build_entry_order_plan s.plan signal.meta q.prices)

  -- from the market's hours on
  at_market : Buyer A D W → Buyer A D W × BuyOutcome A
  unfolding with_quote
  at_market b =
      if can_place_orders s.trading_mode && not (is_tradeable reads.clocks.check_time)
      then (b, rejected market_unavailable)
      else if is_regime_blocked s.regime reads.regime
      then (b, rejected market_regime_guard)
      else if s.trading_mode == codes "CBT"
      then (record b { has_position = true }, virtual_buy)
      else with_quote b reads.quote

  after_validation : Buyer A D W → Store A × Option ValidationBlock → Buyer A D W × BuyOutcome A
  unfolding at_market
  after_validation b (store, some reason) =
      (record b { snapshots = store }, rejected (final_validation_failed reason))
  after_validation b (store, none) = at_market (record b { snapshots = store })

  validate : Buyer A D W → Buyer A D W × BuyOutcome A
  unfolding after_validation
  validate b = after_validation b (
      run_order_final_validation s.validation signal.strategy_tag s.stock_code estimated_cost
        reads.api b.snapshots)

  -- by the guard of pending orders
  after_guard : Buyer A D W → GuardStore × PendingOrderGuardSnapshot → Buyer A D W × BuyOutcome A
  unfolding validate
  after_guard b (store, guard) =
      let asked : Buyer A D W = record b {
        synchronizer = record b.synchronizer { store = store };
      } in
      if should_block_entry guard then (asked, rejected pending_order) else validate asked

  ask_guard : Buyer A D W → Buyer A D W × BuyOutcome A
  unfolding after_guard validate
  ask_guard b =
      if asks_guard s signal
      then after_guard b (
          get_pending_order_guard_state svc.database b.synchronizer.db svc.times s.stock_code
            (codes "BUY") reads.guard_asked_at reads.guard_answered_at b.synchronizer.store)
      else validate b

  after_risk : Buyer A D W → RiskManager A × RiskCheckResult → Buyer A D W × BuyOutcome A
  unfolding ask_guard
  after_risk b (risk, check) =
      let checked : Buyer A D W = record b { risk = risk } in
      if not check.passed
      then (checked, if check.should_exit then exits else rejected (risk_check_failed check.reason))
      else if b.has_position
      then (checked, rejected existing_position)
      else ask_guard checked

  unfoldable pub execute_buy : Buyer A D W → Buyer A D W × BuyOutcome A
  unfolding after_risk
  execute_buy b = after_risk b (check_order_allowed b.risk false reads.today)
