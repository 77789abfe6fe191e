-- ===== src/Risk/Orders.antt =====
-- When an order is allowed, and what the kill switch stops.
use kis_api_trend_atr.Base.{
  ℕ, ◌≡◌, ◌≢◌, ◌⊎◌, ◌↔◌, Bool, true, false, not, ◌&&◌, ◌||◌, List, [], ◌∷◌, arith, eqb, All,
}
use kis_api_trend_atr.Base.Floats.{Floats}
use kis_api_trend_atr.Base.Text.{Text}
use kis_api_trend_atr.Risk.{
  RiskManager, KillFile, absent, KillReason, enable_kill_switch, disable_kill_switch,
  check_manual_kill_switch, create_manual_kill_switch, remove_manual_kill_switch,
  reset_api_error_count, record_api_error, set_starting_capital, set_daily_max_loss_percent,
  reset_daily_tracking, reset_daily_loss_limit, roll_day, record_trade_pnl, halt,
  check_order_allowed, check_daily_loss_limit,
}

-- One call on the manager, or the operator's change of the file.
pub data Op (A : Type 0) : Type 0 where
  enable : KillReason → Op A
  disable : Op A
  create_file : Text → Text → Op A
  remove_file : Op A
  touch_file : KillFile → Op A
  api_error : Text → Op A
  reset_errors : Op A
  set_capital : A → Op A
  set_max_loss : A → Op A
  trade : A → Op A
  reset_limit : Op A
  check_order : Bool → Op A
  check_loss : Bool → Op A

-- a call on a day and at a time
pub record Call (A : Type 0) : Type 0 where
  pub today : ℕ
  pub now : ℕ
  pub op : Op A

abbrev is_absent : KillFile → Bool
is_absent absent = true
is_absent _ = false

module _ {A : Type 0} where
  abbrev pub is_killed : RiskManager A → Bool
  is_killed m = m.enabled || not (is_absent m.kill_switch_file)

module _ {A : Type 0} ⦃f : Floats A⦄ where
  unfoldable pub perform : RiskManager A → ℕ → ℕ → Op A → RiskManager A
  unfolding enable_kill_switch disable_kill_switch create_manual_kill_switch
      remove_manual_kill_switch record_api_error reset_api_error_count set_starting_capital
      set_daily_max_loss_percent record_trade_pnl reset_daily_loss_limit check_order_allowed
      check_daily_loss_limit
  perform m today now (enable reason) = enable_kill_switch m reason
  perform m today now disable = disable_kill_switch m
  perform m today now (create_file reason stamp) = create_manual_kill_switch m reason stamp
  perform m today now remove_file = (remove_manual_kill_switch m).0
  perform m today now (touch_file file) = record m { kill_switch_file = file }
  perform m today now (api_error reason) = (record_api_error m reason now).0
  perform m today now reset_errors = reset_api_error_count m
  perform m today now (set_capital capital) = set_starting_capital m capital
  perform m today now (set_max_loss percent) = set_daily_max_loss_percent m percent
  perform m today now (trade pnl) = record_trade_pnl m pnl today
  perform m today now reset_limit = reset_daily_loss_limit m today
  perform m today now (check_order closing) = (check_order_allowed m closing today).0
  perform m today now (check_loss closing) = (check_daily_loss_limit m closing today).0

  unfoldable pub run : RiskManager A → List (Call A) → RiskManager A
  unfolding perform
  run m [] = m
  run m (c ∷ cs) = run (perform m c.today c.now c.op) cs

  -- An order is allowed exactly when the kill switch is off, its file is absent, and the order
  -- closes a position or the loss limit has not been reached on that day. The refusal by the kill
  -- switch, and it alone, asks the program to exit; after the check the switch is on exactly when it
  -- was on before or its file is there.
  pub check_order_allowed_iff :
      (m : RiskManager A) (closing : Bool) (today : ℕ)
      → let (m', result) = check_order_allowed m closing today in
        ((result.passed ≡ true) ↔ (
          (is_killed m ≡ false)
          × ((closing ≡ true) ⊎ ((m.daily_limit_reached && eqb m.daily_pnl.date today) ≡ false))))
        × ((result.should_exit ≡ true) ↔ (is_killed m ≡ true))
        × (m'.enabled ≡ is_killed m)
  unfolding check_order_allowed roll_day check_manual_kill_switch reset_daily_tracking
      enable_kill_switch
  check_order_allowed_iff m closing today = ground arith

  allowed-enabled :
      (m : RiskManager A) (closing : Bool) (today : ℕ)
      → m.enabled ≡ true
      → ((check_order_allowed m closing today).1 ≡ halt)
        × ((check_order_allowed m closing today).0.enabled ≡ true)
  unfolding check_order_allowed roll_day check_manual_kill_switch reset_daily_tracking
      enable_kill_switch
  allowed-enabled m closing today on = ground (arith, on)

  enabled-perform :
      (m : RiskManager A) (today now : ℕ) (op : Op A)
      → op ≢ disable
      → m.enabled ≡ true
      → (perform m today now op).enabled ≡ true
  unfolding perform
  enabled-perform m today now op live on = ground (arith, on, live)

  pub enabled-run :
      (m : RiskManager A) (cs : List (Call A))
      → All (λ c. c.op ≢ disable) cs
      → m.enabled ≡ true
      → (run m cs).enabled ≡ true
  unfolding run
  enabled-run m [] live on = on
  enabled-run m (c ∷ cs) (live, rest) on =
      enabled-run (perform m c.today c.now c.op) cs rest
        (enabled-perform m c.today c.now c.op live on)

  -- An active kill switch refuses every order, closing ones included, after any calls but
  -- `disable_kill_switch`, on any day: no reset of the limit, the errors or the file lifts it.
  pub halts_until_disabled :
      (m : RiskManager A) (cs : List (Call A)) (closing : Bool) (today : ℕ)
      → All (λ c. c.op ≢ disable) cs
      → m.enabled ≡ true
      → (check_order_allowed (run m cs) closing today).1 ≡ halt
  halts_until_disabled m cs closing today live on =
      (allowed-enabled (run m cs) closing today (enabled-run m cs live on)).0
