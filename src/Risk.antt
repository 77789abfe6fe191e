-- ===== src/Risk.antt =====
-- `DailyPnL` and `RiskManager` of kis_trend_atr_trading/engine/risk_manager.py. Dates are day
-- numbers and times are microseconds, both arguments; `api_error_reset_minutes` is a whole number
-- of microseconds, `max_api_errors` a whole number from 0 on. The file of the manual kill switch is
-- part of the state, and so are the alerts that were sent; log lines are left out.
pub mod Orders
pub mod Limit
pub mod ApiErrors
pub mod Funding
use kis_api_trend_atr.Base.{
  ℕ, ◌+◌, ◌-◌, Bool, true, false, not, ◌&&◌, ◌||◌, Option, none, some, List, [], ◌∷◌, if◌then◌else◌,
  ltb, leb, eqb, ◌++◌, last_items,
}
use kis_api_trend_atr.Base.Floats.{Floats}
use kis_api_trend_atr.Base.Text.{Text, codes, strip}

pub record DailyPnl (A : Type 0) : Type 0 where
  pub date : ℕ
  pub starting_capital : A
  pub realized_pnl : A
  pub trades_count : ℕ

pub data CheckReason : Type 0 where
  none_given kill_switch_active daily_loss_limit_reached : CheckReason

pub record RiskCheckResult : Type 0 where
  pub passed : Bool
  pub reason : CheckReason
  pub should_exit : Bool

-- the file of the manual kill switch
pub data KillFile : Type 0 where
  absent unreadable : KillFile
  holds : Text → KillFile

pub data KillReason : Type 0 where
  at_start undetailed : KillReason
  given manual : Text → KillReason
  api_errors : ℕ → Text → KillReason

pub data Alert : Type 0 where
  kill_switch_alert : KillReason → Alert
  daily_loss_alert : Alert

pub record RiskManager (A : Type 0) : Type 0 where
  pub enabled : Bool
  pub daily_max_loss_percent : A
  pub daily_pnl : DailyPnl A
  pub daily_limit_reached : Bool
  pub max_api_errors : ℕ
  pub api_error_reset : ℕ
  pub api_error_count : ℕ
  pub last_api_error_time : Option ℕ
  pub api_error_reasons : List (ℕ × Text)
  pub kill_switch_file : KillFile
  pub alerts : List Alert

abbrev pub pass : RiskCheckResult
pass = record { passed = true; reason = none_given; should_exit = false }

abbrev pub halt : RiskCheckResult
halt = record { passed = false; reason = kill_switch_active; should_exit = true }

abbrev pub over_limit : RiskCheckResult
over_limit = record { passed = false; reason = daily_loss_limit_reached; should_exit = false }

module _ {A : Type 0} where
  pub enable_kill_switch : RiskManager A → KillReason → RiskManager A
  enable_kill_switch m reason = record m {
    enabled = true;
    alerts = kill_switch_alert reason ∷ m.alerts;
  }

  pub disable_kill_switch : RiskManager A → RiskManager A
  disable_kill_switch m = record m { enabled = false }

  -- `_check_manual_kill_switch`, and whether the file is there
  pub check_manual_kill_switch : RiskManager A → RiskManager A × Bool
  unfolding enable_kill_switch
  check_manual_kill_switch m = elim m.kill_switch_file [
    | absent ↦ (m, false)
    | unreadable ↦ (if m.enabled then m else enable_kill_switch m undetailed, true)
    | holds text ↦ (if m.enabled then m else enable_kill_switch m (manual (strip text)), true)
  ]

  -- the file holds the reason and, on the next line, the time as `stamp` writes it
  pub create_manual_kill_switch : RiskManager A → Text → Text → RiskManager A
  unfolding enable_kill_switch
  create_manual_kill_switch m reason stamp =
      enable_kill_switch (record m { kill_switch_file = holds (reason ++ (10 ∷ stamp)) })
        (given reason)

  pub remove_manual_kill_switch : RiskManager A → RiskManager A × Bool
  remove_manual_kill_switch m = elim m.kill_switch_file [
    | absent ↦ (m, false)
    | _ ↦ (record m { kill_switch_file = absent }, true)
  ]

  pub reset_api_error_count : RiskManager A → RiskManager A
  reset_api_error_count m = record m { api_error_count = 0; api_error_reasons = [] }

  -- whether the last error is further back than the reset time
  abbrev pub is_expired : RiskManager A → ℕ → Bool
  is_expired m now = elim m.last_api_error_time [
    | none ↦ false
    | some t ↦ ltb m.api_error_reset (now - t)
  ]

  -- `record_api_error`, and whether it fired the kill switch
  pub record_api_error : RiskManager A → Text → ℕ → RiskManager A × Bool
  unfolding enable_kill_switch reset_api_error_count
  record_api_error m reason now =
      let m : RiskManager A = if is_expired m now then reset_api_error_count m else m in
      let m : RiskManager A = record m {
        api_error_count = m.api_error_count + 1;
        last_api_error_time = some now;
        api_error_reasons = last_items 10 (m.api_error_reasons ++ ((now, reason) ∷ []));
      } in
      if leb m.max_api_errors m.api_error_count
      then (enable_kill_switch m (api_errors m.api_error_count reason), true)
      else (m, false)

  pub set_starting_capital : RiskManager A → A → RiskManager A
  set_starting_capital m capital = record m {
    daily_pnl = record m.daily_pnl { starting_capital = capital };
  }

module _ {A : Type 0} ⦃f : Floats A⦄ where
  -- `DailyPnL.reset`
  abbrev pub reset : DailyPnl A → ℕ → A → DailyPnl A
  reset d today starting_capital = record {
    date = today;
    starting_capital = starting_capital;
    realized_pnl = f.of_nat 0;
    trades_count = 0;
  }

  abbrev pub add_trade_pnl : DailyPnl A → A → DailyPnl A
  add_trade_pnl d pnl = record d {
    realized_pnl = f.add d.realized_pnl pnl;
    trades_count = d.trades_count + 1;
  }

  pub get_loss_percent : DailyPnl A → A
  get_loss_percent d =
      if f.le d.starting_capital (f.of_nat 0)
      then f.of_nat 0
      else f.mul (f.div d.realized_pnl d.starting_capital) (f.of_nat 100)

  -- `RiskManager.__init__`
  pub new_risk_manager : Bool → A → A → ℕ → ℕ → KillFile → ℕ → RiskManager A
  unfolding check_manual_kill_switch
  new_risk_manager enabled max_loss capital max_errors reset_after file today =
      let m : RiskManager A = record {
        enabled = enabled;
        daily_max_loss_percent = max_loss;
        daily_pnl = record {
          date = today;
          starting_capital = capital;
          realized_pnl = f.of_nat 0;
          trades_count = 0;
        };
        daily_limit_reached = false;
        max_api_errors = max_errors;
        api_error_reset = reset_after;
        api_error_count = 0;
        last_api_error_time = none;
        api_error_reasons = [];
        kill_switch_file = file;
        alerts = if enabled then kill_switch_alert at_start ∷ [] else [];
      } in
      (check_manual_kill_switch m).0

  pub set_daily_max_loss_percent : RiskManager A → A → RiskManager A
  set_daily_max_loss_percent m percent =
      if f.le percent (f.of_nat 0) then m else record m { daily_max_loss_percent = percent }

  -- `_reset_daily_tracking`
  pub reset_daily_tracking : RiskManager A → ℕ → RiskManager A
  reset_daily_tracking m today = record m {
    daily_pnl = reset m.daily_pnl today m.daily_pnl.starting_capital;
    daily_limit_reached = false;
  }

  pub reset_daily_loss_limit : RiskManager A → ℕ → RiskManager A
  reset_daily_loss_limit m today = record m {
    daily_limit_reached = false;
    daily_pnl = reset m.daily_pnl today m.daily_pnl.starting_capital;
  }

  -- the reset that the operations of another day begin with
  pub roll_day : RiskManager A → ℕ → RiskManager A
  unfolding reset_daily_tracking
  roll_day m today = if eqb m.daily_pnl.date today then m else reset_daily_tracking m today

  -- the negated limit is written as a difference from 0
  abbrev pub is_over_limit : RiskManager A → Bool
  is_over_limit m =
      f.le (get_loss_percent m.daily_pnl) (f.sub (f.of_nat 0) m.daily_max_loss_percent)

  pub record_trade_pnl : RiskManager A → A → ℕ → RiskManager A
  unfolding roll_day get_loss_percent
  record_trade_pnl m pnl today =
      let m = roll_day m today in
      let m : RiskManager A = record m { daily_pnl = add_trade_pnl m.daily_pnl pnl } in
      if is_over_limit m && not m.daily_limit_reached
      then record m { daily_limit_reached = true; alerts = daily_loss_alert ∷ m.alerts }
      else m

  unfoldable pub check_order_allowed : RiskManager A → Bool → ℕ → RiskManager A × RiskCheckResult
  unfolding roll_day check_manual_kill_switch
  check_order_allowed m is_closing_position today =
      let m = (check_manual_kill_switch (roll_day m today)).0 in
      if m.enabled
      then (m, halt)
      else if m.daily_limit_reached && not is_closing_position
      then (m, over_limit)
      else (m, pass)

  pub check_kill_switch : RiskManager A → RiskCheckResult
  check_kill_switch m = if m.enabled then halt else pass

  pub check_daily_loss_limit : RiskManager A → Bool → ℕ → RiskManager A × RiskCheckResult
  unfolding roll_day
  check_daily_loss_limit m is_closing_position today =
      let m = roll_day m today in
      if m.daily_limit_reached && not is_closing_position then (m, over_limit) else (m, pass)
