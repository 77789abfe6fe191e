-- ===== src/Tests/RiskExamples.antt =====
-- Examples of the risk manager, with whole numbers for prices.
use kis_api_trend_atr.Base.{◌≡◌, refl, ◌⊎◌, ◌↔◌, Bool, true, false, none, List, [], ◌∷◌, ◌&&◌, eqb}
use kis_api_trend_atr.Base.Int.{ℤ}
use kis_api_trend_atr.Base.Floats.{int_floats}
use kis_api_trend_atr.Risk.{RiskManager, absent, check_order_allowed, halt}
use kis_api_trend_atr.Risk.Orders.{
  Op, Call, run, is_killed, reset_errors, reset_limit, remove_file, check_order_allowed_iff,
  halts_until_disabled,
}

abbrev manager : Bool → Bool → ℤ → RiskManager ℤ
manager enabled reached capital = record {
  enabled = enabled;
  daily_max_loss_percent = ℤ.pos 3;
  daily_pnl = record {
    date = 7;
    starting_capital = capital;
    realized_pnl = ℤ.pos 0;
    trades_count = 0;
  };
  daily_limit_reached = reached;
  max_api_errors = 2;
  api_error_reset = 600;
  api_error_count = 0;
  last_api_error_time = none;
  api_error_reasons = [];
  kill_switch_file = absent;
  alerts = [];
}

abbrev call : Op ℤ → Call ℤ
call op = record { today = 7; now = 5; op = op }

abbrev clearing : List (Call ℤ)
clearing = call reset_errors ∷ call reset_limit ∷ call remove_file ∷ []

check_order_allowed_iff_example :
    let (m', result) = check_order_allowed (manager false true (ℤ.pos 1000)) false 8 in
    ((result.passed ≡ true) ↔ (
      (is_killed (manager false true (ℤ.pos 1000)) ≡ false)
      × ((false ≡ true) ⊎ ((true && eqb 7 8) ≡ false))))
    × ((result.should_exit ≡ true) ↔ (is_killed (manager false true (ℤ.pos 1000)) ≡ true))
    × (m'.enabled ≡ is_killed (manager false true (ℤ.pos 1000)))
check_order_allowed_iff_example = check_order_allowed_iff (manager false true (ℤ.pos 1000)) false 8

halts_until_disabled_example :
    (check_order_allowed (run (manager true false (ℤ.pos 1000)) clearing) true 9).1 ≡ halt
halts_until_disabled_example =
    halts_until_disabled (manager true false (ℤ.pos 1000)) clearing true 9
      ((λ e. cc), ((λ e. cc), ((λ e. cc), tt))) refl
