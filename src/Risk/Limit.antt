-- ===== src/Risk/Limit.antt =====
-- The daily loss limit over the calls of one day.
use mathlib.Core.Path.{subst}
use kis_api_trend_atr.Base.{
  ℕ, ◌+◌, ◌≡◌, refl, sym, ◌≢◌, Bool, true, false, List, [], ◌∷◌, arith, if◌then◌else◌, All,
}
use kis_api_trend_atr.Base.Floats.{Floats}
use kis_api_trend_atr.Risk.{
  RiskManager, Alert, daily_loss_alert, enable_kill_switch, check_manual_kill_switch,
  reset_daily_tracking, roll_day, check_order_allowed,
}
use kis_api_trend_atr.Risk.Orders.{Op, Call, perform, run, reset_limit}

-- the alerts of the loss limit
abbrev pub loss_alerts : List Alert → ℕ
loss_alerts [] = 0
loss_alerts (daily_loss_alert ∷ rest) = loss_alerts rest + 1
loss_alerts (_ ∷ rest) = loss_alerts rest

abbrev bit : Bool → ℕ
bit b = if b then 1 else 0

module _ {A : Type 0} where
  -- a call of the day that is no manual reset of the limit
  unfoldable pub IsOrdinary : ℕ → Call A → Type 0
  IsOrdinary day c = (c.today ≡ day) × (c.op ≢ reset_limit)

-- What the calls of a day keep: one more alert, once the limit is reached.
pub record Kept {A : Type 0} (day extra start : ℕ) (m : RiskManager A) : Type 0 where
  pub same_day : m.daily_pnl.date ≡ day
  pub counted : loss_alerts m.alerts + extra ≡ start + bit m.daily_limit_reached

module _ {A : Type 0} ⦃f : Floats A⦄ where
  perform-Kept :
      (m : RiskManager A) (day extra start now : ℕ) (op : Op A)
      → op ≢ reset_limit
      → Kept day extra start m
      → Kept day extra start (perform m day now op)
        × (m.daily_limit_reached ≡ true → (perform m day now op).daily_limit_reached ≡ true)
  unfolding perform
  perform-Kept m day extra start now op plain h = (
    record {
      same_day = ground (arith, plain, h.same_day);
      counted = ground (arith, plain, h.same_day, h.counted);
    },
    λ reached. ground (arith, plain, reached, h.same_day),
  )

  pub run-Kept :
      (m : RiskManager A) (day extra start : ℕ) (cs : List (Call A))
      → All (IsOrdinary day) cs
      → Kept day extra start m
      → Kept day extra start (run m cs)
        × (m.daily_limit_reached ≡ true → (run m cs).daily_limit_reached ≡ true)
  unfolding run IsOrdinary
  run-Kept m day extra start [] plain h = (h, λ reached. reached)
  run-Kept m day extra start (c ∷ cs) ((today, plain), rest) h =
      let m' = perform m c.today c.now c.op in
      let here : Kept day extra start m'
          × (m.daily_limit_reached ≡ true → m'.daily_limit_reached ≡ true) =
        subst
          (λ (d : ℕ).
            Kept day extra start (perform m d c.now c.op)
            × (m.daily_limit_reached ≡ true → (perform m d c.now c.op).daily_limit_reached ≡ true))
          (sym today) (perform-Kept m day extra start c.now c.op plain h) in
      let later = run-Kept m' day extra start cs rest here.0 in
      (later.0, λ reached. later.1 (here.1 reached))

  refused :
      (m : RiskManager A) (day : ℕ)
      → m.daily_pnl.date ≡ day
      → m.daily_limit_reached ≡ true
      → (check_order_allowed m false day).1.passed ≡ false
  unfolding check_order_allowed roll_day check_manual_kill_switch reset_daily_tracking
      enable_kill_switch
  refused m day today reached = ground (arith, today, reached)

  -- Once the loss limit is reached, it refuses every entry for the rest of that day, after any
  -- calls but a manual reset: later profits, a new limit or a new capital do not lift it.
  pub limit_stands :
      (m : RiskManager A) (cs : List (Call A))
      → All (IsOrdinary m.daily_pnl.date) cs
      → m.daily_limit_reached ≡ true
      → (check_order_allowed (run m cs) false m.daily_pnl.date).1.passed ≡ false
  limit_stands m cs plain reached =
      let day = m.daily_pnl.date in
      let kept =
        run-Kept m day 1 (loss_alerts m.alerts) cs plain
          (record { same_day = refl; counted = ground (arith, reached) }) in
      refused (run m cs) day kept.0.same_day (kept.1 reached)

  -- From a manager below the limit, the calls of one day (no manual reset among them) send the
  -- alert of the limit once if they reach it, and never otherwise.
  pub alert_once :
      (m : RiskManager A) (cs : List (Call A))
      → All (IsOrdinary m.daily_pnl.date) cs
      → m.daily_limit_reached ≡ false
      → loss_alerts (run m cs).alerts
        ≡ loss_alerts m.alerts + (if (run m cs).daily_limit_reached then 1 else 0)
  alert_once m cs plain below =
      let kept =
        run-Kept m m.daily_pnl.date 0 (loss_alerts m.alerts) cs plain
          (record { same_day = refl; counted = ground (arith, below) }) in
      ground (arith, kept.0.counted)
