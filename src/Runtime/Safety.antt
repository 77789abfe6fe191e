-- ===== src/Runtime/Safety.antt =====
-- What a decision of `evaluate` permits, read off the session's state and the overlay.
use mathlib.Core.Path.{subst}
use kis_api_trend_atr.Base.{ℕ, ◌≤◌, ◌≡◌, ◌≢◌, ◌⊎◌, ◌↔◌, Bool, true, arith}
use kis_api_trend_atr.Base.Text.{Text}
use kis_api_trend_atr.Session.{MarketSessionState, in_session, auction_guard}
use kis_api_trend_atr.Runtime.Config.{ws, RuntimeConfig, IsValid}
use kis_api_trend_atr.Runtime.{
  RuntimeOverlay, normal, degraded_feed, emergency_stop, FeedStatus, RuntimePolicy, MarketInput,
  Machine, coerce_market_state,
}
use kis_api_trend_atr.Runtime.Evaluate.{final_policy, observe, evaluate, step_overlay}
use kis_api_trend_atr.Runtime.Overlay.{evaluate-Step}

-- What a policy may permit, by the configuration, the session's state and the overlay.
pub record IsPermitted (c : RuntimeConfig) (s : MarketSessionState) (o : RuntimeOverlay)
    (p : RuntimePolicy) : Type 0 where
  pub entries : (p.allow_new_entries ≡ true) ↔ ((s ≡ in_session) × (o ≢ emergency_stop))
  pub exits : (p.allow_exit ≡ true) ↔ (
      (o ≢ emergency_stop)
      × ((s ≡ in_session) ⊎ ((s ≡ auction_guard) × (c.allow_exit_in_auction ≡ true))))
  pub strategy : p.run_strategy ≡ p.allow_exit
  pub feed :
      p.active_feed_mode ≡ ws
      → (o ≡ normal) × (c.data_feed_default ≡ ws) × ((s ≡ in_session) ⊎ (s ≡ auction_guard))
  pub background : o ≡ degraded_feed → s ≡ in_session → p.ws_should_run ≡ true

final_policy-IsPermitted :
    (m : Machine) (s : MarketSessionState) (feed : FeedStatus)
    → IsPermitted m.config s m.overlay (final_policy m s feed)
unfolding final_policy
final_policy-IsPermitted m s feed = ground arith

-- A decision allows new entries exactly in session with no emergency stop. It allows exits exactly
-- with no emergency stop either in session or, where the configuration says so, in an auction
-- window. The strategy runs exactly when exits are allowed. The websocket is the active feed only
-- in the NORMAL overlay, where the configuration prefers it, in session or in an auction window;
-- while degraded in session it still runs in the background.
pub evaluate-IsPermitted :
    (m : Machine) (now : ℕ) (x : MarketInput) (reason : Text) (feed : FeedStatus) (risk_stop : Bool)
    → let d = (evaluate m now x reason feed risk_stop).1 in
      IsPermitted m.config (coerce_market_state m x).1 d.overlay d.policy
unfolding evaluate observe
evaluate-IsPermitted m now x reason feed risk_stop =
    let (m₁, s, stable) = observe m now x feed in
    let m₂ = step_overlay m₁ s now feed risk_stop stable in
    subst (λ c. IsPermitted c s m₂.overlay (final_policy m₂ s feed))
      (evaluate-Step m now x reason feed risk_stop).1 (final_policy-IsPermitted m₂ s feed)

abbrev SleepsWithin : RuntimeConfig → ℕ → Type 0
SleepsWithin c sleep = (15 ≤ sleep) × ((sleep ≤ 900) ⊎ (sleep ≡ c.insession_sleep_sec))

policy_sleep :
    (m : Machine) (s : MarketSessionState) (feed : FeedStatus)
    → IsValid m.config
    → SleepsWithin m.config (final_policy m s feed).sleep_sec
unfolding final_policy
policy_sleep m s feed v = ground arith

-- Under a valid configuration the main loop sleeps for 15 seconds or more, and for 900 seconds or
-- less unless `insession_sleep_sec` itself is longer.
pub evaluate_sleep :
    (m : Machine) (now : ℕ) (x : MarketInput) (reason : Text) (feed : FeedStatus) (risk_stop : Bool)
    → IsValid m.config
    → let sleep = (evaluate m now x reason feed risk_stop).1.policy.sleep_sec in
      (15 ≤ sleep) × ((sleep ≤ 900) ⊎ (sleep ≡ m.config.insession_sleep_sec))
unfolding evaluate
evaluate_sleep m now x reason feed risk_stop v =
    let (m₁, s, stable) = observe m now x feed in
    let m₂ = step_overlay m₁ s now feed risk_stop stable in
    let kept = (evaluate-Step m now x reason feed risk_stop).1 in
    subst (λ c. IsValid c → SleepsWithin c (final_policy m₂ s feed).sleep_sec) kept
      (policy_sleep m₂ s feed) v
