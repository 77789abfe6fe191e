-- ===== src/Runtime/Overlay.antt =====
-- The overlay as a state machine: what one pass of `evaluate` may do to it, and what holds of any
-- run of passes.
use mathlib.Core.Path.{subst₃}
use kis_api_trend_atr.Base.{ℕ, ◌+◌, ◌≤◌, ◌≡◌, ◌∙◌, Bool, true, false, List, [], ◌∷◌, arith, All}
use kis_api_trend_atr.Base.Text.{Text}
use kis_api_trend_atr.Session.{MarketSessionState, in_session}
use kis_api_trend_atr.Runtime.Config.{RuntimeConfig}
use kis_api_trend_atr.Runtime.{
  RuntimeOverlay, normal, degraded_feed, emergency_stop, FeedStatus, RuntimeDecision, MarketInput,
  known, foreign, Machine, seconds, coerce_market_state, is_ws_recover_stable,
}
use kis_api_trend_atr.Runtime.Evaluate.{
  observe, note_market, note_stability, step_overlay, stale_condition, evaluate, final_policy,
}

-- What one pass sees besides the overlay.
pub record View : Type 0 where
  pub now : ℕ
  pub state : MarketSessionState
  pub risk_stop : Bool
  pub stale : Bool
  pub stable : Bool

-- The diagram: the overlay and the time of its last change, before and after one pass. The stop
-- can come at any time and is final; the feed degrades or recovers only in session, and only when
-- the overlay has held for its least time.
abbrev pub Step : RuntimeConfig → View → RuntimeOverlay × ℕ → RuntimeOverlay × ℕ → Type 0
Step c v (normal, t) (normal, u) = u ≡ t
Step c v (normal, t) (degraded_feed, u) =
    (v.risk_stop ≡ false)
    × (v.state ≡ in_session)
    × (v.stale ≡ true)
    × (t + seconds c.ws_min_normal_sec ≤ v.now)
    × (u ≡ v.now)
Step c v (degraded_feed, t) (normal, u) =
    (v.risk_stop ≡ false)
    × (v.state ≡ in_session)
    × (v.stable ≡ true)
    × (t + seconds c.ws_min_degraded_sec ≤ v.now)
    × (u ≡ v.now)
Step c v (degraded_feed, t) (degraded_feed, u) = u ≡ t
Step c v (emergency_stop, t) (emergency_stop, u) = u ≡ t
Step c v (emergency_stop, t) (_, u) = ⊥
Step c v (_, t) (emergency_stop, u) = (v.risk_stop ≡ true) × (u ≡ v.now)

-- What the stability test leaves alone.
pub record Same (m m' : Machine) : Type 0 where
  pub config : m'.config ≡ m.config
  pub start_ts : m'.start_ts ≡ m.start_ts
  pub overlay : m'.overlay ≡ m.overlay
  pub changed_at : m'.overlay_changed_at ≡ m.overlay_changed_at

coerce_market_state-Same : (m : Machine) (x : MarketInput) → Same m (coerce_market_state m x).0
unfolding coerce_market_state
coerce_market_state-Same m (known s) = ground arith
coerce_market_state-Same m (foreign n raw) = ground arith

note_market-Same : (m : Machine) (s : MarketSessionState) → Same m (note_market m s)
unfolding note_market
note_market-Same m s = ground arith

note_stability-Same :
    (m : Machine) (s : MarketSessionState) (now : ℕ) (feed : FeedStatus)
    → Same m (note_stability m s now feed).0
unfolding note_stability is_ws_recover_stable
note_stability-Same m s now feed = ground arith

pub observe-Same :
    (m : Machine) (now : ℕ) (market_state : MarketInput) (feed : FeedStatus)
    → Same m (observe m now market_state feed).0
unfolding observe
observe-Same m now market_state feed =
    let (m₀, s) = coerce_market_state m market_state in
    let first = coerce_market_state-Same m market_state in
    let second = note_market-Same m₀ s in
    let third = note_stability-Same (note_market m₀ s) s now feed in
    record {
      config = third.config ∙ second.config ∙ first.config;
      start_ts = third.start_ts ∙ second.start_ts ∙ first.start_ts;
      overlay = third.overlay ∙ second.overlay ∙ first.overlay;
      changed_at = third.changed_at ∙ second.changed_at ∙ first.changed_at;
    }

pub view : Machine → ℕ → MarketInput → FeedStatus → Bool → View
view m now market_state feed risk_stop =
    let (m', s, stable) = observe m now market_state feed in
    record {
      now = now;
      state = s;
      risk_stop = risk_stop;
      stale = stale_condition m' now feed;
      stable = stable;
    }

step_overlay-Step :
    (m : Machine) (s : MarketSessionState) (now : ℕ) (feed : FeedStatus) (risk_stop stable : Bool)
    → let v : View = record {
      now = now;
      state = s;
      risk_stop = risk_stop;
      stale = stale_condition m now feed;
      stable = stable;
    } in
      let m' = step_overlay m s now feed risk_stop stable in
      Step m.config v (m.overlay, m.overlay_changed_at) (m'.overlay, m'.overlay_changed_at)
unfolding step_overlay
step_overlay-Step m s now feed risk_stop stable = ground arith

step_overlay-config :
    (m : Machine) (s : MarketSessionState) (now : ℕ) (feed : FeedStatus) (risk_stop stable : Bool)
    → let m' = step_overlay m s now feed risk_stop stable in
      (m'.config ≡ m.config) × (m'.start_ts ≡ m.start_ts)
unfolding step_overlay
step_overlay-config m s now feed risk_stop stable = ground arith

-- The overlay and the time of its last change.
abbrev pub face : Machine → RuntimeOverlay × ℕ
face m = (m.overlay, m.overlay_changed_at)

-- Every pass of `evaluate` follows the diagram, whatever the feed, the session and the risk flag
-- say: the overlay turns to EMERGENCY_STOP only on the risk flag and never turns back, to
-- DEGRADED_FEED only in session on a stale feed after `ws_min_normal_sec`, and back to NORMAL only
-- in session on a stable feed after `ws_min_degraded_sec`; the time of the last change moves
-- exactly then. The configuration and the start are never changed.
pub evaluate-Step :
    (m : Machine) (now : ℕ) (x : MarketInput) (reason : Text) (feed : FeedStatus) (risk_stop : Bool)
    → let m' = (evaluate m now x reason feed risk_stop).0 in
      Step m.config (view m now x feed risk_stop) (face m) (face m')
      × (m'.config ≡ m.config)
      × (m'.start_ts ≡ m.start_ts)
unfolding evaluate view
evaluate-Step m now x reason feed risk_stop =
    let (m₁, s, stable) = observe m now x feed in
    let same = observe-Same m now x feed in
    let kept = step_overlay-config m₁ s now feed risk_stop stable in
    (
      subst₃
          (λ c o t.
            Step c (view m now x feed risk_stop) (o, t)
              (face (step_overlay m₁ s now feed risk_stop stable)))
          same.config same.overlay same.changed_at
          (step_overlay-Step m₁ s now feed risk_stop stable),
      kept.0 ∙ same.config,
      kept.1 ∙ same.start_ts,
    )

-- The arguments of one pass.
pub record Pass : Type 0 where
  pub now : ℕ
  pub market_state : MarketInput
  pub market_reason : Text
  pub feed_status : FeedStatus
  pub risk_stop : Bool

abbrev pub pass : Machine → Pass → Machine × RuntimeDecision
pass m p = evaluate m p.now p.market_state p.market_reason p.feed_status p.risk_stop

-- The machine after a run of passes, and the decisions it took.
unfoldable pub run : Machine → List Pass → Machine × List RuntimeDecision
run m [] = (m, [])
run m (p ∷ ps) = let (m', d) = pass m p in let (last, ds) = run m' ps in (last, d ∷ ds)

-- Nothing may be traded.
pub record IsHalted (d : RuntimeDecision) : Type 0 where
  pub overlay : d.overlay ≡ emergency_stop
  pub no_entry : d.policy.allow_new_entries ≡ false
  pub no_exit : d.policy.allow_exit ≡ false
  pub no_strategy : d.policy.run_strategy ≡ false
  pub no_feed : d.policy.ws_should_run ≡ false

halted_policy :
    (m : Machine) (s : MarketSessionState) (feed : FeedStatus)
    → m.overlay ≡ emergency_stop
    → let p = final_policy m s feed in
      (p.allow_new_entries ≡ false)
      × (p.allow_exit ≡ false)
      × (p.run_strategy ≡ false)
      × (p.ws_should_run ≡ false)
unfolding final_policy
halted_policy m s feed h = ground arith

stays_stopped :
    (m : Machine) (s : MarketSessionState) (now : ℕ) (feed : FeedStatus) (risk_stop stable : Bool)
    → m.overlay ≡ emergency_stop
    → (step_overlay m s now feed risk_stop stable).overlay ≡ emergency_stop
unfolding step_overlay
stays_stopped m s now feed risk_stop stable h = ground arith

pass-IsHalted :
    (m : Machine) (p : Pass)
    → m.overlay ≡ emergency_stop
    → ((pass m p).0.overlay ≡ emergency_stop) × IsHalted (pass m p).1
unfolding evaluate
pass-IsHalted m p h =
    let (m₁, s, stable) = observe m p.now p.market_state p.feed_status in
    let m₂ = step_overlay m₁ s p.now p.feed_status p.risk_stop stable in
    let same = observe-Same m p.now p.market_state p.feed_status in
    let still = stays_stopped m₁ s p.now p.feed_status p.risk_stop stable (same.overlay ∙ h) in
    let (entry, exit, strategy, socket) = halted_policy m₂ s p.feed_status still in
    (
      still,
      record {
        overlay = still;
        no_entry = entry;
        no_exit = exit;
        no_strategy = strategy;
        no_feed = socket;
      },
    )

-- Once stopped, the machine stays stopped, and every later decision of any run forbids entries,
-- exits and the strategy and keeps the websocket down.
pub run-IsHalted :
    (m : Machine) (ps : List Pass)
    → m.overlay ≡ emergency_stop
    → ((run m ps).0.overlay ≡ emergency_stop) × All IsHalted (run m ps).1
unfolding run
run-IsHalted m [] h = (h, tt)
run-IsHalted m (p ∷ ps) h =
    let (still, d) = pass-IsHalted m p h in
    let (last, ds) = run-IsHalted (pass m p).0 ps still in (last, (d, ds))
