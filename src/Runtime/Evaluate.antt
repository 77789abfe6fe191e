-- ===== src/Runtime/Evaluate.antt =====
-- `_build_policy` and `evaluate` of kis_trend_atr_trading/engine/runtime_state_machine.py.
use kis_api_trend_atr.Base.{
  ℕ, Bool, true, false, not, ◌&&◌, ◌||◌, Option, none, some, if◌then◌else◌, eqb, max,
}
use kis_api_trend_atr.Base.Text.{Text}
use kis_api_trend_atr.Session.{
  MarketSessionState, off_session, preopen_warmup, in_session, auction_guard, postclose, same_state,
  is_in_session,
}
use kis_api_trend_atr.Runtime.Config.{FeedMode, rest, ws, RecoverPolicy, auto, next_session}
use kis_api_trend_atr.Runtime.{
  RuntimeOverlay, normal, degraded_feed, emergency_stop, FeedStatus, RuntimePolicy, RuntimeDecision,
  MarketInput, Machine, has_passed, is_older, coerce_market_state, reset_ws_stability,
  is_ws_recover_stable,
}

abbrev pub is_normal : RuntimeOverlay → Bool
is_normal normal = true
is_normal _ = false

abbrev pub is_degraded : RuntimeOverlay → Bool
is_degraded degraded_feed = true
is_degraded _ = false

abbrev pub is_emergency : RuntimeOverlay → Bool
is_emergency emergency_stop = true
is_emergency _ = false

abbrev pub prefers_ws : FeedMode → Bool
prefers_ws ws = true
prefers_ws rest = false

abbrev closed_policy : Bool → ℕ → RuntimePolicy
closed_policy run_ws sleep = record {
  allow_new_entries = false;
  allow_exit = false;
  run_strategy = false;
  active_feed_mode = rest;
  ws_should_run = run_ws;
  sleep_sec = sleep;
}

active_feed : Machine → FeedStatus → FeedMode
active_feed m feed =
    if is_normal m.overlay && prefers_ws m.config.data_feed_default && feed.ws_enabled
    then ws
    else rest

session_policy : Machine → MarketSessionState → FeedStatus → RuntimePolicy
unfolding active_feed
session_policy m off_session feed =
    closed_policy (feed.ws_enabled && m.config.offsession_ws_enabled) m.config.offsession_sleep_sec
session_policy m preopen_warmup feed =
    closed_policy (feed.ws_enabled && prefers_ws m.config.data_feed_default) 30
session_policy m postclose feed =
    closed_policy (feed.ws_enabled && m.config.offsession_ws_enabled) 120
session_policy m auction_guard feed = record {
  allow_new_entries = false;
  allow_exit = m.config.allow_exit_in_auction;
  run_strategy = m.config.allow_exit_in_auction;
  active_feed_mode = active_feed m feed;
  ws_should_run = feed.ws_enabled;
  sleep_sec = 15;
}
session_policy m in_session feed = record {
  allow_new_entries = true;
  allow_exit = true;
  run_strategy = true;
  active_feed_mode = active_feed m feed;
  ws_should_run = feed.ws_enabled;
  sleep_sec = m.config.insession_sleep_sec;
}

unfoldable pub build_policy : Machine → MarketSessionState → FeedStatus → RuntimePolicy
unfolding session_policy
build_policy m s feed =
    if is_emergency m.overlay
    then closed_policy false (max m.config.insession_sleep_sec 30)
    else session_policy m s feed

-- `(self._last_market_state, normalized_market_state)`, where they differ
unfoldable pub market_transition :
    Option MarketSessionState
    → MarketSessionState
    → Option (MarketSessionState × MarketSessionState)
market_transition none s = none
market_transition (some t) s = if same_state t s then none else some (t, s)

enters_session : Option (MarketSessionState × MarketSessionState) → Bool
enters_session none = false
enters_session (some (from_state, to_state)) =
    not (is_in_session from_state) && is_in_session to_state

unfoldable pub note_market : Machine → MarketSessionState → Machine
unfolding enters_session market_transition
note_market m s = record m {
  session_reentered_for_recover =
      (is_degraded m.overlay && enters_session (market_transition m.last_market_state s))
      || m.session_reentered_for_recover;
  last_market_state = some s;
}

-- `ws_stable`, with the machine after the test
unfoldable pub note_stability : Machine → MarketSessionState → ℕ → FeedStatus → Machine × Bool
note_stability m s now feed =
    if is_in_session s then is_ws_recover_stable m now feed else (reset_ws_stability m, false)

unfoldable pub stale_condition : Machine → ℕ → FeedStatus → Bool
stale_condition m now feed =
    feed.ws_enabled
    && has_passed m.config.ws_start_grace_sec m.start_ts now
    && is_older feed.ws_last_message_age m.config.ws_stale_sec

abbrev is_next_session : RecoverPolicy → Bool
is_next_session next_session = true
is_next_session auto = false

degrade : Machine → ℕ → Machine
degrade m now = record m {
  overlay = degraded_feed;
  overlay_changed_at = now;
  session_reentered_for_recover =
      not (is_next_session m.config.ws_recover_policy) && m.session_reentered_for_recover;
}

recover : Machine → ℕ → Machine
recover m now =
    if not (is_next_session m.config.ws_recover_policy)
    then record m { overlay = normal; overlay_changed_at = now }
    else if m.session_reentered_for_recover
    then record m {
      overlay = normal;
      overlay_changed_at = now;
      session_reentered_for_recover = false;
    }
    else m

unfoldable pub step_in_session : Machine → ℕ → FeedStatus → Bool → Machine
unfolding degrade recover
step_in_session m now feed ws_stable = elim m.overlay [
  | normal ↦
      if stale_condition m now feed
        && has_passed m.config.ws_min_normal_sec m.overlay_changed_at now
      then degrade m now
      else m
  | degraded_feed ↦
      if has_passed m.config.ws_min_degraded_sec m.overlay_changed_at now && ws_stable
      then recover m now
      else m
  | emergency_stop ↦ m
]

unfoldable pub step_overlay : Machine → MarketSessionState → ℕ → FeedStatus → Bool → Bool → Machine
unfolding step_in_session
step_overlay m s now feed risk_stop ws_stable =
    if risk_stop && not (is_emergency m.overlay)
    then record m { overlay = emergency_stop; overlay_changed_at = now }
    else if not (is_emergency m.overlay) && is_in_session s
    then step_in_session m now feed ws_stable
    else m

abbrev overlay_index : RuntimeOverlay → ℕ
overlay_index normal = 0
overlay_index degraded_feed = 1
overlay_index emergency_stop = 2

-- `(prev_overlay, self.overlay)`, where they differ
unfoldable pub overlay_transition :
    RuntimeOverlay → RuntimeOverlay → Option (RuntimeOverlay × RuntimeOverlay)
overlay_transition o o' = if eqb (overlay_index o) (overlay_index o') then none else some (o, o')

-- While degraded in session the feed is REST, and the websocket runs in the background.
unfoldable pub final_policy : Machine → MarketSessionState → FeedStatus → RuntimePolicy
unfolding build_policy
final_policy m s feed =
    let policy = build_policy m s feed in
    if is_degraded m.overlay && is_in_session s
    then record policy { active_feed_mode = rest; ws_should_run = true }
    else policy

-- The machine before the overlay is looked at, the session's state, and whether the feed is stable.
unfoldable pub observe :
    Machine → ℕ → MarketInput → FeedStatus → Machine × MarketSessionState × Bool
unfolding note_market note_stability
observe m now market_state feed =
    let (m₀, s) = coerce_market_state m market_state in
    let (m₁, stable) = note_stability (note_market m₀ s) s now feed in (m₁, s, stable)

unfoldable pub evaluate :
    Machine → ℕ → MarketInput → Text → FeedStatus → Bool → Machine × RuntimeDecision
evaluate m now market_state market_reason feed risk_stop =
    let (m₁, s, stable) = observe m now market_state feed in
    let m₂ = step_overlay m₁ s now feed risk_stop stable in
    (
      m₂,
      record {
        market_state = s;
        market_reason = market_reason;
        overlay = m₂.overlay;
        policy = final_policy m₂ s feed;
        feed_status = feed;
        market_transition = market_transition m.last_market_state s;
        overlay_transition = overlay_transition m.overlay m₂.overlay;
      },
    )
