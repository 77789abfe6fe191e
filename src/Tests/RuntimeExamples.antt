-- ===== src/Tests/RuntimeExamples.antt =====
-- Examples of the runtime state machine.
use kis_api_trend_atr.Base.{ℕ, ◌≡◌, refl, ◌↔◌, Bool, true, false, none, some, List, [], ◌∷◌, All}
use kis_api_trend_atr.Base.Int.{ℤ}
use kis_api_trend_atr.Base.Text.{Text, codes, text_beq, lower, strip}
use kis_api_trend_atr.Session.{in_session}
use kis_api_trend_atr.Runtime.Config.{RawConfig, RuntimeConfig, post_init}
use kis_api_trend_atr.Runtime.{
  RuntimeOverlay, normal, degraded_feed, emergency_stop, FeedStatus, finite, infinite, known,
  Machine, coerce_market_state, seconds,
}
use kis_api_trend_atr.Runtime.Evaluate.{evaluate}
use kis_api_trend_atr.Runtime.Overlay.{
  Step, view, face, evaluate-Step, Pass, run, IsHalted, run-IsHalted,
}
use kis_api_trend_atr.Runtime.Recovery.{CanRecover, IsRecorded, recovers_iff}
use kis_api_trend_atr.Runtime.Safety.{IsPermitted, evaluate-IsPermitted}
use kis_api_trend_atr.Runtime.Gate.{Cooldown}

abbrev with_bars : ℤ → RawConfig
with_bars bars = record {
  market_timezone = "KST";
  data_feed_default = codes "WS";
  timeframe = "1m";
  preopen_warmup_min = ℤ.pos 10;
  postclose_min = ℤ.pos 10;
  auction_guard_windows = [];
  allow_exit_in_auction = true;
  offsession_ws_enabled = false;
  ws_start_grace_sec = ℤ.pos 30;
  ws_stale_sec = ℤ.pos 60;
  ws_reconnect_max_attempts = ℤ.pos 5;
  ws_reconnect_backoff_base_sec = ℤ.pos 1;
  ws_recover_policy = codes "auto";
  ws_recover_stable_sec = ℤ.pos 30;
  ws_recover_required_bars = bars;
  ws_min_degraded_sec = ℤ.pos 60;
  ws_min_normal_sec = ℤ.pos 60;
  telegram_transition_cooldown_sec = ℤ.pos 600;
  status_log_interval_sec = ℤ.pos 300;
  insession_sleep_sec = ℤ.pos 60;
  offsession_sleep_sec = ℤ.pos 600;
}

abbrev default_config : RuntimeConfig
default_config = post_init (with_bars (ℤ.pos 2))

abbrev machine_in : RuntimeConfig → RuntimeOverlay → Machine
machine_in config overlay = record {
  config = config;
  start_ts = 0;
  overlay = overlay;
  overlay_changed_at = 0;
  last_market_state = some in_session;
  ws_healthy_since = some (seconds 100);
  recent_ws_bar_ts = seconds 60 ∷ [];
  session_reentered_for_recover = false;
  market_state_warning_keys = [];
}

abbrev good_feed : FeedStatus
good_feed = record {
  ws_enabled = true;
  ws_connected = true;
  ws_last_message_age = finite 0;
  ws_last_bar_ts = some (seconds 120);
}

abbrev dead_feed : FeedStatus
dead_feed = record {
  ws_enabled = true;
  ws_connected = false;
  ws_last_message_age = infinite;
  ws_last_bar_ts = none;
}

abbrev pass_at : ℕ → FeedStatus → Bool → Pass
pass_at now feed risk_stop = record {
  now = now;
  market_state = known in_session;
  market_reason = [];
  feed_status = feed;
  risk_stop = risk_stop;
}

abbrev fallen : Machine
fallen = machine_in default_config degraded_feed

-- a feed that died before the second pass
evaluate-Step_example :
    let m = machine_in default_config normal in
    let m' = (evaluate m (seconds 200) (known in_session) [] dead_feed false).0 in
    Step m.config (view m (seconds 200) (known in_session) dead_feed false) (face m) (face m')
    × (m'.config ≡ m.config)
    × (m'.start_ts ≡ m.start_ts)
evaluate-Step_example =
    evaluate-Step (machine_in default_config normal) (seconds 200) (known in_session) [] dead_feed
      false

abbrev halted : Machine
halted = machine_in default_config emergency_stop

abbrev good_passes : List Pass
good_passes = pass_at (seconds 200) good_feed false ∷ pass_at (seconds 260) good_feed false ∷ []

run-IsHalted_example :
    ((run halted good_passes).0.overlay ≡ emergency_stop) × All IsHalted (run halted good_passes).1
run-IsHalted_example = run-IsHalted halted good_passes refl

evaluate-IsPermitted_example :
    let d = (evaluate fallen (seconds 200) (known in_session) [] dead_feed false).1 in
    IsPermitted fallen.config (coerce_market_state fallen (known in_session)).1 d.overlay d.policy
evaluate-IsPermitted_example =
    evaluate-IsPermitted fallen (seconds 200) (known in_session) [] dead_feed false

recovers_iff_example :
    (bars : List ℕ) × IsRecorded fallen.recent_ws_bar_ts good_feed.ws_last_bar_ts bars
    × (((evaluate fallen (seconds 200) (known in_session) [] good_feed false).0.overlay ≡ normal)
        ↔ CanRecover fallen (seconds 200) good_feed bars)
unfolding post_init text_beq lower strip
recovers_iff_example = recovers_iff fallen (seconds 200) [] good_feed refl refl

abbrev offered : List (Text × ℕ)
offered = (codes "5930", 60) ∷ (codes "005930", 60) ∷ (codes "5930", 120) ∷ []

abbrev cooldown : Cooldown
cooldown = record { cooldown_sec = 600; last_sent_ts = [] }

abbrev asked : List (Text × ℕ)
asked = (codes "a", 0) ∷ (codes "a", seconds 10) ∷ (codes "a", seconds 700) ∷ []
