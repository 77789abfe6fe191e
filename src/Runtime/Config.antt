-- ===== src/Runtime/Config.antt =====
-- `RuntimeConfig` of kis_trend_atr_trading/engine/runtime_state_machine.py. Numbers come in as
-- Python's signed integers, and `post_init` bounds them from below.
use kis_api_trend_atr.Base.{ℕ, ◌≤◌, Bool, List, arith, String, if◌then◌else◌, min}
use kis_api_trend_atr.Base.Int.{ℤ, at_least}
use kis_api_trend_atr.Base.Eq.{◌==◌}
use kis_api_trend_atr.Base.Text.{Text, codes, strip, lower, text_keyed}

pub data FeedMode : Type 0 where
  rest ws : FeedMode

pub data RecoverPolicy : Type 0 where
  auto next_session : RecoverPolicy

-- the arguments of the constructor
pub record RawConfig : Type 0 where
  pub market_timezone : String
  pub data_feed_default : Text
  pub timeframe : String
  pub preopen_warmup_min : ℤ
  pub postclose_min : ℤ
  pub auction_guard_windows : List Text
  pub allow_exit_in_auction : Bool
  pub offsession_ws_enabled : Bool
  pub ws_start_grace_sec : ℤ
  pub ws_stale_sec : ℤ
  pub ws_reconnect_max_attempts : ℤ
  pub ws_reconnect_backoff_base_sec : ℤ
  pub ws_recover_policy : Text
  pub ws_recover_stable_sec : ℤ
  pub ws_recover_required_bars : ℤ
  pub ws_min_degraded_sec : ℤ
  pub ws_min_normal_sec : ℤ
  pub telegram_transition_cooldown_sec : ℤ
  pub status_log_interval_sec : ℤ
  pub insession_sleep_sec : ℤ
  pub offsession_sleep_sec : ℤ

-- the fields after `__post_init__`
pub record RuntimeConfig : Type 0 where
  pub market_timezone : String
  pub data_feed_default : FeedMode
  pub timeframe : String
  pub preopen_warmup_min : ℕ
  pub postclose_min : ℕ
  pub auction_guard_windows : List Text
  pub allow_exit_in_auction : Bool
  pub offsession_ws_enabled : Bool
  pub ws_start_grace_sec : ℕ
  pub ws_stale_sec : ℕ
  pub ws_reconnect_max_attempts : ℕ
  pub ws_reconnect_backoff_base_sec : ℕ
  pub ws_recover_policy : RecoverPolicy
  pub ws_recover_stable_sec : ℕ
  pub ws_recover_required_bars : ℕ
  pub ws_min_degraded_sec : ℕ
  pub ws_min_normal_sec : ℕ
  pub telegram_transition_cooldown_sec : ℤ
  pub status_log_interval_sec : ℕ
  pub insession_sleep_sec : ℕ
  pub offsession_sleep_sec : ℕ

-- `mode or "rest"`, trimmed and lowered; anything but "ws" reads as "rest"
pub normalize_feed_mode : Text → FeedMode
normalize_feed_mode mode = if lower (strip mode) == codes "ws" then ws else rest

-- anything but "next_session" reads as "auto"
pub normalize_recover_policy : Text → RecoverPolicy
normalize_recover_policy policy =
    if lower (strip policy) == codes "next_session" then next_session else auto

unfoldable pub post_init : RawConfig → RuntimeConfig
unfolding normalize_feed_mode normalize_recover_policy
post_init r = record {
  market_timezone = r.market_timezone;
  data_feed_default = normalize_feed_mode r.data_feed_default;
  timeframe = r.timeframe;
  preopen_warmup_min = at_least 0 r.preopen_warmup_min;
  postclose_min = at_least 0 r.postclose_min;
  auction_guard_windows = r.auction_guard_windows;
  allow_exit_in_auction = r.allow_exit_in_auction;
  offsession_ws_enabled = r.offsession_ws_enabled;
  ws_start_grace_sec = at_least 0 r.ws_start_grace_sec;
  ws_stale_sec = at_least 1 r.ws_stale_sec;
  ws_reconnect_max_attempts = at_least 1 r.ws_reconnect_max_attempts;
  ws_reconnect_backoff_base_sec = at_least 1 r.ws_reconnect_backoff_base_sec;
  ws_recover_policy = normalize_recover_policy r.ws_recover_policy;
  ws_recover_stable_sec = at_least 1 r.ws_recover_stable_sec;
  ws_recover_required_bars = at_least 1 r.ws_recover_required_bars;
  ws_min_degraded_sec = at_least 0 r.ws_min_degraded_sec;
  ws_min_normal_sec = at_least 0 r.ws_min_normal_sec;
  telegram_transition_cooldown_sec = r.telegram_transition_cooldown_sec;
  status_log_interval_sec = at_least 60 r.status_log_interval_sec;
  insession_sleep_sec = at_least 15 r.insession_sleep_sec;
  offsession_sleep_sec = min (at_least 300 r.offsession_sleep_sec) 900;
}

-- What the machine relies on in a configuration.
pub record IsValid (c : RuntimeConfig) : Type 0 where
  pub stale : 1 ≤ c.ws_stale_sec
  pub attempts : 1 ≤ c.ws_reconnect_max_attempts
  pub backoff : 1 ≤ c.ws_reconnect_backoff_base_sec
  pub stable : 1 ≤ c.ws_recover_stable_sec
  pub bars : 1 ≤ c.ws_recover_required_bars
  pub log_interval : 60 ≤ c.status_log_interval_sec
  pub insession : 15 ≤ c.insession_sleep_sec
  pub offsession_low : 300 ≤ c.offsession_sleep_sec
  pub offsession_high : c.offsession_sleep_sec ≤ 900

-- Whatever numbers the settings hold, the checks of the constructor give a configuration whose times
-- and counts are at least 1, 15, 60 or 300, as the machine relies on, and whose sleep out of session
-- is at most 900 seconds.
pub post_init-IsValid : (r : RawConfig) → IsValid (post_init r)
unfolding post_init
post_init-IsValid r = omega arith
