-- ===== src/Runtime.antt =====
-- kis_trend_atr_trading/engine/runtime_state_machine.py: the overlay on the market session that
-- decides, on every pass of the main loop, what may be traded and on which feed. An instant is a
-- number of microseconds, and a difference is compared by adding the seconds to the earlier one.
pub mod Config
pub mod Evaluate
pub mod Overlay
pub mod Deque
pub mod Recovery
pub mod Safety
pub mod Gate
use kis_api_trend_atr.Base.{
  ℕ, ◌+◌, ◌-◌, ◌*◌, ◌/◌, Bool, true, false, not, ◌&&◌, ◌||◌, Option, none, some, List, [], ◌∷◌,
  ◌++◌, String, if◌then◌else◌, ltb, leb, eqb, is_some, length, last?, last_items, max,
}
use kis_api_trend_atr.Base.Eq.{◌==◌}
use kis_api_trend_atr.Base.Text.{Text, codes, strip, upper, text_keyed}
use kis_api_trend_atr.Session.{
  MarketSessionState, off_session, preopen_warmup, in_session, auction_guard, postclose,
}
use Config.{FeedMode, rest, ws, RecoverPolicy, auto, next_session, RuntimeConfig}

pub data RuntimeOverlay : Type 0 where
  normal degraded_feed emergency_stop : RuntimeOverlay

-- `float` seconds since the last message, in microseconds; `math.inf` before the first one
pub data Age : Type 0 where
  finite : ℕ → Age
  infinite : Age

pub record FeedStatus : Type 0 where
  pub ws_enabled : Bool
  pub ws_connected : Bool
  pub ws_last_message_age : Age
  pub ws_last_bar_ts : Option ℕ

pub record RuntimePolicy : Type 0 where
  pub allow_new_entries : Bool
  pub allow_exit : Bool
  pub run_strategy : Bool
  pub active_feed_mode : FeedMode
  pub ws_should_run : Bool
  pub sleep_sec : ℕ

pub record RuntimeDecision : Type 0 where
  pub market_state : MarketSessionState
  pub market_reason : Text
  pub overlay : RuntimeOverlay
  pub policy : RuntimePolicy
  pub feed_status : FeedStatus
  pub market_transition : Option (MarketSessionState × MarketSessionState)
  pub overlay_transition : Option (RuntimeOverlay × RuntimeOverlay)

-- What a caller passes as the market state: the enum, or a value of another type (by its name)
-- that reads as a text.
pub data MarketInput : Type 0 where
  known : MarketSessionState → MarketInput
  foreign : Text → Text → MarketInput

-- the two kinds of warning, each with the type's name and the token
pub data WarningKey : Type 0 where
  coerced invalid : Text → Text → WarningKey

pub record Machine : Type 0 where
  pub config : RuntimeConfig
  pub start_ts : ℕ
  pub overlay : RuntimeOverlay
  pub overlay_changed_at : ℕ
  pub last_market_state : Option MarketSessionState
  pub ws_healthy_since : Option ℕ
  pub recent_ws_bar_ts : List ℕ
  pub session_reentered_for_recover : Bool
  pub market_state_warning_keys : List WarningKey

-- `RuntimeStateMachine.__init__`
pub init : RuntimeConfig → ℕ → Machine
init config start_ts = record {
  config = config;
  start_ts = start_ts;
  overlay = normal;
  overlay_changed_at = start_ts;
  last_market_state = none;
  ws_healthy_since = none;
  recent_ws_bar_ts = [];
  session_reentered_for_recover = false;
  market_state_warning_keys = [];
}

abbrev pub seconds : ℕ → ℕ
seconds n = n * 1000000

-- `(now - earlier).total_seconds() >= n`
abbrev pub has_passed : ℕ → ℕ → ℕ → Bool
has_passed n earlier now = leb (earlier + seconds n) now

-- `age > n`, in seconds
abbrev pub is_older : Age → ℕ → Bool
is_older (finite age) n = ltb (seconds n) age
is_older infinite n = true

-- `int(difference.total_seconds()) == 60`; `int` drops the fraction, and a negative difference is
-- no match
pub is_consecutive_1m : ℕ → ℕ → Bool
is_consecutive_1m prev next = eqb ((next - prev) / 1000000) 60

-- the start of the last completed minute
pub completed_bar_ts_1m : ℕ → ℕ
completed_bar_ts_1m now = now / seconds 60 * seconds 60 - seconds 60

abbrev warning_beq : WarningKey → WarningKey → Bool
warning_beq (coerced a t) (coerced b u) = a == b && t == u
warning_beq (invalid a t) (invalid b u) = a == b && t == u
warning_beq _ _ = false

add_warning : WarningKey → List WarningKey → List WarningKey
add_warning k [] = k ∷ []
add_warning k (j ∷ ks) = if warning_beq j k then j ∷ ks else j ∷ add_warning k ks

-- the loop over the enum's members, in their order
pub state_of_token : Text → Option MarketSessionState
state_of_token token =
    if token == codes "OFF_SESSION"
    then some off_session
    else if token == codes "PREOPEN_WARMUP"
    then some preopen_warmup
    else if token == codes "IN_SESSION"
    then some in_session
    else if token == codes "AUCTION_GUARD"
    then some auction_guard
    else if token == codes "POSTCLOSE"
    then some postclose
    else none

-- `_coerce_market_state`: a foreign value is read by its text, and an unknown one is OFF_SESSION
pub coerce_market_state : Machine → MarketInput → Machine × MarketSessionState
unfolding state_of_token add_warning
coerce_market_state m (known s) = (m, s)
coerce_market_state m (foreign type_name raw) =
    let token = upper (strip raw) in
    elim (state_of_token token) [
      | some s ↦ (warned (coerced type_name token), s)
      | none ↦ (warned (invalid type_name token), off_session)
    ]
  where
    warned : WarningKey → Machine
    warned k = record m { market_state_warning_keys = add_warning k m.market_state_warning_keys }

pub reset_ws_stability : Machine → Machine
reset_ws_stability m = record m { ws_healthy_since = none; recent_ws_bar_ts = [] }

-- the deque's `maxlen`
abbrev pub max_bars : ℕ
max_bars = 16

-- `deque.append`: the oldest entry falls out of a full deque
abbrev pub append_bar : List ℕ → ℕ → List ℕ
append_bar bars ts = last_items max_bars (bars ++ ts ∷ [])

pub append_ws_bar_ts : List ℕ → Option ℕ → List ℕ
append_ws_bar_ts bars none = bars
append_ws_bar_ts bars (some ts) = elim (last? bars) [
  | none ↦ append_bar bars ts
  | some last ↦ if ltb last ts then append_bar bars ts else bars
]

-- the loop over neighbours
pub all_consecutive : List ℕ → Bool
all_consecutive [] = true
all_consecutive (t ∷ []) = true
all_consecutive (t ∷ u ∷ ts) = is_consecutive_1m t u && all_consecutive (u ∷ ts)

pub has_required_consecutive_ws_bars : Machine → Bool
has_required_consecutive_ws_bars m =
    let required = max m.config.ws_recover_required_bars 1 in
    if ltb (length m.recent_ws_bar_ts) required
    then false
    else all_consecutive (last_items required m.recent_ws_bar_ts)

-- A healthy feed: the time since which it is healthy is kept, and the bar is recorded.
pub note_healthy : Machine → ℕ → FeedStatus → Machine
unfolding append_ws_bar_ts
note_healthy m now feed = record m {
  ws_healthy_since = elim m.ws_healthy_since [ none ↦ some now | some t ↦ some t ];
  recent_ws_bar_ts = append_ws_bar_ts m.recent_ws_bar_ts feed.ws_last_bar_ts;
}

abbrev pub healthy_long_enough : Machine → ℕ → Bool
healthy_long_enough m now = elim m.ws_healthy_since [
  | none ↦ has_passed m.config.ws_recover_stable_sec now now
  | some t ↦ has_passed m.config.ws_recover_stable_sec t now
]

pub is_ws_recover_stable : Machine → ℕ → FeedStatus → Machine × Bool
unfolding note_healthy reset_ws_stability
is_ws_recover_stable m now feed =
    if not feed.ws_enabled || not feed.ws_connected
    then (reset_ws_stability m, false)
    else if is_older feed.ws_last_message_age m.config.ws_stale_sec
    then (reset_ws_stability m, false)
    else let m' = note_healthy m now feed in
      (m', healthy_long_enough m now && has_required_consecutive_ws_bars m')
