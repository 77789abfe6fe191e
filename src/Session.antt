-- ===== src/Session.antt =====
-- The market session of kis_trend_atr_trading/utils/market_hours.py. An instant in the market's time
-- zone is a date and a time of day; a date is its ordinal (1 is Monday, 1 January of year 1), a time
-- is in microseconds. The holiday calendar, which the code reads from a file, is a parameter: the
-- test whether a date is in it.
pub mod Numerals
pub mod Hours
pub mod Checker
pub mod Phase
pub mod TradingDay
use kis_api_trend_atr.Base.{
  ℕ, ◌+◌, ◌-◌, ◌*◌, ◌%◌, ◌<◌, Bool, true, false, ◌&&◌, ◌||◌, not, Option, none, some, List, [], ◌∷◌,
  ◌++◌, if◌then◌else◌, ltb, leb, eqb, max,
}
use kis_api_trend_atr.Base.Eq.{◌==◌}
use kis_api_trend_atr.Base.Int.{ℤ, pos, negsuc, at_least}
use kis_api_trend_atr.Base.Text.{Text, codes, strip, text_keyed}
use Numerals.{parse_int, split_once}

pub data MarketSessionState : Type 0 where
  off_session preopen_warmup in_session auction_guard postclose : MarketSessionState

abbrev state_index : MarketSessionState → ℕ
state_index off_session = 0
state_index preopen_warmup = 1
state_index in_session = 2
state_index auction_guard = 3
state_index postclose = 4

abbrev pub same_state : MarketSessionState → MarketSessionState → Bool
same_state s t = eqb (state_index s) (state_index t)

abbrev pub is_in_session : MarketSessionState → Bool
is_in_session in_session = true
is_in_session _ = false

pub record Instant : Type 0 where
  pub date : ℕ
  pub time : ℕ

-- `time(hour, minute, 0)`
abbrev pub clock : ℕ → ℕ → ℕ
clock hour minute = (hour * 60 + minute) * 60000000

abbrev pub minutes : ℕ → ℕ
minutes n = n * 60000000

abbrev pub market_open : ℕ
market_open = clock 9 0

abbrev pub market_close : ℕ
market_close = clock 15 20

abbrev pub session_close : ℕ
session_close = clock 15 30

abbrev pub lunch_start : ℕ
lunch_start = clock 11 30

abbrev pub lunch_end : ℕ
lunch_end = clock 13 0

-- `date.weekday()`: Monday is 0
unfoldable pub weekday : ℕ → ℕ
weekday date = (date + 6) % 7

unfoldable pub is_weekend : ℕ → Bool
unfolding weekday
is_weekend date = leb 5 (weekday date)

-- `time(hour, minute, 0)`, which raises out of range
time_of : Option ℤ → Option ℤ → Option ℕ
time_of (some (pos h)) (some (pos m)) = if ltb h 24 && ltb m 60 then some (clock h m) else none
time_of _ _ = none

pub parse_hhmm : Text → Option ℕ
unfolding time_of
parse_hhmm value = elim (split_once b':' (strip value)) [
  | none ↦ none
  | some (hour, minute) ↦ time_of (parse_int hour) (parse_int minute)
]

-- The times of one window, where it is well formed.
pub parse_window : Text → Option (ℕ × ℕ)
parse_window token = elim (split_once b'-' token) [
  | none ↦ none
  | some (start, end) ↦ elim (parse_hhmm start) [
    | none ↦ none
    | some s ↦ elim (parse_hhmm end) [ none ↦ none | some e ↦ some (s, e) ]
  ]
]

-- `_in_auction_window`: the token of the first window that holds the time
unfoldable pub in_auction_window : ℕ → List Text → Option Text
in_auction_window time [] = none
in_auction_window time (raw ∷ windows) =
    let token = strip raw in
    let rest = in_auction_window time windows in
    elim (parse_window token) [
      | none ↦ rest
      | some (start, end) ↦ if leb start time && ltb time end then some token else rest
    ]

module _ (is_holiday : ℕ → Bool) where
  -- the session's state with the reason
  unfoldable pub get_market_session_state : Instant → ℤ → ℤ → List Text → MarketSessionState × Text
  get_market_session_state now preopen_warmup_min postclose_min windows =
      let preopen = market_open - minutes (at_least 0 preopen_warmup_min) in
      let postclose_end = session_close + minutes (at_least 0 postclose_min) in
      if is_weekend now.date
      then (off_session, codes "weekend_closed")
      else if is_holiday now.date
      then (off_session, codes "holiday_closed")
      else elim (in_auction_window now.time windows) [
        | some token ↦ (auction_guard, codes "auction_guard:" ++ token)
        | none ↦
            if ltb now.time preopen
            then (off_session, codes "off_session_before_prewarm")
            else if ltb now.time market_open
            then (preopen_warmup, codes "preopen_warmup")
            else if ltb now.time session_close
            then (in_session, codes "regular_session_open")
            else if ltb now.time postclose_end
            then (postclose, codes "post_close_cleanup")
            else (off_session, codes "off_session_after_postclose")
      ]

  unfoldable pub is_market_open : Instant → Bool
  is_market_open now =
      if is_weekend now.date
      then false
      else if is_holiday now.date
      then false
      else leb market_open now.time && leb now.time market_close

  -- the Korean texts of the reasons are named here
  unfoldable pub get_market_status : Instant → Bool × Text
  get_market_status now =
      if is_weekend now.date
      then (false, codes "weekend")
      else if is_holiday now.date
      then (false, codes "holiday")
      else if ltb now.time market_open
      then (false, codes "before open")
      else if ltb market_close now.time
      then (false, codes "after close")
      else if leb lunch_start now.time && leb now.time lunch_end
      then (true, codes "lunch")
      else (true, codes "regular")

  unfoldable pub should_skip_trading : Instant → Bool × Text
  unfolding get_market_status
  should_skip_trading now =
      let (is_open, reason) = get_market_status now in
      if not is_open then (true, reason) else (false, [])
