-- ===== src/Session/Checker.antt =====
-- `MarketHoursChecker` of kis_trend_atr_trading/engine/order_synchronizer.py: its own reading of the
-- trading hours, from the weekday and the time alone.
pub mod Agreement
use kis_api_trend_atr.Base.{
  ℕ, ◌+◌, ◌-◌, ◌*◌, ◌/◌, Option, none, some, Bool, true, false, ◌&&◌, ◌||◌, if◌then◌else◌, ltb, leb,
}
use kis_api_trend_atr.Session.{Instant, clock, is_weekend}
use kis_api_trend_atr.Session.TradingDay.{first_open}

pub data MarketStatus : Type 0 where
  closed pre_market open_market simultaneous_quote : MarketStatus

abbrev pub pre_market_start : ℕ
pre_market_start = clock 8 30

abbrev pub market_open : ℕ
market_open = clock 9 0

abbrev pub simultaneous_quote_start : ℕ
simultaneous_quote_start = clock 15 20

abbrev pub market_close : ℕ
market_close = clock 15 30

pub get_market_status : Instant → MarketStatus
get_market_status now =
    if is_weekend now.date
    then closed
    else if leb pre_market_start now.time && ltb now.time market_open
    then pre_market
    else if leb market_open now.time && ltb now.time simultaneous_quote_start
    then open_market
    else if leb simultaneous_quote_start now.time && ltb now.time market_close
    then simultaneous_quote
    else closed

-- the first part of `is_tradeable`; the second is a message for each status
unfoldable pub is_tradeable : Instant → Bool
unfolding get_market_status
is_tradeable now = elim (get_market_status now) [
  | open_market ↦ true
  | pre_market ↦ false
  | simultaneous_quote ↦ false
  | closed ↦ false
]

-- whole seconds
pub get_time_until_market_close : Instant → ℕ
get_time_until_market_close now =
    if leb simultaneous_quote_start now.time
    then 0
    else if ltb now.time market_open
    then 0
    else (simultaneous_quote_start - now.time) / 1000000

abbrev pub day_length : ℕ
day_length = clock 24 0

-- Seconds to the next opening; three rounds of the loop over the weekend are enough.
pub get_time_until_market_open : Instant → Option ℕ
get_time_until_market_open now =
    if leb market_open now.time && ltb now.time simultaneous_quote_start
    then some 0
    else if ltb now.time market_open
    then some ((market_open - now.time) / 1000000)
    else elim (first_open is_weekend 3 (now.date + 1)) [
      | none ↦ none
      | some next ↦ some (((next - now.date) * day_length + market_open - now.time) / 1000000)
    ]
