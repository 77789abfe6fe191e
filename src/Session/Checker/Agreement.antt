-- ===== src/Session/Checker/Agreement.antt =====
-- Where the order synchronizer's reading of the trading hours agrees with the market calendar, and
-- where it does not.
use kis_api_trend_atr.Base.{ℕ, ◌≤◌, ◌<◌, ◌≡◌, ◌↔◌, Bool, true, false, some, List, [], arith}
use kis_api_trend_atr.Base.Int.{ℤ}
use kis_api_trend_atr.Base.Text.{Text}
use kis_api_trend_atr.Session.{
  off_session, in_session, Instant, clock, is_weekend, get_market_session_state, in_auction_window,
  is_market_open,
}
use kis_api_trend_atr.Session.Checker.{
  closed, get_market_status, is_tradeable, get_time_until_market_open,
}

-- The synchronizer sends buy orders exactly on weekdays from 9:00 until before 15:20.
pub is_tradeable_iff :
    (now : Instant)
    → (is_tradeable now ≡ true)
      ↔ ((is_weekend now.date ≡ false) × (clock 9 0 ≤ now.time) × (now.time < clock 15 20))
unfolding is_tradeable
is_tradeable_iff now = ground arith

module _ (is_holiday : ℕ → Bool) where
  -- On a day that is not in the holiday calendar, whenever the synchronizer would send an order the
  -- session, if no auction window is set, is IN_SESSION and the market counts as open.
  pub tradeable_in_session :
      (now : Instant) (pre post : ℤ)
      → is_holiday now.date ≡ false
      → is_tradeable now ≡ true
      → ((get_market_session_state is_holiday now pre post []).0 ≡ in_session)
        × (is_market_open is_holiday now ≡ true)
  unfolding is_tradeable get_market_session_state is_market_open in_auction_window
  tradeable_in_session now pre post open_day h = ground arith

  -- The synchronizer does not look at the calendar: on a holiday that falls on a weekday it would
  -- send orders from 9:00 until before 15:20, while the session is OFF_SESSION and the market is
  -- closed.
  pub tradeable_on_holiday :
      (now : Instant) (pre post : ℤ) (windows : List Text)
      → is_holiday now.date ≡ true
      → is_weekend now.date ≡ false
      → clock 9 0 ≤ now.time
      → now.time < clock 15 20
      → (is_tradeable now ≡ true)
        × ((get_market_session_state is_holiday now pre post windows).0 ≡ off_session)
        × (is_market_open is_holiday now ≡ false)
  unfolding is_tradeable get_market_session_state is_market_open
  tradeable_on_holiday now pre post windows hol week from until = ground arith

-- In a weekend from 9:00 until before 15:20 the time until the opening is given as 0, as if the
-- market were open, though the same checker says that it is closed.
pub until_open_in_weekend :
    (now : Instant)
    → is_weekend now.date ≡ true
    → clock 9 0 ≤ now.time
    → now.time < clock 15 20
    → (get_time_until_market_open now ≡ some 0) × (get_market_status now ≡ closed)
unfolding get_time_until_market_open get_market_status
until_open_in_weekend now w from until = ground arith
