-- ===== src/Tests/SessionExamples.antt =====
-- Examples of the trading hours. Day 1 is a Monday, as for `date.toordinal`.
use kis_api_trend_atr.Base.{ℕ, ◌≡◌, refl, Bool, some, List, [], ◌∷◌, arith}
use kis_api_trend_atr.Base.Eq.{◌==◌, nat_keyed}
use kis_api_trend_atr.Base.Int.{ℤ}
use kis_api_trend_atr.Base.Text.{Text, codes}
use kis_api_trend_atr.Session.{Instant, clock, is_weekend, weekday}
use kis_api_trend_atr.Session.Hours.{Meaning, get_market_session_state-Meaning}
use kis_api_trend_atr.Session.TradingDay.{
  IsFirstOpen, is_closed_day, get_next_trading_day, get_next_trading_day-IsFirstOpen,
}

-- the third day is a holiday
abbrev third : ℕ → Bool
third date = date == 3

abbrev at_ten : ℕ → Instant
at_ten date = record { date = date; time = clock 10 0 }

abbrev one_window : List Text
one_window = codes "08:50-09:00" ∷ []

get_market_session_state-Meaning_example : Meaning third (at_ten 2) (ℤ.pos 10) (ℤ.pos 10) one_window
get_market_session_state-Meaning_example =
    get_market_session_state-Meaning third (at_ten 2) (ℤ.pos 10) (ℤ.pos 10) one_window

get_next_trading_day-IsFirstOpen_example :
    (found : ℕ) × (get_next_trading_day third 5 2 ≡ some found)
    × IsFirstOpen (is_closed_day third) 3 found
unfolding is_weekend weekday
get_next_trading_day-IsFirstOpen_example =
    get_next_trading_day-IsFirstOpen third 5 2 1 refl (omega arith)
