-- ===== src/Session/Hours.antt =====
-- When the market's session is in which state.
use kis_api_trend_atr.Base.{
  ℕ, ◌+◌, ◌≤◌, ◌<◌, ◌≡◌, refl, ◌≢◌, ◌⊎◌, ◌↔◌, Bool, false, Option, none, some, List, [], ◌∷◌, arith,
  inl, inr,
}
use kis_api_trend_atr.Base.Int.{ℤ, at_least}
use kis_api_trend_atr.Base.Text.{Text, strip}
use kis_api_trend_atr.Session.{
  MarketSessionState, preopen_warmup, in_session, auction_guard, postclose, Instant, minutes,
  market_open, session_close, is_weekend, parse_window, in_auction_window, get_market_session_state,
}

-- Not a weekend and not in the calendar.
pub record IsTradingDay (is_holiday : ℕ → Bool) (date : ℕ) : Type 0 where
  pub weekday : is_weekend date ≡ false
  pub open_day : is_holiday date ≡ false

abbrev Holds : ℕ → Option (ℕ × ℕ) → Type 0
Holds time none = ⊥
Holds time (some (start, end)) = (start ≤ time) × (time < end)

-- Some window of the list is well formed and holds the time, from its start up to before its end.
abbrev pub IsGuarded : ℕ → List Text → Type 0
IsGuarded time [] = ⊥
IsGuarded time (raw ∷ windows) = Holds time (parse_window (strip raw)) ⊎ IsGuarded time windows

IsGuarded-of_some :
    (time : ℕ) (windows : List Text)
    → in_auction_window time windows ≢ none
    → IsGuarded time windows
unfolding in_auction_window
IsGuarded-of_some time [] h = absurd (h refl)
IsGuarded-of_some time (raw ∷ windows) h = ground (arith, IsGuarded-of_some time windows)

some_of_IsGuarded :
    (time : ℕ) (windows : List Text)
    → IsGuarded time windows
    → in_auction_window time windows ≢ none
unfolding in_auction_window
some_of_IsGuarded time [] g = absurd g
some_of_IsGuarded time (raw ∷ windows) (inl h) = ground arith
some_of_IsGuarded time (raw ∷ windows) (inr g) = ground (arith, some_of_IsGuarded time windows g)

module _ (is_holiday : ℕ → Bool) (now : Instant) (pre post : ℤ) (windows : List Text) where
  abbrev state : MarketSessionState
  state = (get_market_session_state is_holiday now pre post windows).0

  -- What each state means.
  pub record Meaning : Type 0 where
    pub guarded :
        (state ≡ auction_guard) ↔ (IsTradingDay is_holiday now.date × IsGuarded now.time windows)
    pub regular : (state ≡ in_session) ↔ (
        IsTradingDay is_holiday now.date
        × (¬ IsGuarded now.time windows)
        × (market_open ≤ now.time)
        × (now.time < session_close))
    pub warming : (state ≡ preopen_warmup) ↔ (
        IsTradingDay is_holiday now.date
        × (¬ IsGuarded now.time windows)
        × (market_open ≤ now.time + minutes (at_least 0 pre))
        × (now.time < market_open))
    pub cleaning : (state ≡ postclose) ↔ (
        IsTradingDay is_holiday now.date
        × (¬ IsGuarded now.time windows)
        × (session_close ≤ now.time)
        × (now.time < session_close + minutes (at_least 0 post)))

  -- On a trading day an auction window wins over everything else; outside of every window it is
  -- IN_SESSION from 9:00 until before 15:30, PREOPEN_WARMUP for `preopen_warmup_min` minutes
  -- before and POSTCLOSE for `postclose_min` minutes after; on any other day none of these.
  pub get_market_session_state-Meaning : Meaning
  unfolding get_market_session_state
  get_market_session_state-Meaning =
      ground (arith, IsGuarded-of_some now.time windows, some_of_IsGuarded now.time windows)
