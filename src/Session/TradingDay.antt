-- ===== src/Session/TradingDay.antt =====
-- `get_next_trading_day` and `get_time_to_market_open` of
-- kis_trend_atr_trading/utils/market_hours.py. The loop over closed days runs on fuel.
use mathlib.Core.Path.{subst}
use native.Mathlib.Decide.{ℕ_discrete}
use native.Mathlib.Nat.{add-zero}
use kis_api_trend_atr.Base.{
  ℕ, zero, suc, ◌+◌, ◌-◌, ◌*◌, ◌/◌, ◌≤◌, ◌<◌, ◌≡◌, ◌≢◌, Bool, true, false, ◌||◌, Option, none, some,
  if◌then◌else◌, ltb, arith, Bool-cases, Option-cases, inl, inr,
}
use kis_api_trend_atr.Session.{Instant, clock, market_open, is_weekend, is_market_open}

-- `while is_closed(day): day += 1`
unfoldable pub first_open : (ℕ → Bool) → ℕ → ℕ → Option ℕ
first_open is_closed zero date = none
first_open is_closed (suc fuel) date =
    let rest = first_open is_closed fuel (date + 1) in if is_closed date then rest else some date

-- The day found is the first that is not closed.
pub record IsFirstOpen (is_closed : ℕ → Bool) (from found : ℕ) : Type 0 where
  pub later : from ≤ found
  pub open_day : is_closed found ≡ false
  pub none_before : (date : ℕ) → from ≤ date → date < found → is_closed date ≡ true

pub first_open-IsFirstOpen :
    (is_closed : ℕ → Bool) (fuel date : ℕ) {found : ℕ}
    → first_open is_closed fuel date ≡ some found
    → IsFirstOpen is_closed date found
unfolding first_open
first_open-IsFirstOpen is_closed zero date h = absurd (ground arith)
first_open-IsFirstOpen is_closed (suc fuel) date {found} h = elim (Bool-cases (is_closed date)) [
  | inl e ↦
      let tail = first_open-IsFirstOpen is_closed fuel (date + 1) (rw e at h) in
      record {
        later = omega (arith, tail.later);
        open_day = tail.open_day;
        none_before = λ d le lt. elim (ℕ_discrete date d) [
          | yes same ↦ subst (λ k. is_closed k ≡ true) same e
          | no other ↦ tail.none_before d (omega arith) lt
        ];
      }
  | inr e ↦
      let same : date ≡ found = ground arith in
      subst (IsFirstOpen is_closed date) same (record {
        later = omega arith;
        open_day = e;
        none_before = λ d le lt. absurd (omega arith);
      })
]

-- Enough fuel: up to some open day.
pub first_open_total :
    (is_closed : ℕ → Bool) (fuel date gap : ℕ)
    → is_closed (date + gap) ≡ false
    → gap < fuel
    → first_open is_closed fuel date ≢ none
unfolding first_open
first_open_total is_closed zero date gap h lt = absurd (omega arith)
first_open_total is_closed (suc fuel) date zero h lt =
    let here : is_closed date ≡ false = rw add-zero at h in rw here (λ e. cc)
first_open_total is_closed (suc fuel) date (suc gap) h lt =
    let there : is_closed (date + 1 + gap) ≡ false =
      subst (λ k. is_closed k ≡ false) (omega arith) h in
    ground (arith, first_open_total is_closed fuel (date + 1) gap there)

-- Three days are never all in a weekend.
pub weekend_ends : (date : ℕ) → first_open is_weekend 3 date ≢ none
unfolding first_open is_weekend
weekend_ends date = ground arith

module _ (is_holiday : ℕ → Bool) where
  abbrev pub is_closed_day : ℕ → Bool
  is_closed_day date = is_weekend date || is_holiday date

  pub get_next_trading_day : ℕ → ℕ → Option ℕ
  get_next_trading_day fuel from_date = first_open is_closed_day fuel (from_date + 1)

  -- seconds to the next opening, 0 while the market is open
  unfoldable pub get_time_to_market_open : ℕ → Instant → Option ℕ
  unfolding get_next_trading_day
  get_time_to_market_open fuel now =
      if is_market_open is_holiday now
      then some 0
      else if ltb now.time market_open
      then some ((market_open - now.time) / 1000000)
      else elim (get_next_trading_day fuel now.date) [
        | none ↦ none
        | some next ↦ some (((next - now.date) * clock 24 0 + market_open - now.time) / 1000000)
      ]

  -- With fuel past some trading day after `from_date`, the loop ends at the first day after
  -- `from_date` that is neither in a weekend nor in the calendar.
  pub get_next_trading_day-IsFirstOpen :
      (fuel from_date gap : ℕ)
      → is_closed_day (from_date + 1 + gap) ≡ false
      → gap < fuel
      → (found : ℕ) × (get_next_trading_day fuel from_date ≡ some found)
        × IsFirstOpen is_closed_day (from_date + 1) found
  unfolding get_next_trading_day
  get_next_trading_day-IsFirstOpen fuel from_date gap h lt =
      elim (Option-cases (first_open is_closed_day fuel (from_date + 1))) [
        | inl e ↦ absurd (first_open_total is_closed_day fuel (from_date + 1) gap h lt e)
        | inr (found, e) ↦ (found, e, first_open-IsFirstOpen is_closed_day fuel (from_date + 1) e)
      ]

  -- On a closed day before 9:00 the code answers with the seconds to 9:00 of that very day, though
  -- at that instant the market is not open.
  pub time_to_open_on_closed_day :
      (fuel date time : ℕ)
      → is_closed_day date ≡ true
      → time < market_open
      → (get_time_to_market_open fuel (record { date = date; time = time })
          ≡ some ((market_open - time) / 1000000))
        × (is_market_open is_holiday (record { date = date; time = market_open }) ≡ false)
  unfolding get_time_to_market_open is_market_open
  time_to_open_on_closed_day fuel date time closed early = ground arith
