-- ===== src/Positions/Exits.antt =====
-- `PositionManager.check_exit_conditions`, and what it decides.
use kis_api_trend_atr.Base.{
  ◌≡◌, ◌≢◌, ◌↔◌, Bool, true, false, ◌&&◌, not, if◌then◌else◌, Option, none, some, arith, inl, inr,
  Option-cases,
}
use kis_api_trend_atr.Base.Floats.{Floats}
use kis_api_trend_atr.Base.Dict.{lookup}
use kis_api_trend_atr.Base.Text.{Text, text_keyed}
use kis_api_trend_atr.Positions.{
  PositionManager, ManagedPosition, ExitReason, atr_stop, trailing_stop, take_profit, trend_broken,
  gap_protection, Outcome, done, zero_division, is_zero, percent,
}

module _ {A : Type 0} ⦃f : Floats A⦄ where
  -- the check of the gap, which divides by the entry price
  pub gap_exit : PositionManager A → ManagedPosition A → A → Outcome (Option ExitReason)
  gap_exit m p price =
      if is_zero p.entry_price
      then zero_division
      else if f.lt price p.stop_loss
          && f.lt m.max_gap_loss_pct (percent (f.sub p.stop_loss price) p.entry_price)
      then done (some gap_protection)
      else done none

  pub check_exit_conditions :
      PositionManager A → Text → A → Bool → Bool → Outcome (Option ExitReason)
  unfolding gap_exit
  check_exit_conditions m code price current_trend_bullish is_market_open =
      elim (lookup code m.positions) [
        | none ↦ done none
        | some p ↦
            if f.le price p.stop_loss
            then done (some atr_stop)
            else if m.enable_trailing && f.le price p.trailing_stop
            then done (some trailing_stop)
            else if f.lt (f.of_nat 0) p.take_profit && f.le p.take_profit price
            then done (some take_profit)
            else if not current_trend_bullish
            then done (some trend_broken)
            else if m.enable_gap_protection && is_market_open
            then gap_exit m p price
            else done none
      ]

  -- The reason GAP_PROTECTION is never given: a price below the stop is an ATR stop first, so the
  -- check of the gap loss decides nothing.
  pub never_gap_protection :
      (m : PositionManager A) (code : Text) (price : A) (bullish is_open : Bool)
      → check_exit_conditions m code price bullish is_open ≢ done (some gap_protection)
  unfolding check_exit_conditions
  never_gap_protection m code price bullish is_open =
      elim (Option-cases (lookup code m.positions)) [
        | inl e ↦ rw (e, check_exit_conditions) ground arith
        | inr (p, e) ↦ rw (e, check_exit_conditions) ground (arith, f.le_of_lt price p.stop_loss)
      ]

  -- A held position whose entry price is not zero is kept exactly when the price is above the stop
  -- (and above the trailing stop, where that is on), has not reached a positive target, and the
  -- trend is up.
  pub keeps_iff :
      (m : PositionManager A) (code : Text) (p : ManagedPosition A) (price : A)
      (bullish is_open : Bool)
      → lookup code m.positions ≡ some p
      → is_zero p.entry_price ≡ false
      → (check_exit_conditions m code price bullish is_open ≡ done none) ↔ (
          (f.le price p.stop_loss ≡ false)
          × ((m.enable_trailing && f.le price p.trailing_stop) ≡ false)
          × ((f.lt (f.of_nat 0) p.take_profit && f.le p.take_profit price) ≡ false)
          × (bullish ≡ true))
  unfolding check_exit_conditions
  keeps_iff m code p price bullish is_open e nonzero =
      rw (e, check_exit_conditions) ground (arith, nonzero, f.le_of_lt price p.stop_loss)
