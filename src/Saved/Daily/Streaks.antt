-- ===== src/Saved/Daily/Streaks.antt =====
-- Counts of the daily trades of kis_trend_atr_trading/utils/position_store.py over any run of calls.
use mathlib.Core.List.{reverse, reverse-append, append-nil, append_assoc}
use kis_api_trend_atr.Base.{
  ℕ, ◌+◌, ◌≡◌, refl, sym, ap, ◌∙◌, true, none, some, List, [], ◌∷◌, ◌++◌, if◌then◌else◌, length,
  Bool-cases, inl, inr,
}
use kis_api_trend_atr.Base.Dict.{Dict, lookup, insert, lookup-insert}
use kis_api_trend_atr.Base.Floats.{Floats}
use kis_api_trend_atr.Base.Text.{Text, text_keyed, text_beq, text_beq_iff}
use kis_api_trend_atr.Saved.Daily.{
  DailyTrade, TradingDay, DailyTradeStore, load_data, save_data, is_loss, day_or_new, with_trade,
  save_trade, get_daily_stats,
}

module _ {A : Type 0} ⦃f : Floats A⦄ where
  -- the losses at the end of a list of trades, from the last one backwards
  pub leading_losses : List (DailyTrade A) → ℕ
  leading_losses [] = 0
  leading_losses (t ∷ trades) =
      let rest = leading_losses trades in if is_loss t then rest + 1 else 0

  abbrev pub losing_streak : List (DailyTrade A) → ℕ
  losing_streak trades = leading_losses (reverse trades)

  -- calls of `save_trade`, each with its day
  pub save_all : List (Text × DailyTrade A) → DailyTradeStore A → DailyTradeStore A
  save_all [] s = s
  save_all ((today, t) ∷ calls) s = save_all calls (save_trade today t s).0

  abbrev pub trades_of : Text → List (Text × DailyTrade A) → List (DailyTrade A)
  trades_of today [] = []
  trades_of today ((day, t) ∷ calls) =
      let rest = trades_of today calls in if text_beq day today then t ∷ rest else rest

  losing_streak-append :
      (trades : List (DailyTrade A)) (t : DailyTrade A)
      → losing_streak (trades ++ (t ∷ [])) ≡ (if is_loss t then losing_streak trades + 1 else 0)
  unfolding leading_losses
  losing_streak-append trades t = rw (reverse-append trades (t ∷ [])) refl

  day_at : Text → DailyTradeStore A → TradingDay A
  unfolding load_data
  day_at today s = day_or_new (lookup today (load_data s.file))

  abbrev Counted : List (DailyTrade A) → TradingDay A → Type 0
  Counted trades d = (d.trades ≡ trades) × (d.consecutive_losses ≡ losing_streak trades)

  with_trade-Counted :
      (t : DailyTrade A) (trades : List (DailyTrade A)) (d : TradingDay A)
      → Counted trades d
      → Counted (trades ++ (t ∷ [])) (with_trade t d)
  unfolding with_trade
  with_trade-Counted t trades d (same, streak) = (
    ap (λ ts. ts ++ (t ∷ [])) same,
    ap (λ n. if is_loss t then n + 1 else 0) streak ∙ sym (losing_streak-append trades t),
  )

  saved_days :
      (today : Text) (t : DailyTrade A) (s : DailyTradeStore A)
      → s.writable ≡ true
      → (save_trade today t s).0 ≡ record s {
        file = some (
            insert today
              (with_trade t (day_or_new (lookup today (load_data s.file))))
              (load_data s.file));
      }
  unfolding save_trade save_data
  saved_days today t s h = rw h refl

  day-insert :
      (today day : Text) (w : TradingDay A) (days : Dict Text (TradingDay A))
      → day_or_new (lookup today (insert day w days))
        ≡ (if text_beq day today then w else day_or_new (lookup today days))
  day-insert today day w days =
      ap day_or_new (lookup-insert day today w days)
      ∙ elim (Bool-cases (text_beq day today)) [ inl e ↦ rw e refl | inr e ↦ rw e refl ]

  save_trade-writable :
      (day : Text) (t : DailyTrade A) (s : DailyTradeStore A)
      → s.writable ≡ true
      → (save_trade day t s).0.writable ≡ true
  save_trade-writable day t s h =
      ap (λ (v : DailyTradeStore A). v.writable) (saved_days day t s h) ∙ h

  save_trade-Counted :
      (today day : Text) (t : DailyTrade A) (s : DailyTradeStore A) (trades : List (DailyTrade A))
      → s.writable ≡ true
      → Counted trades (day_at today s)
      → Counted
          (if text_beq day today then trades ++ (t ∷ []) else trades)
          (day_at today (save_trade day t s).0)
  unfolding day_at load_data
  save_trade-Counted today day t s trades h c =
      let days = load_data s.file in
      let w = with_trade t (day_or_new (lookup day days)) in
      let after =
        ap (λ (v : DailyTradeStore A). day_or_new (lookup today (load_data v.file)))
          (saved_days day t s h)
        ∙ day-insert today day w days in
      elim (Bool-cases (text_beq day today)) [
        | inl e ↦
            let same_day = (text_beq_iff day today).0 e in
            rw after
              (rw e (with_trade-Counted t trades (day_or_new (lookup day days)) (rw same_day c)))
        | inr e ↦ rw after (rw e c)
      ]

  save_all-Counted :
      (today : Text) (calls : List (Text × DailyTrade A)) (s : DailyTradeStore A)
      (trades : List (DailyTrade A))
      → s.writable ≡ true
      → Counted trades (day_at today s)
      → Counted (trades ++ trades_of today calls) (day_at today (save_all calls s))
  unfolding save_all
  save_all-Counted today [] s trades h c = rw (append-nil trades) c
  save_all-Counted today ((day, t) ∷ calls) s trades h c =
      let s' = (save_trade day t s).0 in
      let h' = save_trade-writable day t s h in
      let c' = save_trade-Counted today day t s trades h c in
      elim (Bool-cases (text_beq day today)) [
        | inl e ↦
            let step : Counted (trades ++ (t ∷ [])) (day_at today s') = rw e at c' in
            rw (e, ← append_assoc trades (t ∷ []) (trades_of today calls))
              (save_all-Counted today calls s' (trades ++ (t ∷ [])) h' step)
        | inr e ↦
            let step : Counted trades (day_at today s') = rw e at c' in
            rw e (save_all-Counted today calls s' trades h' step)
      ]

  -- From no file on, and where the file can be written, the statistics of a day have the day's trades
  -- in the order in which they were saved, whatever other days had in between; the consecutive losses
  -- are those at the end of them.
  pub save_all-stats :
      (today : Text) (calls : List (Text × DailyTrade A))
      → let stats =
          get_daily_stats today (save_all calls (record { file = none; writable = true })) in
        (stats.trades ≡ trades_of today calls)
        × (stats.trade_count ≡ length (trades_of today calls))
        × (stats.consecutive_losses ≡ losing_streak (trades_of today calls))
  unfolding get_daily_stats day_at load_data leading_losses lookup
  save_all-stats today calls =
      let (same, streak) =
        save_all-Counted today calls (record { file = none; writable = true }) [] refl
          (refl, refl) in
      (same, ap length same, streak)
