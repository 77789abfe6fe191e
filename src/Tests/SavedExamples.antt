-- ===== src/Tests/SavedExamples.antt =====
-- The theorems on the saved position and the daily trades at concrete files.
use kis_api_trend_atr.Base.{ℕ, ◌≡◌, refl, true, false, none, some, List, [], ◌∷◌, length}
use kis_api_trend_atr.Base.Floats.{int_floats}
use kis_api_trend_atr.Base.Int.{ℤ, pos, negsuc}
use kis_api_trend_atr.Base.Text.{Text, codes}
use kis_api_trend_atr.Trading.{MultidayPosition, Now, entered}
use kis_api_trend_atr.Saved.{
  StoredPosition, PositionStore, absent, save_position, load_position, from_multiday_position,
  to_multiday_position,
}
use kis_api_trend_atr.Saved.Restart.{IsComplete, position_survives}
use kis_api_trend_atr.Saved.Daily.{DailyTrade, get_daily_stats}
use kis_api_trend_atr.Saved.Daily.Streaks.{save_all, trades_of, losing_streak, save_all-stats}

abbrev monday : Now
monday = record { date_text = codes "2025-03-10"; time_text = codes "09:10:00"; day = 739320 }

abbrev tuesday : Now
tuesday = record { date_text = codes "2025-03-11"; time_text = codes "08:50:00"; day = 739321 }

abbrev samsung : MultidayPosition ℤ
samsung = record {
  symbol = codes "005930";
  position = codes "LONG";
  entry_price = pos 70000;
  quantity = 10;
  atr_at_entry = pos 1500;
  stop_loss = pos 67000;
  take_profit = none;
  trailing_stop = pos 67000;
  highest_price = pos 71000;
  entry_date = codes "2025-03-10";
  entry_time = codes "09:10:00";
  state = entered;
}

samsung-IsComplete : IsComplete samsung
samsung-IsComplete = record { dated = refl; timed = refl; highest = refl; trailing = refl }

-- no file yet; a pending exit is a number here
abbrev empty_store : PositionStore ℤ ℕ
empty_store = record { file = absent; writable = true }

position_survives_example :
    let file = (save_position (from_multiday_position monday (codes "t1") samsung) empty_store).0 in
    (q : StoredPosition ℤ) × (load_position tuesday (codes "t2") file ≡ some q)
    × (to_multiday_position tuesday q ≡ some samsung)
position_survives_example =
    position_survives samsung empty_store monday tuesday (codes "t1") (codes "t2")
      samsung-IsComplete refl

abbrev trade : ℤ → DailyTrade ℤ
trade pnl = record { is_buy = false; entry_price = pos 70000; quantity = 1; pnl = pnl }

abbrev calls : List (Text × DailyTrade ℤ)
calls =
    (codes "2025-03-10", trade (pos 500))
    ∷ (codes "2025-03-10", trade (negsuc 99))
    ∷ (codes "2025-03-11", trade (pos 7))
    ∷ (codes "2025-03-10", trade (negsuc 199))
    ∷ []

save_all-stats_example :
    let stats =
      get_daily_stats
        (codes "2025-03-10")
        (save_all calls (record { file = none; writable = true })) in
    (stats.trades ≡ trades_of (codes "2025-03-10") calls)
    × (stats.trade_count ≡ length (trades_of (codes "2025-03-10") calls))
    × (stats.consecutive_losses ≡ losing_streak (trades_of (codes "2025-03-10") calls))
save_all-stats_example = save_all-stats (codes "2025-03-10") calls
