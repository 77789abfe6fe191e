-- ===== src/Tests/ExecutorExamples.antt =====
-- The theorems on pending exits and on blocked entries at concrete calls.
use kis_api_trend_atr.Base.{
  ℕ, zero, suc, ◌+◌, ◌≡◌, refl, ap, true, false, none, some, List, [], ◌∷◌, arith, length,
}
use kis_api_trend_atr.Base.Floats.{int_floats}
use kis_api_trend_atr.Base.Int.{ℤ, pos}
use kis_api_trend_atr.Base.Text.{Text, codes, strip, upper, lower, text_beq}
use kis_api_trend_atr.Saved.{absent}
use kis_api_trend_atr.Resync.Account.{
  Resynchronizer, System, Clock, api_raised, got_balance, is_account_sync_mode, fetch_ssot_holdings,
}
use kis_api_trend_atr.Resync.Database.{has_text}
use kis_api_trend_atr.Executor.PendingExit.{
  Parsed, malformed, aware, IsoTimes, ExitSignal, ExitControl, ExitCall, OrderResult, execute_exit,
  load_control, should_attempt_exit_order, is_market_unavailable_error,
}
use kis_api_trend_atr.Executor.PendingExit.Backoff.{
  IsReadBack, run_exits, all_skipped, restart_holds_back,
}
use kis_api_trend_atr.Executor.Entry.{open_entry, set_reconcile_entry_block}
use kis_api_trend_atr.Executor.Entry.Blocked.{Call, controls, retries, run, entries_stay_blocked}

-- an instant as so many strokes
strokes : ℕ → Text
strokes zero = []
strokes (suc n) = 124 ∷ strokes n

count-strokes : (n : ℕ) → length (strokes n) ≡ n
unfolding strokes
count-strokes zero = refl
count-strokes (suc n) = omega (arith, count-strokes n)

read_strokes : Text → Parsed
read_strokes [] = malformed
read_strokes (c ∷ s) = aware (length s)

tally : IsoTimes
unfolding strokes read_strokes
tally = record { isoformat = λ t. 90 ∷ strokes t; fromisoformat = read_strokes }

tally-IsReadBack : IsReadBack tally
unfolding tally
tally-IsReadBack = record { printed = λ t. refl; read_back = λ t. ap aware (count-strokes t) }

abbrev samsung : Text
samsung = codes "005930"

abbrev stop : ExitSignal
stop = record { exit_reason = some (codes "STOP_LOSS"); reason_code = [] }

abbrev control : ExitControl ℤ
control = record {
  stock_code = samsung;
  backoff_minutes = pos 5;
  max_age_hours = 72;
  pending = none;
  store = record { file = absent; writable = true };
  notices = [];
}

abbrev closed : OrderResult
closed = record { success = false; message = codes "Market closed" }

abbrev refuses : ExitSignal → ExitControl ℤ → ExitControl ℤ × OrderResult
refuses signal x = (x, closed)

abbrev at : ℕ → ExitCall
at now = record { signal = stop; now = now; failed_at = now; tradeable = true; market_reason = [] }

restart_holds_back_example :
    let y = load_control tally 2000 (execute_exit tally refuses (at 1000) control).0 in
    run_exits tally refuses (at 3000 ∷ at 4000 ∷ []) y
    ≡ (y, all_skipped tally refuses (1000 + 300000000) (at 3000 ∷ at 4000 ∷ []))
unfolding should_attempt_exit_order is_market_unavailable_error has_text lower
restart_holds_back_example =
    restart_holds_back tally refuses tally-IsReadBack (at 1000) control control control
      (codes "no_pending_exit") closed 2000 (at 3000 ∷ at 4000 ∷ []) refl refl refl refl refl
      (omega arith) ((refl, omega arith), ((refl, omega arith), tt))

abbrev paper : Resynchronizer ℤ ℕ
paper = record {
  trading_mode = codes "paper";
  target_symbol = samsung;
  db_repository = none;
  round2 = λ x. x;
}

abbrev clock : Clock
clock = record {
  now = record { date_text = codes "2025-03-10"; time_text = codes "09:10:00"; day = 739320 };
  iso = codes "t1";
  instant = 5;
}

abbrev system : System ℤ ℕ ℕ
system = record {
  store = record { file = absent; writable = true };
  database = record { db = 0; sync_disabled = false };
  holdings_cache = none;
  db_sync_applied = false;
}

abbrev calls : List Call
calls = controls true [] ∷ retries clock api_raised ∷ retries clock (got_balance false none) ∷ []

entries_stay_blocked_example :
    let (s', c') =
      run paper calls (system, set_reconcile_entry_block (codes "API_FAILED") open_entry) in
    (c'.allowed ≡ false)
    × (c'.is_sticky ≡ true)
    × (s'.store ≡ system.store)
    × (s'.database ≡ system.database)
unfolding is_account_sync_mode upper strip text_beq fetch_ssot_holdings
entries_stay_blocked_example =
    entries_stay_blocked paper refl (codes "API_FAILED") calls system open_entry refl
      (tt, (refl, (refl, tt)))
