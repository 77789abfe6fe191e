-- ===== src/Executor/PendingExit/Backoff.antt =====
-- Exits while one waits for another try (kis_trend_atr_trading/engine/multiday_executor.py).
use kis_api_trend_atr.Base.{
  ℕ, ◌+◌, ◌≤◌, ◌<◌, ◌≡◌, refl, true, false, some, List, [], ◌∷◌, ◌++◌, ltb, arith, All,
}
use kis_api_trend_atr.Base.Text.{Text, codes, zfill, text_keyed, text_beq, text_beq_iff}
use kis_api_trend_atr.Trading.{is_blank}
use kis_api_trend_atr.Saved.Restart.{load-save_pending_exit}
use kis_api_trend_atr.Executor.PendingExit.{
  aware, IsoTimes, PendingExit, ExitSignal, ExitControl, ExitCall, OrderResult, ExitResult, skipped,
  attempt, should_attempt_exit_order, execute_exit, activate_pending_exit, load_control, backoff,
  max_age, pending_for, build_exit_retry_key, is_market_unavailable_error, decide_at, is_usable,
  parse_iso_datetime, after_order, by_decision, ordered, sanitize, decide,
}

-- What is printed is not empty, and is read back as the same instant.
pub record IsReadBack (iso : IsoTimes) : Type 0 where
  pub printed : (t : ℕ) → is_blank (iso.isoformat t) ≡ false
  pub read_back : (t : ℕ) → iso.fromisoformat (iso.isoformat t) ≡ aware t

-- exits of the signal before an instant
abbrev pub AllBefore : ExitSignal → ℕ → List ExitCall → Type 0
AllBefore signal due calls = All (λ (e : ExitCall). (e.signal ≡ signal) × (e.now < due)) calls

same_text : (s : Text) → text_beq s s ≡ true
same_text s = (text_beq_iff s s).1 refl

module _ {A : Type 0} (iso : IsoTimes)
    (sell : ExitSignal → ExitControl A → ExitControl A × OrderResult) where
  -- exits one after another, with what each gave
  pub run_exits : List ExitCall → ExitControl A → ExitControl A × List ExitResult
  run_exits [] x = (x, [])
  run_exits (e ∷ calls) x =
      let (x', result) = execute_exit iso sell e x in
      let (end, results) = run_exits calls x' in (end, result ∷ results)

  abbrev pub all_skipped : ℕ → List ExitCall → List ExitResult
  all_skipped due [] = []
  all_skipped due (e ∷ calls) =
      skipped (codes "backoff_until=" ++ iso.isoformat due) ∷ all_skipped due calls

module _ {A : Type 0} (iso : IsoTimes)
    (sell : ExitSignal → ExitControl A → ExitControl A × OrderResult) (read : IsReadBack iso) where
  skip-until :
      (x : ExitControl A) (p : PendingExit) (signal : ExitSignal) (e : ExitCall) (due : ℕ)
      → x.pending ≡ some p
      → p.retry_key ≡ build_exit_retry_key x.stock_code signal
      → p.next_retry_at ≡ iso.isoformat due
      → e.signal ≡ signal
      → e.now < due
      → execute_exit iso sell e x ≡ (x, skipped (codes "backoff_until=" ++ iso.isoformat due))
  unfolding execute_exit should_attempt_exit_order decide decide_at by_decision
  skip-until x p signal e due waits key next same early =
      let first : ltb e.now due ≡ true = ground arith in
      rw waits (
        rw key (
          rw same (
            rw (same_text (build_exit_retry_key x.stock_code signal))
              (rw next (rw (read.printed due) (rw (read.read_back due) (rw first refl)))))))

  skips-until :
      (x : ExitControl A) (p : PendingExit) (signal : ExitSignal) (due : ℕ) (calls : List ExitCall)
      → x.pending ≡ some p
      → p.retry_key ≡ build_exit_retry_key x.stock_code signal
      → p.next_retry_at ≡ iso.isoformat due
      → AllBefore signal due calls
      → run_exits iso sell calls x ≡ (x, all_skipped iso sell due calls)
  unfolding run_exits
  skips-until x p signal due [] waits key next early = refl
  skips-until x p signal due (e ∷ calls) waits key next ((same, first), early) =
      rw (skip-until x p signal e due waits key next same first)
        (rw (skips-until x p signal due calls waits key next early) refl)

  usable :
      (x : ExitControl A) (signal : ExitSignal) (message : Text) (failed_at later : ℕ)
      → later ≤ failed_at + max_age iso x
      → is_usable iso later x (pending_for iso x signal message failed_at) ≡ true
  unfolding is_usable parse_iso_datetime
  usable x signal message failed_at later young =
      let in_time : ltb (failed_at + max_age iso x) later ≡ false = ground arith in
      rw (same_text (zfill 6 x.stock_code)) (
        rw (read.printed (failed_at + backoff iso x)) (
          rw (read.read_back (failed_at + backoff iso x)) (
            rw (read.printed failed_at)
              (rw (read.printed failed_at) (rw (read.read_back failed_at) (rw in_time refl))))))

  failed_order :
      (e : ExitCall) (x x0 x1 : ExitControl A) (reason : Text) (r : OrderResult)
      → should_attempt_exit_order iso e x ≡ (x0, attempt reason)
      → sell e.signal x0 ≡ (x1, r)
      → r.success ≡ false
      → is_market_unavailable_error r.message ≡ true
      → execute_exit iso sell e x
        ≡ (activate_pending_exit iso e.signal r.message e.failed_at x1, ordered r)
  unfolding execute_exit by_decision after_order
  failed_order e x x0 x1 reason r tried sold failed closed =
      rw tried (rw sold (rw failed (rw closed refl)))

  restarted :
      (x : ExitControl A) (signal : ExitSignal) (message : Text) (failed_at later : ℕ)
      → x.store.writable ≡ true
      → later ≤ failed_at + max_age iso x
      → load_control iso later (activate_pending_exit iso signal message failed_at x)
        ≡ record (activate_pending_exit iso signal message failed_at x) { notices = [] }
  unfolding load_control activate_pending_exit sanitize
  restarted x signal message failed_at later w young =
      rw (load-save_pending_exit (pending_for iso x signal message failed_at) x.store w)
        (rw (usable x signal message failed_at later young) refl)

  -- After an exit order that failed because the market is closed and a restart after it, exits of the
  -- same signal send no order before the backoff is over: where the file can be written and the restart
  -- comes within the highest age of a pending exit, each of them is skipped and changes nothing.
  pub restart_holds_back :
      (e : ExitCall) (x x0 x1 : ExitControl A) (reason : Text) (r : OrderResult) (later : ℕ)
      (calls : List ExitCall)
      → should_attempt_exit_order iso e x ≡ (x0, attempt reason)
      → sell e.signal x0 ≡ (x1, r)
      → r.success ≡ false
      → is_market_unavailable_error r.message ≡ true
      → x1.store.writable ≡ true
      → later ≤ e.failed_at + max_age iso x1
      → AllBefore e.signal (e.failed_at + backoff iso x1) calls
      → let y = load_control iso later (execute_exit iso sell e x).0 in
        run_exits iso sell calls y ≡ (y, all_skipped iso sell (e.failed_at + backoff iso x1) calls)
  unfolding activate_pending_exit
  restart_holds_back e x x0 x1 reason r later calls tried sold failed closed w young early =
      rw (failed_order e x x0 x1 reason r tried sold failed closed) (
        rw (restarted x1 e.signal r.message e.failed_at later w young) (
          skips-until
            (record (activate_pending_exit iso e.signal r.message e.failed_at x1) { notices = [] })
            (pending_for iso x1 e.signal r.message e.failed_at) e.signal
            (e.failed_at + backoff iso x1) calls refl refl refl early))
