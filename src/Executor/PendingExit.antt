-- ===== src/Executor/PendingExit.antt =====
-- The pending exit of MultidayExecutor (kis_trend_atr_trading/engine/multiday_executor.py): an exit order
-- that failed because the market is closed is tried again after a while, also after a restart. It is
-- kept in the file of the position (utils/position_store.py). Log lines are left out, and of the
-- messages it is kept which was sent. What `execute_sell` does is an argument, any function.
pub mod Backoff
use kis_api_trend_atr.Base.{
  ℕ, ◌+◌, ◌*◌, ◌++◌, ◌||◌, ◌&&◌, not, Bool, true, false, Option, none, some, List, [], ◌∷◌,
  if◌then◌else◌, ltb, is_some,
}
use kis_api_trend_atr.Base.Eq.{◌==◌}
use kis_api_trend_atr.Base.Int.{ℤ, at_least}
use kis_api_trend_atr.Base.Text.{Text, codes, lower, zfill, text_keyed}
use kis_api_trend_atr.Trading.{is_blank}
use kis_api_trend_atr.Saved.{
  PositionStore, save_pending_exit, load_pending_exit, clear_pending_exit,
}
use kis_api_trend_atr.Resync.Database.{has_text}

-- what `datetime.fromisoformat` reads: an instant, or one of the market's local time
pub data Parsed : Type 0 where
  malformed : Parsed
  aware local : ℕ → Parsed

-- Python's `isoformat` of an instant in microseconds, and `fromisoformat`
pub record IsoTimes : Type 0 where
  pub isoformat : ℕ → Text
  pub fromisoformat : Text → Parsed

-- a dict of texts; an empty one stands for a missing key too
pub record PendingExit : Type 0 where
  pub status : Text
  pub stock_code : Text
  pub retry_key : Text
  pub exit_reason : Text
  pub reason_code : Text
  pub next_retry_at : Text
  pub last_error : Text
  pub updated_at : Text

pub record ExitSignal : Type 0 where
  pub exit_reason : Option Text
  pub reason_code : Text

pub data Notice : Type 0 where
  exit_pending exit_released : Notice

pub record ExitControl (A : Type 0) : Type 0 where
  pub stock_code : Text
  pub backoff_minutes : ℤ
  pub max_age_hours : ℕ
  pub pending : Option PendingExit
  pub store : PositionStore A PendingExit
  pub notices : List Notice

pub data Decision : Type 0 where
  attempt skip : Text → Decision
  -- an instant is compared with a local time
  decision_raised : Decision

pub record OrderResult : Type 0 where
  pub success : Bool
  pub message : Text

pub data ExitResult : Type 0 where
  skipped : Text → ExitResult
  exit_raised : ExitResult
  ordered : OrderResult → ExitResult

-- one exit: the time of the decision, that of a failure, and what the market's checker says
pub record ExitCall : Type 0 where
  pub signal : ExitSignal
  pub now : ℕ
  pub failed_at : ℕ
  pub tradeable : Bool
  pub market_reason : Text

abbrev or_else : Text → Text → Text
or_else default s = if is_blank s then default else s

abbrev pub reason_of : ExitSignal → Text
reason_of signal = elim signal.exit_reason [ none ↦ codes "MANUAL_EXIT" | some reason ↦ reason ]

unfoldable pub build_exit_retry_key : Text → ExitSignal → Text
build_exit_retry_key stock_code signal =
    stock_code
    ++ codes ":"
    ++ reason_of signal
    ++ codes ":"
    ++ or_else (codes "NO_REASON_CODE") signal.reason_code

has_any : Text → List Text → Bool
has_any message [] = false
has_any message (keyword ∷ keywords) = has_text keyword message || has_any message keywords

unfoldable pub is_market_unavailable_error : Text → Bool
unfolding has_any
is_market_unavailable_error message = has_any (lower message) (
    codes "장종료"
    ∷ codes "장 종료"
    ∷ codes "장마감"
    ∷ codes "폐장"
    ∷ codes "주문불가"
    ∷ codes "주문 불가"
    ∷ codes "market closed"
    ∷ codes "market is closed"
    ∷ [])

module _ (iso : IsoTimes) where
  parsed_instant : Parsed → Option ℕ
  parsed_instant malformed = none
  parsed_instant (aware t) = some t
  parsed_instant (local t) = some t

  parse_iso_datetime : Text → Option ℕ
  unfolding parsed_instant
  parse_iso_datetime raw = if is_blank raw then none else parsed_instant (iso.fromisoformat raw)

is_first : Option PendingExit → Text → Bool
is_first none retry_key = true
is_first (some p) retry_key = not (p.status == codes "pending") || not (p.retry_key == retry_key)

module _ {A : Type 0} (iso : IsoTimes) where
  abbrev pub backoff : ExitControl A → ℕ
  backoff x = at_least 1 x.backoff_minutes * 60000000

  abbrev pub max_age : ExitControl A → ℕ
  max_age x = x.max_age_hours * 3600000000

  -- whether `_sanitize_loaded_pending_exit` keeps what was loaded
  is_usable : ℕ → ExitControl A → PendingExit → Bool
  unfolding parse_iso_datetime
  is_usable now x p =
      if not (zfill 6 p.stock_code == zfill 6 x.stock_code)
      then false
      else if not (is_blank p.next_retry_at)
          && not (is_some (parse_iso_datetime iso p.next_retry_at))
      then false
      else elim (parse_iso_datetime iso (or_else p.next_retry_at p.updated_at)) [
        | none ↦ false
        | some updated ↦ not (ltb (updated + max_age x) now)
      ]

  sanitize : ℕ → ExitControl A → Option PendingExit → ExitControl A
  unfolding is_usable
  sanitize now x none = record x { pending = none }
  sanitize now x (some p) =
      if is_usable now x p
      then record x { pending = some p }
      else record x { pending = none; store = (clear_pending_exit x.store).0 }

  -- `__init__` after a restart: the pending exit is that of the file, if it is of use
  unfoldable pub load_control : ℕ → ExitControl A → ExitControl A
  unfolding sanitize
  load_control now x = sanitize now (record x { notices = [] }) (load_pending_exit x.store)

  dropped : ExitControl A → Option PendingExit → ExitControl A
  dropped x none = x
  dropped x (some p) = record x { pending = none; store = (clear_pending_exit x.store).0 }

  -- `_drop_pending_exit_state`, which sends no message
  unfoldable pub drop_pending_exit_state : ExitControl A → ExitControl A
  unfolding dropped
  drop_pending_exit_state x = dropped x x.pending

  cleared : ExitControl A → Option PendingExit → ExitControl A
  cleared x none = x
  cleared x (some p) = record x {
    pending = none;
    store = (clear_pending_exit x.store).0;
    notices = x.notices ++ (exit_released ∷ []);
  }

  unfoldable pub clear_pending : ExitControl A → ExitControl A
  unfolding cleared
  clear_pending x = cleared x x.pending

  abbrev pub pending_for : ExitControl A → ExitSignal → Text → ℕ → PendingExit
  pending_for x signal error_message now = record {
    status = codes "pending";
    stock_code = x.stock_code;
    retry_key = build_exit_retry_key x.stock_code signal;
    exit_reason = reason_of signal;
    reason_code = signal.reason_code;
    next_retry_at = iso.isoformat (now + backoff x);
    last_error = error_message;
    updated_at = iso.isoformat now;
  }

  unfoldable pub activate_pending_exit : ExitSignal → Text → ℕ → ExitControl A → ExitControl A
  unfolding is_first
  activate_pending_exit signal error_message now x =
      let p = pending_for x signal error_message now in
      record x {
        pending = some p;
        store = (save_pending_exit (some p) x.store).0;
        notices =
            if is_first x.pending p.retry_key then x.notices ++ (exit_pending ∷ []) else x.notices;
      }

  -- the next try is put off: the market is closed
  put_off : ExitCall → ExitControl A → PendingExit → ExitControl A
  put_off e x p =
      let p' = record p {
        next_retry_at = iso.isoformat (e.now + backoff x);
        updated_at = iso.isoformat e.now;
      } in
      record x { pending = some p'; store = (save_pending_exit (some p') x.store).0 }

  -- from the look at the market on
  ask_market : ExitCall → ExitControl A → PendingExit → ExitControl A × Decision
  unfolding put_off
  ask_market e x p =
      if e.tradeable
      then (x, attempt (codes "retry_due"))
      else (put_off e x p, skip (codes "market_unavailable=" ++ e.market_reason))

  -- by the time of the next try
  decide_at : ExitCall → ExitControl A → PendingExit → Parsed → ExitControl A × Decision
  unfolding ask_market
  decide_at e x p malformed = ask_market e x p
  decide_at e x p (local t) = (x, decision_raised)
  decide_at e x p (aware t) =
      let due = ask_market e x p in
      if ltb e.now t then (x, skip (codes "backoff_until=" ++ iso.isoformat t)) else due

  decide : ExitCall → ExitControl A → Option PendingExit → ExitControl A × Decision
  unfolding decide_at
  decide e x none = (x, attempt (codes "no_pending_exit"))
  decide e x (some p) =
      let next_retry =
        if is_blank p.next_retry_at then malformed else iso.fromisoformat p.next_retry_at in
      let at_time = decide_at e x p next_retry in
      if p.retry_key == build_exit_retry_key x.stock_code e.signal
      then at_time
      else (clear_pending x, attempt (codes "reason_changed"))

  unfoldable pub should_attempt_exit_order : ExitCall → ExitControl A → ExitControl A × Decision
  unfolding decide
  should_attempt_exit_order e x = decide e x x.pending

  -- after the order, or its failure
  after_order : ExitCall → ExitControl A × OrderResult → ExitControl A × ExitResult
  after_order e (x, r) =
      if r.success
      then (clear_pending x, ordered r)
      else if is_market_unavailable_error r.message
      then (activate_pending_exit e.signal r.message e.failed_at x, ordered r)
      else (x, ordered r)

  by_decision :
      (ExitSignal → ExitControl A → ExitControl A × OrderResult)
      → ExitCall
      → ExitControl A × Decision
      → ExitControl A × ExitResult
  unfolding after_order
  by_decision sell e (x, attempt reason) = after_order e (sell e.signal x)
  by_decision sell e (x, skip reason) = (x, skipped reason)
  by_decision sell e (x, decision_raised) = (x, exit_raised)

  -- `_execute_exit_with_pending_control`
  unfoldable pub execute_exit :
      (ExitSignal → ExitControl A → ExitControl A × OrderResult)
      → ExitCall
      → ExitControl A
      → ExitControl A × ExitResult
  unfolding by_decision
  execute_exit sell e x = by_decision sell e (should_attempt_exit_order e x)
