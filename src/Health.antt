-- ===== src/Health.antt =====
-- `WorkerHealthStore` and `DegradedModeController` of
-- kis_trend_atr_trading/engine/strategy_pipeline_health.py. Times, and the seconds of
-- `stall_after_sec`, `lag_sec` and `min_hold_sec`, are whole numbers of microseconds. The clock's
-- reading is an argument.
pub mod Workers
pub mod Degraded
use kis_api_trend_atr.Base.{
  ℕ, ◌+◌, ◌-◌, ◌*◌, Bool, true, false, not, ◌&&◌, ◌||◌, Option, none, some, List, [], ◌∷◌, map, max,
  if◌then◌else◌, ltb, leb, eqb, is_some,
}
use kis_api_trend_atr.Base.Eq.{◌==◌}
use kis_api_trend_atr.Base.Int.{ℤ, at_least}
use kis_api_trend_atr.Base.Floats.{Floats}
use kis_api_trend_atr.Base.Dict.{Dict, lookup, insert}
use kis_api_trend_atr.Base.Text.{Text, codes, strip, text_keyed}

pub data WorkerState : Type 0 where
  healthy degraded stalled stopped : WorkerState

abbrev pub is_stalled : WorkerState → Bool
is_stalled stalled = true
is_stalled _ = false

abbrev pub is_stopped : WorkerState → Bool
is_stopped stopped = true
is_stopped _ = false

-- `state_reason`; a stall's text holds the limit
pub data Reason : Type 0 where
  no_reason heartbeat_recovered recovered ok stopped_reason worker_error : Reason
  last_error_present disabled : Reason
  stall_lag : ℕ → Reason
  other : Text → Reason

abbrev pub is_empty : Reason → Bool
is_empty no_reason = true
is_empty (other []) = true
is_empty _ = false

abbrev reason_or : Reason → Reason → Reason
reason_or r d = if is_empty r then d else r

-- the empty text is no error
abbrev pub is_error : Text → Bool
is_error [] = false
is_error (c ∷ s) = true

pub record WorkerHealthSnapshot (A : Type 0) : Type 0 where
  pub worker_name : Text
  pub state : WorkerState
  pub state_reason : Reason
  pub last_heartbeat_at : Option ℕ
  pub last_success_at : Option ℕ
  pub last_error_at : Option ℕ
  pub last_error : Text
  pub processed_count : ℕ
  pub dropped_count : ℕ
  pub avg_eval_ms : A
  pub queue_depth_seen : ℤ
  pub lag : ℕ
  pub stall_after : ℕ

-- one second
abbrev pub second : ℕ
second = 1000000

-- The optional arguments of `_update_locked`.
pub record Update (A : Type 0) : Type 0 where
  pub state : Option WorkerState
  pub state_reason : Option Reason
  pub queue_depth : Option ℤ
  pub processed_delta : ℤ
  pub dropped_delta : ℤ
  pub avg_eval_ms : Option A
  pub success : Bool
  pub error : Text

abbrev pub Store : Type 0 → Type 0
Store A = Dict Text (WorkerHealthSnapshot A)

module _ {A : Type 0} ⦃f : Floats A⦄ where
  abbrev pub fresh : Text → ℕ → ℕ → WorkerHealthSnapshot A
  fresh name now stall_after = record {
    worker_name = strip name;
    state = healthy;
    state_reason = no_reason;
    last_heartbeat_at = some now;
    last_success_at = none;
    last_error_at = none;
    last_error = [];
    processed_count = 0;
    dropped_count = 0;
    avg_eval_ms = f.of_nat 0;
    queue_depth_seen = ℤ.pos 0;
    lag = 0;
    stall_after = stall_after;
  }

  pub ensure_worker : Store A → Text → ℤ → ℕ → Store A
  ensure_worker d name stall_after now =
      let limit = at_least second stall_after in
      elim (lookup name d) [
        | some current ↦ insert name (record current { stall_after = limit }) d
        | none ↦ insert name (fresh name now limit) d
      ]

  -- `max(sample, 0.0)`: Python's `max` keeps its first argument unless the second is greater
  abbrev float_max : A → A → A
  float_max a b = if f.lt a b then b else a

  running_average : A → ℕ → A → ℤ → A
  running_average average prior_count sample processed_delta =
      let weight = at_least 1 processed_delta in
      f.div
        (f.add (f.mul average (f.of_nat prior_count))
          (f.mul (float_max sample (f.of_nat 0)) (f.of_nat weight)))
        (f.of_nat (max (prior_count + weight) 1))

  -- the new snapshot of `_update_locked`
  unfoldable pub updated : WorkerHealthSnapshot A → ℕ → Update A → WorkerHealthSnapshot A
  unfolding running_average
  updated current now u = record current {
    state = elim u.state [ none ↦ current.state | some s ↦ s ];
    state_reason = elim u.state_reason [ none ↦ current.state_reason | some r ↦ r ];
    last_heartbeat_at = some now;
    last_success_at = if u.success then some now else current.last_success_at;
    last_error_at = if is_error u.error then some now else current.last_error_at;
    last_error = if is_error u.error then u.error else current.last_error;
    processed_count = current.processed_count + at_least 0 u.processed_delta;
    dropped_count = current.dropped_count + at_least 0 u.dropped_delta;
    avg_eval_ms = elim u.avg_eval_ms [
      | none ↦ current.avg_eval_ms
      | some sample ↦
          running_average current.avg_eval_ms current.processed_count sample u.processed_delta
    ];
    queue_depth_seen = elim u.queue_depth [ none ↦ current.queue_depth_seen | some n ↦ n ];
  }

  -- `_update_locked`
  pub update_worker : Store A → Text → ℕ → Update A → Store A
  unfolding updated
  update_worker d name now u =
      let current : WorkerHealthSnapshot A = elim (lookup name d) [
        | none ↦ fresh name now (20 * second)
        | some s ↦ s
      ] in
      insert name (updated current now u) d

  pub heartbeat : Store A → Text → ℕ → Option ℤ → ℤ → ℤ → Option A → Option Reason → Store A
  heartbeat d name now queue_depth processed_delta dropped_delta avg_eval_ms state_reason =
      let was_stalled : Bool = elim (lookup name d) [
        | none ↦ false
        | some s ↦ is_stalled s.state
      ] in
      update_worker d name now (record {
        state = if was_stalled then some healthy else none;
        state_reason =
            if was_stalled && not (is_some state_reason)
            then some heartbeat_recovered
            else state_reason;
        queue_depth = queue_depth;
        processed_delta = processed_delta;
        dropped_delta = dropped_delta;
        avg_eval_ms = avg_eval_ms;
        success = false;
        error = [];
      })

  pub mark_success : Store A → Text → ℕ → Option ℤ → ℤ → Option A → Reason → Store A
  mark_success d name now queue_depth processed_delta avg_eval_ms state_reason =
      update_worker d name now (record {
        state = some healthy;
        state_reason = some state_reason;
        queue_depth = queue_depth;
        processed_delta = processed_delta;
        dropped_delta = ℤ.pos 0;
        avg_eval_ms = avg_eval_ms;
        success = true;
        error = [];
      })

  abbrev only_state : WorkerState → Reason → Text → Update A
  only_state state reason error = record {
    state = some state;
    state_reason = some reason;
    queue_depth = none;
    processed_delta = ℤ.pos 0;
    dropped_delta = ℤ.pos 0;
    avg_eval_ms = none;
    success = false;
    error = error;
  }

  pub mark_error : Store A → Text → Text → ℕ → Reason → Store A
  mark_error d name error now reason = update_worker d name now (only_state degraded reason error)

  pub mark_stopped : Store A → Text → ℕ → Reason → Store A
  mark_stopped d name now reason = update_worker d name now (only_state stopped reason [])

module _ {A : Type 0} where
  abbrev pub limit_of : WorkerHealthSnapshot A → ℕ
  limit_of s = max s.stall_after second

  -- a clock that went back counts as no lag
  abbrev pub lag_of : WorkerHealthSnapshot A → ℕ → ℕ
  lag_of s now = elim s.last_heartbeat_at [ none ↦ 0 | some t ↦ now - t ]

  -- the state and reason that `evaluate` gives to one worker
  pub judge : WorkerHealthSnapshot A → ℕ → WorkerState × Reason
  judge s now =
      if is_stopped s.state
      then (s.state, s.state_reason)
      else if ltb (limit_of s) (lag_of s now)
      then (stalled, stall_lag s.stall_after)
      else if is_stalled s.state
      then (healthy, recovered)
      else if is_error s.last_error && is_some s.last_error_at
      then (degraded, reason_or s.state_reason last_error_present)
      else (healthy, reason_or s.state_reason ok)

  pub evaluate_worker : WorkerHealthSnapshot A → ℕ → WorkerHealthSnapshot A
  unfolding judge
  evaluate_worker s now =
      let (state, reason) = judge s now in
      record s { state = state; state_reason = reason; lag = lag_of s now }

  -- the loop of `evaluate`, over every worker
  pub evaluate : Store A → ℕ → Store A
  evaluate [] now = []
  evaluate ((name, s) ∷ d) now = (name, evaluate_worker s now) ∷ evaluate d now
