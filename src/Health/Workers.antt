-- ===== src/Health/Workers.antt =====
-- What the health of a worker can be after its reports.
use kis_api_trend_atr.Base.{
  ℕ, ◌+◌, ◌≤◌, ◌<◌, ◌≡◌, refl, ◌≢◌, ◌↔◌, true, none, some, [], ◌∷◌, arith, is_some,
}
use kis_api_trend_atr.Base.Floats.{Floats}
use kis_api_trend_atr.Base.Dict.{lookup}
use kis_api_trend_atr.Base.Text.{Text, text_keyed}
use kis_api_trend_atr.Health.{
  degraded, stalled, stopped, WorkerHealthSnapshot, Update, Store, is_error, limit_of, lag_of,
  evaluate_worker, evaluate, updated,
}

module _ {A : Type 0} where
  -- An evaluation calls a worker stalled exactly when it is not stopped and its last heartbeat is
  -- further back than its limit (of one second at least); it never starts or ends STOPPED, and of
  -- the snapshot it changes the state, the reason and the lag alone.
  pub evaluate_worker_iff :
      (s : WorkerHealthSnapshot A) (now : ℕ)
      → let s' = evaluate_worker s now in
        ((s'.state ≡ stalled) ↔ ((s.state ≢ stopped) × (limit_of s < lag_of s now)))
        × ((s'.state ≡ stopped) ↔ (s.state ≡ stopped))
        × (s' ≡ record s { state = s'.state; state_reason = s'.state_reason; lag = s'.lag })
  unfolding evaluate_worker
  evaluate_worker_iff s now = (ground arith, ground arith, refl)

  -- The dictionary after an evaluation: each worker's own judgement.
  pub lookup-evaluate :
      (d : Store A) (name : Text) (now : ℕ)
      → lookup name (evaluate d now)
        ≡ elim (lookup name d) [ none ↦ none | some s ↦ some (evaluate_worker s now) ]
  unfolding lookup evaluate
  lookup-evaluate [] name now = refl
  lookup-evaluate ((k, s) ∷ d) name now = ground (arith, lookup-evaluate d name now)

module _ {A : Type 0} ⦃f : Floats A⦄ where
  -- An error was recorded.
  abbrev pub HasError : WorkerHealthSnapshot A → Type 0
  HasError s = (is_error s.last_error ≡ true) × (is_some s.last_error_at ≡ true)

  -- A recorded error is never cleared: after any report, a success included, an evaluation within
  -- the worker's limit finds it DEGRADED, unless the report left it STALLED or STOPPED.
  pub error_sticks :
      (s : WorkerHealthSnapshot A) (now later : ℕ) (u : Update A)
      → HasError s
      → later ≤ now + limit_of s
      → (updated s now u).state ≢ stopped
      → (updated s now u).state ≢ stalled
      → (evaluate_worker (updated s now u) later).state ≡ degraded
  unfolding updated evaluate_worker
  error_sticks s now later u h soon live awake = ground arith
