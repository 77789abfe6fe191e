-- ===== src/Scheduler/Runs.antt =====
-- Runs of calls of `SymbolEvaluationScheduler` (kis_trend_atr_trading/engine/evaluation_scheduler.py): a
-- quote is not forgotten, and an evaluation is not repeated too soon.
use kis_api_trend_atr.Base.{
  ℕ, ◌+◌, ◌≤◌, ◌<◌, ◌≡◌, ◌∙◌, refl, Bool, true, false, Option, some, List, [], ◌∷◌, arith, All,
}
use kis_api_trend_atr.Base.Eq.{◌==◌}
use kis_api_trend_atr.Base.Text.{Text, zfill, text_keyed, text_beq_iff}
use kis_api_trend_atr.Scheduler.{
  EvaluationSchedulerConfig, SymbolEvaluationState, States, state_of, cooldown_of, debounce_of,
  is_cool, due_evaluations, mark_quote_event, mark_force, mark_evaluated, noted_quote, forced,
  evaluated,
}
use kis_api_trend_atr.Scheduler.Due.{is_listed, is_due, is_ripe, is_due_iff, state_of-with_state}

pub data Op : Type 0 where
  quote : Text → ℕ → Option ℕ → Op
  force : Text → Text → Op
  ask : (Text → Bool) → ℕ → Bool → List Text → Op
  done : Text → ℕ → ℕ → Text → Op

-- the call ends an evaluation of the code
abbrev pub evaluates : Text → Op → Bool
evaluates code (done symbol at now reason) = zfill 6 symbol == code
evaluates code _ = false

module _ (config : EvaluationSchedulerConfig) where
  unfoldable pub perform : Op → States → States
  perform (quote symbol event received) m = mark_quote_event symbol event received m
  perform (force symbol reason) m = mark_force symbol reason m
  perform (ask has_position now ws symbols) m =
      (due_evaluations config has_position now ws symbols m).0
  perform (done symbol at now reason) m = (mark_evaluated symbol at now reason m).0

  unfoldable pub run : List Op → States → States
  run [] m = m
  run (o ∷ ops) m = run ops (perform o m)

  last_kept :
      (code : Text) (o : Op) (m : States)
      → evaluates code o ≡ false
      → (state_of code (perform o m)).last_eval_monotonic ≡ (state_of code m).last_eval_monotonic
  unfolding perform mark_quote_event mark_force mark_evaluated noted_quote forced
  last_kept code (quote symbol event received) m h =
      ground (arith, state_of-with_state code symbol (noted_quote event received) m)
  last_kept code (force symbol reason) m h =
      ground (arith, state_of-with_state code symbol (forced reason) m)
  last_kept code (ask has_position now ws symbols) m h =
      ground (arith, (is_due_iff config code has_position now ws symbols m).1)
  last_kept code (done symbol at now reason) m h =
      ground (arith, state_of-with_state code symbol (evaluated at now reason) m)

  -- a quote waits since a time
  Waits : ℕ → SymbolEvaluationState → Type 0
  Waits event s = (s.dirty ≡ true) × (s.dirty_since_monotonic ≡ some event)

  Waits-kept :
      (code : Text) (event : ℕ) (o : Op) (m : States)
      → evaluates code o ≡ false
      → Waits event (state_of code m)
      → Waits event (state_of code (perform o m))
  unfolding perform mark_quote_event mark_force mark_evaluated noted_quote forced Waits
  Waits-kept code event (quote symbol e received) m h w =
      ground (arith, w, state_of-with_state code symbol (noted_quote e received) m)
  Waits-kept code event (force symbol reason) m h w =
      ground (arith, w, state_of-with_state code symbol (forced reason) m)
  Waits-kept code event (ask has_position now ws symbols) m h w =
      ground (arith, w, (is_due_iff config code has_position now ws symbols m).1)
  Waits-kept code event (done symbol at now reason) m h w =
      ground (arith, w, state_of-with_state code symbol (evaluated at now reason) m)

  run-last_kept :
      (code : Text) (ops : List Op) (m : States)
      → All (λ o. evaluates code o ≡ false) ops
      → (state_of code (run ops m)).last_eval_monotonic ≡ (state_of code m).last_eval_monotonic
  unfolding run
  run-last_kept code [] m h = refl
  run-last_kept code (o ∷ ops) m h =
      run-last_kept code ops (perform o m) h.1 ∙ last_kept code o m h.0

  run-Waits :
      (code : Text) (event : ℕ) (ops : List Op) (m : States)
      → All (λ o. evaluates code o ≡ false) ops
      → Waits event (state_of code m)
      → Waits event (state_of code (run ops m))
  unfolding run
  run-Waits code event [] m h w = w
  run-Waits code event (o ∷ ops) m h w =
      run-Waits code event ops (perform o m) h.1 (Waits-kept code event o m h.0 w)

  -- A quote is not forgotten: after the first quote since a symbol's last evaluation, and whatever
  -- quotes, forces, questions and evaluations of other symbols follow, the symbol is listed each time
  -- it is asked about once its debounce has passed since that quote and its cooldown is over.
  pub quote_is_due :
      (symbol : Text) (event : ℕ) (received : Option ℕ) (m : States) (ops : List Op)
      (has_position : Text → Bool) (now : ℕ) (ws : Bool) (symbols : List Text)
      → let code = zfill 6 symbol in
        (state_of code m).dirty ≡ false
        → All (λ o. evaluates code o ≡ false) ops
        → is_listed code symbols ≡ true
        → event + debounce_of config (has_position code) ≤ now
        → is_cool config (has_position code) now (state_of code m) ≡ true
        → is_due code
            (due_evaluations config has_position now ws symbols
              (run ops (mark_quote_event symbol event received m))).1
          ≡ true
  unfolding Waits is_ripe is_cool mark_quote_event noted_quote
  quote_is_due symbol event received m ops has_position now ws symbols clean others listed waited
        cool =
      let code = zfill 6 symbol in
      let m1 = mark_quote_event symbol event received m in
      let m2 = run ops m1 in
      let marked = state_of-with_state code symbol (noted_quote event received) m in
      let w =
        run-Waits code event ops m1 others
          (ground (arith, marked, clean, text_beq_iff code code)) in
      let last = run-last_kept code ops m1 others in
      ground (
        arith,
        w,
        last,
        marked,
        text_beq_iff code code,
        (is_due_iff config code has_position now ws symbols m2).0,
      )

  -- After an evaluation of a symbol, and whatever quotes, forces, questions and evaluations of other
  -- symbols follow, the symbol is not listed before its cooldown is over.
  pub not_due_in_cooldown :
      (symbol : Text) (at then_at : ℕ) (reason : Text) (m : States) (ops : List Op)
      (has_position : Text → Bool) (now : ℕ) (ws : Bool) (symbols : List Text)
      → let code = zfill 6 symbol in
        All (λ o. evaluates code o ≡ false) ops
        → now < then_at + cooldown_of config (has_position code)
        → is_due code
            (due_evaluations config has_position now ws symbols
              (run ops (mark_evaluated symbol at then_at reason m).0)).1
          ≡ false
  unfolding is_ripe is_cool mark_evaluated evaluated
  not_due_in_cooldown symbol at then_at reason m ops has_position now ws symbols others early =
      let code = zfill 6 symbol in
      let m1 = (mark_evaluated symbol at then_at reason m).0 in
      let m2 = run ops m1 in
      ground (
        arith,
        run-last_kept code ops m1 others,
        state_of-with_state code symbol (evaluated at then_at reason) m,
        text_beq_iff code code,
        (is_due_iff config code has_position now ws symbols m2).0,
      )
