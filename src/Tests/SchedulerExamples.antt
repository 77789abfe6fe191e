-- ===== src/Tests/SchedulerExamples.antt =====
-- Examples for the modules under Scheduler.
use kis_api_trend_atr.Base.{◌≡◌, refl, Bool, true, false, ◌&&◌, none, some, List, [], ◌∷◌, arith}
use kis_api_trend_atr.Base.Dict.{lookup}
use kis_api_trend_atr.Base.Text.{Text, codes, zfill, text_beq}
use kis_api_trend_atr.Scheduler.{
  EvaluationSchedulerConfig, States, state_of, due_evaluations, mark_quote_event, is_cool, fresh,
}
use kis_api_trend_atr.Scheduler.Due.{is_listed, is_due, is_ripe, is_due_iff}
use kis_api_trend_atr.Scheduler.Runs.{Op, quote, done, run, quote_is_due}

abbrev config : EvaluationSchedulerConfig
config = record {
  entry_cooldown = 3000;
  entry_debounce = 500;
  exit_cooldown = 1000;
  exit_debounce = 200;
  rest_fallback_cooldown = 30000;
  loop_sleep = 100;
}

abbrev nobody : Text → Bool
nobody code = false

abbrev samsung : Text
samsung = codes "005930"

abbrev both : List Text
both = codes "660" ∷ samsung ∷ []

-- another quote of the symbol, and an evaluation of the other one
abbrev meanwhile : List Op
meanwhile = quote samsung 5400 none ∷ done (codes "660") 7 5450 (codes "quote_event") ∷ []

abbrev evaluated_once : States
evaluated_once = (samsung, record fresh { last_eval_monotonic = some 1000; force_due = false }) ∷ []

is_due_iff_example :
    let (m', due) = due_evaluations config nobody 6000 true both evaluated_once in
    (is_due samsung due ≡ (
      is_listed samsung both && is_ripe config false 6000 true (state_of samsung evaluated_once)))
    × (state_of samsung m' ≡ state_of samsung evaluated_once)
is_due_iff_example = is_due_iff config samsung nobody 6000 true both evaluated_once

quote_is_due_example :
    is_due
      (zfill 6 samsung)
      (due_evaluations config nobody 5600 true both
        (run config meanwhile (mark_quote_event samsung 5100 none evaluated_once))).1
    ≡ true
unfolding state_of lookup zfill text_beq is_cool is_listed
quote_is_due_example =
    quote_is_due config samsung 5100 none evaluated_once meanwhile nobody 5600 true both refl
      (refl, (refl, tt)) refl (omega arith) refl
