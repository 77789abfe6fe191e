-- ===== src/Scheduler.antt =====
-- `SymbolEvaluationScheduler` of kis_trend_atr_trading/engine/evaluation_scheduler.py. Readings of the
-- monotonic clock and the settings are whole microseconds; dates and the times of receipt, which the
-- scheduler only stores, are numbers. The cadence metrics of the file are left out.

pub mod Due
pub mod Runs
use kis_api_trend_atr.Base.{
  ℕ, ◌+◌, ◌-◌, Bool, true, false, not, ◌&&◌, ◌||◌, Option, none, some, List, [], ◌∷◌, if◌then◌else◌,
  ltb, leb, eqb,
}
use kis_api_trend_atr.Base.Eq.{◌==◌}
use kis_api_trend_atr.Base.Dict.{Dict, lookup, insert}
use kis_api_trend_atr.Base.Text.{Text, codes, zfill, text_keyed, text_before}

pub record EvaluationSchedulerConfig : Type 0 where
  pub entry_cooldown : ℕ
  pub entry_debounce : ℕ
  pub exit_cooldown : ℕ
  pub exit_debounce : ℕ
  pub rest_fallback_cooldown : ℕ
  pub loop_sleep : ℕ

pub record SymbolEvaluationState : Type 0 where
  pub last_event_monotonic : Option ℕ
  pub dirty_since_monotonic : Option ℕ
  pub last_quote_received_at : Option ℕ
  pub last_eval_monotonic : Option ℕ
  pub last_eval_at : Option ℕ
  pub last_eval_reason : Text
  pub dirty : Bool
  pub force_due : Bool
  pub force_reason : Text

pub record DueEvaluation : Type 0 where
  pub symbol : Text
  pub reason : Text
  pub has_position : Bool

abbrev pub States : Type 0
States = Dict Text SymbolEvaluationState

abbrev pub fresh : SymbolEvaluationState
fresh = record {
  last_event_monotonic = none;
  dirty_since_monotonic = none;
  last_quote_received_at = none;
  last_eval_monotonic = none;
  last_eval_at = none;
  last_eval_reason = codes "startup";
  dirty = false;
  force_due = true;
  force_reason = codes "startup";
}

abbrev or_fresh : Option SymbolEvaluationState → SymbolEvaluationState
or_fresh none = fresh
or_fresh (some s) = s

-- the state under a code, a fresh one if there is none
unfoldable pub state_of : Text → States → SymbolEvaluationState
state_of code m = or_fresh (lookup code m)

-- `_state_for`: the states with that of the symbol, which is made if it is not there
unfoldable pub ensure_state : Text → States → States
unfolding state_of
ensure_state symbol m = let code = zfill 6 symbol in insert code (state_of code m) m

-- a change of the state that `_state_for` hands out
unfoldable pub with_state : Text → (SymbolEvaluationState → SymbolEvaluationState) → States → States
with_state symbol g m = let code = zfill 6 symbol in insert code (g (state_of code m)) m

abbrev or_word : Text → Text → Text
or_word word [] = word
or_word word (c ∷ s) = c ∷ s

unfoldable pub noted_quote : ℕ → Option ℕ → SymbolEvaluationState → SymbolEvaluationState
noted_quote event received_at s = record s {
  dirty_since_monotonic = elim s.dirty_since_monotonic [
    | none ↦ some event
    | some since ↦ if s.dirty then some since else some event
  ];
  last_event_monotonic = some event;
  last_quote_received_at = received_at;
  dirty = true;
}

unfoldable pub mark_quote_event : Text → ℕ → Option ℕ → States → States
mark_quote_event symbol event received_at m = with_state symbol (noted_quote event received_at) m

unfoldable pub forced : Text → SymbolEvaluationState → SymbolEvaluationState
forced reason s = record s { force_due = true; force_reason = or_word (codes "force") reason }

unfoldable pub mark_force : Text → Text → States → States
mark_force symbol reason m = with_state symbol (forced reason) m

abbrev pub cooldown_of : EvaluationSchedulerConfig → Bool → ℕ
cooldown_of config has_position =
    if has_position then config.exit_cooldown else config.entry_cooldown

abbrev pub debounce_of : EvaluationSchedulerConfig → Bool → ℕ
debounce_of config has_position =
    if has_position then config.exit_debounce else config.entry_debounce

-- `now - since >= pause`, where there is such a time
abbrev pub has_elapsed : ℕ → ℕ → Option ℕ → Bool
has_elapsed pause now none = false
has_elapsed pause now (some since) = leb (since + pause) now

-- `cooldown_ready`
unfoldable pub is_cool : EvaluationSchedulerConfig → Bool → ℕ → SymbolEvaluationState → Bool
is_cool config has_position now s = elim s.last_eval_monotonic [
  | none ↦ true
  | some last ↦ leb (last + cooldown_of config has_position) now
]

-- what the loop appends for one symbol
unfoldable pub due_of :
    EvaluationSchedulerConfig
    → Text
    → Bool
    → ℕ
    → Bool
    → SymbolEvaluationState
    → Option DueEvaluation
due_of config code has_position now ws_connected s =
    let ready = is_cool config has_position now s in
    let item : Text → Option DueEvaluation = λ (reason : Text).
      some (record { symbol = code; reason = reason; has_position = has_position }) in
    if s.force_due && ready
    then item (or_word (codes "force") s.force_reason)
    else if ws_connected
    then (if s.dirty
          && has_elapsed (debounce_of config has_position) now s.dirty_since_monotonic
          && ready
        then item (codes "quote_event")
        else none)
    else if ready
    then item (codes "rest_fallback")
    else none

-- whether the key `(not item.has_position, item.symbol)` of the second is the smaller one
unfoldable pub sorts_after : DueEvaluation → DueEvaluation → Bool
sorts_after a b =
    if a.has_position
    then b.has_position && text_before a.symbol b.symbol
    else b.has_position || text_before a.symbol b.symbol

-- a stable sort: an item goes before the first one that it does not sort after
unfoldable pub insert_due : DueEvaluation → List DueEvaluation → List DueEvaluation
insert_due d [] = d ∷ []
insert_due d (e ∷ due) =
    let rest = insert_due d due in if sorts_after d e then e ∷ rest else d ∷ e ∷ due

unfoldable pub add_item : Option DueEvaluation → List DueEvaluation → List DueEvaluation
add_item none due = due
add_item (some d) due = insert_due d due

unfoldable pub due_evaluations :
    EvaluationSchedulerConfig
    → (Text → Bool)
    → ℕ
    → Bool
    → List Text
    → States
    → States × List DueEvaluation
due_evaluations config has_position now ws_connected [] m = (m, [])
due_evaluations config has_position now ws_connected (symbol ∷ symbols) m =
    let code = zfill 6 symbol in
    let m1 = ensure_state code m in
    let item = due_of config code (has_position code) now ws_connected (state_of code m1) in
    let (m2, due) = due_evaluations config has_position now ws_connected symbols m1 in
    (m2, add_item item due)

unfoldable pub is_rest_fallback : Text → Bool
is_rest_fallback reason = reason == codes "rest_fallback"

unfoldable pub evaluated : ℕ → ℕ → Text → SymbolEvaluationState → SymbolEvaluationState
evaluated at now reason s = record s {
  last_eval_monotonic = some now;
  last_eval_at = some at;
  last_eval_reason = or_word (codes "unknown") reason;
  force_due = false;
  force_reason = [];
  dirty = if is_rest_fallback reason then s.dirty else false;
  dirty_since_monotonic = if is_rest_fallback reason then s.dirty_since_monotonic else none;
}

-- with the interval since the evaluation before
unfoldable pub mark_evaluated : Text → ℕ → ℕ → Text → States → States × Option ℕ
mark_evaluated symbol at now reason m = (
  with_state symbol (evaluated at now reason) m,
  elim (state_of (zfill 6 symbol) m).last_eval_monotonic [
    | none ↦ none
    | some last ↦ some (now - last)
  ],
)
