-- ===== src/Scheduler/Due.antt =====
-- Which symbols `due_evaluations` (kis_trend_atr_trading/engine/evaluation_scheduler.py) lists.
use kis_api_trend_atr.Base.{
  ℕ, ◌≡◌, ◌∙◌, refl, Bool, false, not, ◌&&◌, ◌||◌, Option, none, some, List, [], ◌∷◌, if◌then◌else◌,
  arith, is_some,
}
use kis_api_trend_atr.Base.Eq.{◌==◌}
use kis_api_trend_atr.Base.Dict.{lookup-insert}
use kis_api_trend_atr.Base.Text.{Text, zfill, text_keyed, text_beq_iff}
use kis_api_trend_atr.Scheduler.{
  EvaluationSchedulerConfig, SymbolEvaluationState, DueEvaluation, States, state_of, ensure_state,
  with_state, debounce_of, has_elapsed, is_cool, due_of, insert_due, add_item, due_evaluations,
}

-- a symbol with the code is asked about
unfoldable pub is_listed : Text → List Text → Bool
is_listed code [] = false
is_listed code (symbol ∷ symbols) = zfill 6 symbol == code || is_listed code symbols

-- an item of the code is in the list
unfoldable pub is_due : Text → List DueEvaluation → Bool
is_due code [] = false
is_due code (d ∷ due) = d.symbol == code || is_due code due

is_due-insert_due :
    (code : Text) (d : DueEvaluation) (due : List DueEvaluation)
    → is_due code (insert_due d due) ≡ (d.symbol == code || is_due code due)
unfolding is_due insert_due
is_due-insert_due code d [] = refl
is_due-insert_due code d (e ∷ due) = ground (arith, is_due-insert_due code d due)

pub state_of-with_state :
    (code symbol : Text) (g : SymbolEvaluationState → SymbolEvaluationState) (m : States)
    → state_of code (with_state symbol g m)
      ≡ (if zfill 6 symbol == code then g (state_of code m) else state_of code m)
unfolding state_of with_state
state_of-with_state code symbol g m = ground (
  arith,
  lookup-insert (zfill 6 symbol) code (g (state_of (zfill 6 symbol) m)) m,
  text_beq_iff (zfill 6 symbol) code,
)

pub state_of-ensure_state :
    (code symbol : Text) (m : States) → state_of code (ensure_state symbol m) ≡ state_of code m
unfolding ensure_state state_of
state_of-ensure_state code symbol m = ground (
  arith,
  lookup-insert (zfill 6 symbol) code (state_of (zfill 6 symbol) m) m,
  text_beq_iff (zfill 6 symbol) code,
)

module _ (config : EvaluationSchedulerConfig) where
  due_of-symbol :
      (code : Text) (has_position : Bool) (now : ℕ) (ws : Bool) (s : SymbolEvaluationState)
      (d : DueEvaluation)
      → due_of config code has_position now ws s ≡ some d
      → d.symbol ≡ code
  unfolding due_of
  due_of-symbol code has_position now ws s d e = ground arith

  -- what makes the state of a symbol due
  unfoldable pub is_ripe : Bool → ℕ → Bool → SymbolEvaluationState → Bool
  is_ripe has_position now ws s =
      is_cool config has_position now s
      && (s.force_due
          || not ws
          || (s.dirty && has_elapsed (debounce_of config has_position) now s.dirty_since_monotonic))

  due_of-is_ripe :
      (code : Text) (has_position : Bool) (now : ℕ) (ws : Bool) (s : SymbolEvaluationState)
      → is_some (due_of config code has_position now ws s) ≡ is_ripe has_position now ws s
  unfolding due_of is_ripe
  due_of-is_ripe code has_position now ws s = ground arith

  due_evaluations-states :
      (code : Text) (has_position : Text → Bool) (now : ℕ) (ws : Bool) (symbols : List Text)
      (m : States)
      → state_of code (due_evaluations config has_position now ws symbols m).0 ≡ state_of code m
  unfolding due_evaluations
  due_evaluations-states code has_position now ws [] m = refl
  due_evaluations-states code has_position now ws (symbol ∷ symbols) m =
      due_evaluations-states code has_position now ws symbols (ensure_state (zfill 6 symbol) m)
      ∙ state_of-ensure_state code (zfill 6 symbol) m

  is_due-add_item :
      (code other : Text) (item : Option DueEvaluation) (due : List DueEvaluation)
      → ((d : DueEvaluation) → item ≡ some d → d.symbol ≡ other)
      → is_due code (add_item item due) ≡ ((is_some item && other == code) || is_due code due)
  unfolding add_item
  is_due-add_item code other none due h = refl
  is_due-add_item code other (some d) due h = ground (arith, h d refl, is_due-insert_due code d due)

  is_due-is_ripe :
      (code : Text) (has_position : Text → Bool) (now : ℕ) (ws : Bool) (symbols : List Text)
      (m : States)
      → is_due code (due_evaluations config has_position now ws symbols m).1
        ≡ (is_listed code symbols && is_ripe (has_position code) now ws (state_of code m))
  unfolding due_evaluations is_due is_listed
  is_due-is_ripe code has_position now ws [] m = refl
  is_due-is_ripe code has_position now ws (symbol ∷ symbols) m =
      let c = zfill 6 symbol in
      let m1 = ensure_state c m in
      let item = due_of config c (has_position c) now ws (state_of c m1) in
      ground (
        arith,
        is_due-is_ripe code has_position now ws symbols m1,
        state_of-ensure_state code c m,
        state_of-ensure_state c c m,
        due_of-is_ripe c (has_position c) now ws (state_of c m1),
        is_due-add_item code c item (due_evaluations config has_position now ws symbols m1).1
            (due_of-symbol c (has_position c) now ws (state_of c m1)),
        text_beq_iff c code,
      )

  -- A code is listed exactly when it was asked about, its cooldown is over and it is forced, or has a
  -- quote older than its debounce, or the websocket is away: the states of other symbols do not
  -- matter, nor the order, and asking changes no state.
  pub is_due_iff :
      (code : Text) (has_position : Text → Bool) (now : ℕ) (ws : Bool) (symbols : List Text)
      (m : States)
      → let (m', due) = due_evaluations config has_position now ws symbols m in
        (is_due code due
          ≡ (is_listed code symbols && is_ripe (has_position code) now ws (state_of code m)))
        × (state_of code m' ≡ state_of code m)
  is_due_iff code has_position now ws symbols m = (
    is_due-is_ripe code has_position now ws symbols m,
    due_evaluations-states code has_position now ws symbols m,
  )
