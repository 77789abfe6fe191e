-- ===== src/Health/Degraded.antt =====
-- The degraded mode of the pipeline: entered on a stalled worker or a deep queue, left with
-- hysteresis.
use kis_api_trend_atr.Base.{
  ℕ, ◌+◌, ◌-◌, ◌%◌, ◌≤◌, ◌<◌, ◌≡◌, ◌↔◌, Bool, true, false, not, ◌&&◌, ◌||◌, Option, none, some,
  List, [], ◌∷◌, arith, is_some, inl, inr, List-cases, if◌then◌else◌, ltb, leb, eqb,
}
use kis_api_trend_atr.Base.Int.{ℤ, at_least}
use kis_api_trend_atr.Base.Text.{Text, text_keyed}
use kis_api_trend_atr.Health.{Store, is_stalled}

pub data EnterReason : Type 0 where
  nothing disabled recovered : EnterReason
  worker_stalled : List Text → EnterReason
  queue_depth : ℕ → EnterReason

pub record DegradedModeSnapshot : Type 0 where
  pub is_degraded : Bool
  pub entered_at : Option ℕ
  pub last_transition_at : Option ℕ
  pub state_reason : EnterReason
  pub transitions : ℕ

pub record Controller : Type 0 where
  pub enabled : Bool
  pub enter_queue_depth : ℕ
  pub exit_queue_depth : ℕ
  pub min_hold : ℕ
  pub snapshot : DegradedModeSnapshot

pub new_controller : Bool → ℤ → ℤ → ℤ → Controller
new_controller enabled enter_depth exit_depth min_hold = record {
  enabled = enabled;
  enter_queue_depth = at_least 1 enter_depth;
  exit_queue_depth = at_least 0 exit_depth;
  min_hold = at_least 0 min_hold;
  snapshot = record {
    is_degraded = false;
    entered_at = none;
    last_transition_at = none;
    state_reason = nothing;
    transitions = 0;
  };
}

-- the order of texts
text_ltb : Text → Text → Bool
text_ltb [] [] = false
text_ltb [] (d ∷ t) = true
text_ltb (c ∷ s) [] = false
text_ltb (c ∷ s) (d ∷ t) = ltb c d || (eqb c d && text_ltb s t)

insert_sorted : Text → List Text → List Text
unfolding text_ltb
insert_sorted s [] = s ∷ []
insert_sorted s (t ∷ ts) = if text_ltb s t then s ∷ t ∷ ts else t ∷ insert_sorted s ts

-- `_stalled_workers`: the names of the stalled workers, sorted
pub stalled_workers : {A : Type 0} → Store A → List Text
unfolding insert_sorted
stalled_workers [] = []
stalled_workers ((name, s) ∷ d) =
    let rest = stalled_workers d in if is_stalled s.state then insert_sorted name rest else rest

-- the reason to enter, if there is one
pub enter_reason : {A : Type 0} → Controller → ℤ → Store A → Option EnterReason
enter_reason c depth d = elim (stalled_workers d) [
  | name ∷ names ↦ some (worker_stalled (name ∷ names))
  | [] ↦
      if leb c.enter_queue_depth (at_least 0 depth)
      then some (queue_depth (at_least 0 depth))
      else none
]

abbrev pub hold_elapsed : DegradedModeSnapshot → ℕ → ℕ
hold_elapsed s now = elim s.entered_at [ none ↦ 0 | some t ↦ now - t ]

abbrev entered : ℕ → EnterReason → ℕ → DegradedModeSnapshot
entered now reason transitions = record {
  is_degraded = true;
  entered_at = some now;
  last_transition_at = some now;
  state_reason = reason;
  transitions = transitions + 1;
}

abbrev left : ℕ → EnterReason → ℕ → DegradedModeSnapshot
left now reason transitions = record {
  is_degraded = false;
  entered_at = none;
  last_transition_at = some now;
  state_reason = reason;
  transitions = transitions + 1;
}

-- what a degraded pipeline does with no reason to be
leave_if_due : Controller → ℤ → ℕ → DegradedModeSnapshot
leave_if_due c depth now =
    let s = c.snapshot in
    if ltb (hold_elapsed s now) c.min_hold
    then s
    else if ltb c.exit_queue_depth (at_least 0 depth)
    then s
    else left now recovered s.transitions

-- the new snapshot of `evaluate`
pub next_snapshot : Controller → Option EnterReason → ℤ → ℕ → DegradedModeSnapshot
unfolding leave_if_due
next_snapshot c reason depth now =
    let s = c.snapshot in
    if not c.enabled
    then if s.is_degraded then left now disabled s.transitions else s
    else elim reason [
      | some r ↦
          if s.is_degraded then record s { state_reason = r } else entered now r s.transitions
      | none ↦ if s.is_degraded then leave_if_due c depth now else s
    ]

-- `DegradedModeController.evaluate`
pub control : {A : Type 0} → Controller → ℤ → Store A → ℕ → Controller
control c depth d now = record c { snapshot = next_snapshot c (enter_reason c depth d) depth now }

-- Degraded exactly while the time of entry is known, and after an odd number of transitions.
pub record IsConsistent (s : DegradedModeSnapshot) : Type 0 where
  pub known : s.is_degraded ≡ is_some s.entered_at
  pub odd : s.is_degraded ≡ eqb (s.transitions % 2) 1

next_snapshot-IsConsistent :
    (c : Controller) (reason : Option EnterReason) (depth : ℤ) (now : ℕ)
    → IsConsistent c.snapshot
    → IsConsistent (next_snapshot c reason depth now)
unfolding next_snapshot
next_snapshot-IsConsistent c none depth now h = record {
  known = ground (arith, h.known);
  odd = ground (arith, h.odd);
}
next_snapshot-IsConsistent c (some r) depth now h = record {
  known = ground (arith, h.known);
  odd = ground (arith, h.odd);
}

-- An evaluation keeps the snapshot consistent: the mode is degraded exactly while the time of entry
-- is known, and exactly when the count of transitions is odd.
pub control-IsConsistent :
    {A : Type 0} (c : Controller) (depth : ℤ) (d : Store A) (now : ℕ)
    → IsConsistent c.snapshot
    → IsConsistent (control c depth d now).snapshot
unfolding control
control-IsConsistent c depth d now h =
    next_snapshot-IsConsistent c (enter_reason c depth d) depth now h

-- With the mode enabled, an evaluation of a degraded pipeline leaves the mode exactly when no
-- worker is stalled, the queue is below the entry depth and at most the exit depth, and the minimum
-- hold has passed since the entry.
pub leaves_iff :
    {A : Type 0} (c : Controller) (depth : ℤ) (d : Store A) (now : ℕ)
    → c.enabled ≡ true
    → c.snapshot.is_degraded ≡ true
    → ((control c depth d now).snapshot.is_degraded ≡ false) ↔ (
        (stalled_workers d ≡ [])
        × (at_least 0 depth < c.enter_queue_depth)
        × (at_least 0 depth ≤ c.exit_queue_depth)
        × (c.min_hold ≤ hold_elapsed c.snapshot now))
unfolding control next_snapshot enter_reason
leaves_iff c depth d now on deg = elim (List-cases (stalled_workers d)) [
  | inl e ↦ rw e ground (arith, on, deg)
  | inr (x, xs, e) ↦ rw e ground (arith, on, deg)
]
