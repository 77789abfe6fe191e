-- ===== src/Runtime/Gate.antt =====
-- `SymbolBarGate` and `TransitionCooldown` of
-- kis_trend_atr_trading/engine/runtime_state_machine.py.
pub mod Throttle
pub mod Spacing
use kis_api_trend_atr.Base.{
  ℕ, Bool, true, false, not, Option, none, some, List, [], ◌∷◌, if◌then◌else◌, leb,
}
use kis_api_trend_atr.Base.Dict.{Dict, lookup, insert}
use kis_api_trend_atr.Base.Int.{ℤ, at_least}
use kis_api_trend_atr.Base.Text.{Text, zfill, text_keyed}
use kis_api_trend_atr.Runtime.{has_passed}

-- `str(symbol).zfill(6)`
abbrev pub code_of : Text → Text
code_of symbol = zfill 6 symbol

-- the last processed bar of each symbol
abbrev pub BarGate : Type 0
BarGate = Dict Text ℕ

pub last_processed : BarGate → Text → Option ℕ
last_processed g symbol = lookup (code_of symbol) g

pub should_run : BarGate → Text → Option ℕ → Bool
unfolding last_processed
should_run g symbol none = false
should_run g symbol (some bar_ts) = elim (last_processed g symbol) [
  | none ↦ true
  | some prev ↦ if leb bar_ts prev then false else true
]

pub mark_processed : BarGate → Text → ℕ → BarGate
mark_processed g symbol bar_ts = insert (code_of symbol) bar_ts g

-- The caller's loop: each bar that the gate lets through is run once and marked. The result is
-- what was run, by symbol and bar.
pub run_bars : BarGate → List (Text × ℕ) → List (Text × ℕ)
unfolding should_run mark_processed
run_bars g [] = []
run_bars g ((symbol, bar_ts) ∷ bars) =
    let run_it = (code_of symbol, bar_ts) ∷ run_bars (mark_processed g symbol bar_ts) bars in
    let skip_it = run_bars g bars in if should_run g symbol (some bar_ts) then run_it else skip_it

pub record Cooldown : Type 0 where
  pub cooldown_sec : ℕ
  pub last_sent_ts : Dict Text ℕ

-- `TransitionCooldown.__init__`
pub new_cooldown : ℤ → Cooldown
new_cooldown cooldown_sec = record { cooldown_sec = at_least 1 cooldown_sec; last_sent_ts = [] }

pub should_send : Cooldown → Text → ℕ → Cooldown × Bool
should_send c key now =
    let sent : Cooldown = record c { last_sent_ts = insert key now c.last_sent_ts } in
    elim (lookup key c.last_sent_ts) [
      | none ↦ (sent, true)
      | some previous ↦ if has_passed c.cooldown_sec previous now then (sent, true) else (c, false)
    ]

-- The notifications that were sent, of those asked for.
pub send_all : Cooldown → List (Text × ℕ) → List (Text × ℕ)
unfolding should_send
send_all c [] = []
send_all c ((key, now) ∷ asked) =
    let (c', send) = should_send c key now in
    let rest = send_all c' asked in if send then (key, now) ∷ rest else rest
