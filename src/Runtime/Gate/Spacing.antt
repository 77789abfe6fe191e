-- ===== src/Runtime/Gate/Spacing.antt =====
-- Both gates of the runtime keep the promise of `Throttle`.
use mathlib.Core.Path.{subst}
use kis_api_trend_atr.Base.{ℕ, ◌≡◌, sym, refl, List, [], ◌∷◌, arith}
use kis_api_trend_atr.Base.Dict.{insert}
use kis_api_trend_atr.Base.Text.{Text, text_keyed}
use kis_api_trend_atr.Runtime.{seconds}
use kis_api_trend_atr.Runtime.Gate.{code_of, BarGate, mark_processed, run_bars, Cooldown, send_all}
use kis_api_trend_atr.Runtime.Gate.Throttle.{throttle, IsSpaced, throttle-IsSpaced}

-- The bars by their symbols' codes.
abbrev coded : List (Text × ℕ) → List (Text × ℕ)
coded [] = []
coded ((symbol, ts) ∷ bars) = (code_of symbol, ts) ∷ coded bars

-- The gate is a throttle with the least gap.
run_bars-throttle :
    (g : BarGate) (bars : List (Text × ℕ)) → run_bars g bars ≡ throttle 1 g (coded bars)
unfolding run_bars throttle mark_processed
run_bars-throttle g [] = refl
run_bars-throttle g ((symbol, ts) ∷ bars) =
    ground (arith, run_bars-throttle (mark_processed g symbol ts) bars, run_bars-throttle g bars)

send_all-throttle :
    (c : Cooldown) (asked : List (Text × ℕ))
    → send_all c asked ≡ throttle (seconds c.cooldown_sec) c.last_sent_ts asked
unfolding send_all throttle
send_all-throttle c [] = refl
send_all-throttle c ((key, now) ∷ asked) =
    let sent : Cooldown = record c { last_sent_ts = insert key now c.last_sent_ts } in
    ground (arith, send_all-throttle sent asked, send_all-throttle c asked)

-- Of the bars that the gate lets a symbol run, each is strictly later than the one before, whatever
-- order the bars are offered in: no bar is run twice.
pub run_bars_once : (g : BarGate) (bars : List (Text × ℕ)) → IsSpaced 1 (run_bars g bars)
run_bars_once g bars = subst (IsSpaced 1) (sym (run_bars-throttle g bars)) (throttle-IsSpaced 1 g _)

-- Two notifications of one key that are both sent are at least the cooldown apart.
pub send_all-IsSpaced :
    (c : Cooldown) (asked : List (Text × ℕ)) → IsSpaced (seconds c.cooldown_sec) (send_all c asked)
send_all-IsSpaced c asked =
    subst (IsSpaced (seconds c.cooldown_sec)) (sym (send_all-throttle c asked))
      (throttle-IsSpaced (seconds c.cooldown_sec) c.last_sent_ts asked)
