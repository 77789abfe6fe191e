-- ===== src/Runtime/Deque.antt =====
-- The deque of bars of kis_trend_atr_trading/engine/runtime_state_machine.py, and a configuration from
-- which there is no way back from DEGRADED_FEED.
use mathlib.Core.Path.{subst, sym}
use kis_api_trend_atr.Base.{
  ℕ, zero, suc, ◌-◌, ◌≤◌, ◌<◌, ◌≡◌, refl, ◌≢◌, ◌⊎◌, ◌∙◌, Bool, false, Option, none, some, List, [],
  ◌∷◌, ◌++◌, arith, length, drop, last?, length-drop, Option-cases, ltb, inl, inr, Bool-cases,
}
use kis_api_trend_atr.Session.{MarketSessionState}
use kis_api_trend_atr.Runtime.Config.{RuntimeConfig}
use kis_api_trend_atr.Runtime.{
  normal, FeedStatus, MarketInput, known, foreign, Machine, max_bars, append_bar, append_ws_bar_ts,
  has_required_consecutive_ws_bars, note_healthy, is_ws_recover_stable, coerce_market_state,
}
use kis_api_trend_atr.Runtime.Evaluate.{
  note_market, note_stability, observe, step_overlay, evaluate,
}
use kis_api_trend_atr.Runtime.Overlay.{observe-Same, evaluate-Step, Pass, pass, run}

-- The recorded bars are strictly later one after another.
abbrev pub IsIncreasing : List ℕ → Type 0
IsIncreasing [] = Unit
IsIncreasing (t ∷ []) = Unit
IsIncreasing (t ∷ u ∷ ts) = (t < u) × IsIncreasing (u ∷ ts)

abbrev pub IsLater : ℕ → List ℕ → Type 0
IsLater t ts = (u : ℕ) → last? ts ≡ some u → u < t

tail-IsIncreasing : (t : ℕ) (ts : List ℕ) → IsIncreasing (t ∷ ts) → IsIncreasing ts
tail-IsIncreasing t [] h = tt
tail-IsIncreasing t (u ∷ ts) h = h.1

drop-IsIncreasing : (n : ℕ) (ts : List ℕ) → IsIncreasing ts → IsIncreasing (drop n ts)
drop-IsIncreasing zero ts h = h
drop-IsIncreasing (suc n) [] h = tt
drop-IsIncreasing (suc n) (t ∷ ts) h = drop-IsIncreasing n ts (tail-IsIncreasing t ts h)

snoc-IsIncreasing :
    (ts : List ℕ) (t : ℕ) → IsIncreasing ts → IsLater t ts → IsIncreasing (ts ++ t ∷ [])
snoc-IsIncreasing [] t h later = tt
snoc-IsIncreasing (u ∷ []) t h later = (later u refl, tt)
snoc-IsIncreasing (u ∷ v ∷ ts) t h later = (h.0, snoc-IsIncreasing (v ∷ ts) t h.1 later)

-- What holds of the deque at every time.
pub record IsOrdered (bars : List ℕ) : Type 0 where
  pub increasing : IsIncreasing bars
  pub bounded : length bars ≤ max_bars

append_bar-IsOrdered :
    (bars : List ℕ) (t : ℕ) → IsIncreasing bars → IsLater t bars → IsOrdered (append_bar bars t)
append_bar-IsOrdered bars t h later = record {
  increasing =
      drop-IsIncreasing (length (bars ++ t ∷ []) - max_bars) (bars ++ t ∷ [])
        (snoc-IsIncreasing bars t h later);
  bounded = omega (arith, length-drop (length (bars ++ t ∷ []) - max_bars) (bars ++ t ∷ []));
}

append_ws_bar_ts-IsOrdered :
    (bars : List ℕ) (ts : Option ℕ) → IsOrdered bars → IsOrdered (append_ws_bar_ts bars ts)
unfolding append_ws_bar_ts
append_ws_bar_ts-IsOrdered bars none h = h
append_ws_bar_ts-IsOrdered bars (some t) h = elim (Option-cases (last? bars)) [
  | inl e ↦ rw (e, append_ws_bar_ts) (append_bar-IsOrdered bars t h.increasing (λ u p. cc))
  | inr (u, e) ↦ elim (Bool-cases (ltb u t)) [
    | inl lt ↦
        rw (e, append_ws_bar_ts)
          (rw lt (append_bar-IsOrdered bars t h.increasing (λ v p. ground arith)))
    | inr ge ↦ rw (e, append_ws_bar_ts) (rw ge h)
  ]
]

-- The deque after the test: forgotten, kept, or with the new bar.
stable_bars :
    (m : Machine) (s : MarketSessionState) (now : ℕ) (feed : FeedStatus)
    → let bars = (note_stability m s now feed).0.recent_ws_bar_ts in
      (bars ≡ []) ⊎ (bars ≡ append_ws_bar_ts m.recent_ws_bar_ts feed.ws_last_bar_ts)
unfolding note_stability is_ws_recover_stable
stable_bars m s now feed = ground arith

note_stability-IsOrdered :
    (m : Machine) (s : MarketSessionState) (now : ℕ) (feed : FeedStatus)
    → IsOrdered m.recent_ws_bar_ts
    → IsOrdered (note_stability m s now feed).0.recent_ws_bar_ts
note_stability-IsOrdered m s now feed h = elim (stable_bars m s now feed) [
  | inl e ↦ rw e (record { increasing = tt; bounded = omega arith })
  | inr e ↦ rw e (append_ws_bar_ts-IsOrdered m.recent_ws_bar_ts feed.ws_last_bar_ts h)
]

coerce_market_state-bars :
    (m : Machine) (x : MarketInput)
    → (coerce_market_state m x).0.recent_ws_bar_ts ≡ m.recent_ws_bar_ts
unfolding coerce_market_state
coerce_market_state-bars m (known s) = refl
coerce_market_state-bars m (foreign n raw) = ground arith

note_market-bars :
    (m : Machine) (s : MarketSessionState) → (note_market m s).recent_ws_bar_ts ≡ m.recent_ws_bar_ts
unfolding note_market
note_market-bars m s = refl

observe-IsOrdered :
    (m : Machine) (now : ℕ) (x : MarketInput) (feed : FeedStatus)
    → IsOrdered m.recent_ws_bar_ts
    → IsOrdered (observe m now x feed).0.recent_ws_bar_ts
unfolding observe
observe-IsOrdered m now x feed h =
    let (m₀, s) = coerce_market_state m x in
    note_stability-IsOrdered (note_market m₀ s) s now feed
      (subst IsOrdered (sym (note_market-bars m₀ s ∙ coerce_market_state-bars m x)) h)

step_overlay-bars :
    (m : Machine) (s : MarketSessionState) (now : ℕ) (feed : FeedStatus) (risk_stop stable : Bool)
    → (step_overlay m s now feed risk_stop stable).recent_ws_bar_ts ≡ m.recent_ws_bar_ts
unfolding step_overlay
step_overlay-bars m s now feed risk_stop stable = ground arith

-- Every pass keeps the recorded bars strictly increasing and at most sixteen.
pub pass-IsOrdered :
    (m : Machine) (p : Pass)
    → IsOrdered m.recent_ws_bar_ts
    → IsOrdered (pass m p).0.recent_ws_bar_ts
unfolding evaluate
pass-IsOrdered m p h =
    let (m₁, s, stable) = observe m p.now p.market_state p.feed_status in
    subst IsOrdered (sym (step_overlay-bars m₁ s p.now p.feed_status p.risk_stop stable))
      (observe-IsOrdered m p.now p.market_state p.feed_status h)

-- A short deque is never enough bars.
too_few_bars :
    (m : Machine)
    → length m.recent_ws_bar_ts ≤ max_bars
    → max_bars < m.config.ws_recover_required_bars
    → has_required_consecutive_ws_bars m ≡ false
unfolding has_required_consecutive_ws_bars
too_few_bars m few many = ground arith

unstable :
    (m : Machine) (s : MarketSessionState) (now : ℕ) (feed : FeedStatus)
    → IsOrdered m.recent_ws_bar_ts
    → max_bars < m.config.ws_recover_required_bars
    → (note_stability m s now feed).1 ≡ false
unfolding note_stability is_ws_recover_stable
unstable m s now feed h many =
    let few = append_ws_bar_ts-IsOrdered m.recent_ws_bar_ts feed.ws_last_bar_ts h in
    ground (arith, too_few_bars (note_healthy m now feed) few.bounded many)

stays_off_normal :
    (m : Machine) (s : MarketSessionState) (now : ℕ) (feed : FeedStatus) (risk_stop stable : Bool)
    → m.overlay ≢ normal
    → stable ≡ false
    → (step_overlay m s now feed risk_stop stable).overlay ≢ normal
unfolding step_overlay
stays_off_normal m s now feed risk_stop stable off e = ground arith

coerce_market_state-config :
    (m : Machine) (x : MarketInput) → (coerce_market_state m x).0.config ≡ m.config
unfolding coerce_market_state
coerce_market_state-config m (known s) = refl
coerce_market_state-config m (foreign n raw) = ground arith

observe_unstable :
    (m : Machine) (now : ℕ) (x : MarketInput) (feed : FeedStatus)
    → IsOrdered m.recent_ws_bar_ts
    → max_bars < m.config.ws_recover_required_bars
    → (observe m now x feed).2 ≡ false
unfolding observe
observe_unstable m now x feed h many =
    let (m₀, s) = coerce_market_state m x in
    unstable (note_market m₀ s) s now feed
      (subst IsOrdered (sym (note_market-bars m₀ s ∙ coerce_market_state-bars m x)) h)
      (subst (λ (c : RuntimeConfig). max_bars < c.ws_recover_required_bars)
        (sym (coerce_market_state-config m x)) many)

pass_off_normal :
    (m : Machine) (p : Pass)
    → IsOrdered m.recent_ws_bar_ts
    → max_bars < m.config.ws_recover_required_bars
    → m.overlay ≢ normal
    → (pass m p).0.overlay ≢ normal
unfolding evaluate
pass_off_normal m p h many off =
    let (m₁, s, stable) = observe m p.now p.market_state p.feed_status in
    let same = observe-Same m p.now p.market_state p.feed_status in
    stays_off_normal m₁ s p.now p.feed_status p.risk_stop stable (λ e. off (sym same.overlay ∙ e))
      (observe_unstable m p.now p.market_state p.feed_status h many)

-- A configuration that asks for more consecutive bars than the deque can hold (more than sixteen)
-- passes the constructor's checks, and from any overlay but NORMAL no run of passes comes back to
-- NORMAL.
pub run_never_normal :
    (m : Machine) (ps : List Pass)
    → IsOrdered m.recent_ws_bar_ts
    → max_bars < m.config.ws_recover_required_bars
    → m.overlay ≢ normal
    → (run m ps).0.overlay ≢ normal
unfolding run
run_never_normal m [] h many off = off
run_never_normal m (p ∷ ps) h many off =
    let kept = (evaluate-Step m p.now p.market_state p.market_reason p.feed_status p.risk_stop).1 in
    run_never_normal (pass m p).0 ps (pass-IsOrdered m p h)
      (subst (λ (c : RuntimeConfig). max_bars < c.ws_recover_required_bars) (sym kept) many)
      (pass_off_normal m p h many off)
