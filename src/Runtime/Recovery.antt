-- ===== src/Runtime/Recovery.antt =====
-- The way back from DEGRADED_FEED (kis_trend_atr_trading/engine/runtime_state_machine.py): what makes a
-- feed stable.
use mathlib.Core.Path.{subst, sym}
use kis_api_trend_atr.Base.{
  ℕ, ◌+◌, ◌≤◌, ◌<◌, ◌≡◌, refl, ◌⊎◌, ◌↔◌, true, false, Option, none, some, List, [], ◌∷◌, ◌++◌,
  arith, length, last?, last_items, Option-cases, ltb, inl, inr, Bool-cases, max, ap,
}
use kis_api_trend_atr.Base.Text.{Text}
use kis_api_trend_atr.Session.{in_session}
use kis_api_trend_atr.Runtime.Config.{auto}
use kis_api_trend_atr.Runtime.{
  normal, degraded_feed, FeedStatus, known, Machine, seconds, is_older, append_ws_bar_ts,
  is_consecutive_1m, all_consecutive, has_required_consecutive_ws_bars, is_ws_recover_stable,
  coerce_market_state,
}
use kis_api_trend_atr.Runtime.Evaluate.{observe, step_overlay, evaluate}
use kis_api_trend_atr.Runtime.Deque.{IsLater}

-- One after another, the bars are sixty seconds apart, by whole seconds.
abbrev pub AreMinutes : List ℕ → Type 0
AreMinutes [] = Unit
AreMinutes (t ∷ []) = Unit
AreMinutes (t ∷ u ∷ ts) = (t + seconds 60 ≤ u) × (u < t + seconds 61) × AreMinutes (u ∷ ts)

is_consecutive_1m_iff :
    (t u : ℕ) → (is_consecutive_1m t u ≡ true) ↔ ((t + seconds 60 ≤ u) × (u < t + seconds 61))
unfolding is_consecutive_1m
is_consecutive_1m_iff t u = (λ h. (grind arith, grind arith), λ h. grind arith)

all_consecutive_iff : (ts : List ℕ) → (all_consecutive ts ≡ true) ↔ AreMinutes ts
unfolding all_consecutive
all_consecutive_iff [] = (λ h. tt, λ h. refl)
all_consecutive_iff (t ∷ []) = (λ h. tt, λ h. refl)
all_consecutive_iff (t ∷ u ∷ ts) =
    let rest = all_consecutive_iff (u ∷ ts) in
    let pair = is_consecutive_1m_iff t u in
    (
      λ h. ((pair.0 (ground arith)).0, (pair.0 (ground arith)).1, rest.0 (ground arith)),
      λ h. ground (arith, pair.1 (h.0, h.1), rest.1 h.2),
    )

-- What a pass with a healthy feed makes of the bars: the feed's last bar is appended if there is one that
-- is later than the last of them, and of more than sixteen the last sixteen stay.
abbrev pub IsRecorded : List ℕ → Option ℕ → List ℕ → Type 0
IsRecorded bars ts after =
    ((ts ≡ none) × (after ≡ bars))
    ⊎ ((t : ℕ) × (u : ℕ) × (ts ≡ some t) × (last? bars ≡ some u) × (t ≤ u) × (after ≡ bars))
    ⊎ ((t : ℕ) × (ts ≡ some t) × IsLater t bars × (after ≡ last_items 16 (bars ++ t ∷ [])))

append_ws_bar_ts-IsRecorded :
    (bars : List ℕ) (ts : Option ℕ) → IsRecorded bars ts (append_ws_bar_ts bars ts)
unfolding append_ws_bar_ts
append_ws_bar_ts-IsRecorded bars none = inl (refl, refl)
append_ws_bar_ts-IsRecorded bars (some t) = elim (Option-cases (last? bars)) [
  | inl e ↦ inr (inr (t, refl, λ u p. cc, ground (arith, e)))
  | inr (u, e) ↦ elim (Bool-cases (ltb u t)) [
    | inl later ↦ inr (inr (t, refl, λ v p. ground arith, ground (arith, e, later)))
    | inr same ↦ inr (inl (t, u, refl, e, ground arith, ground (arith, e, same)))
  ]
]

-- since when the feed is healthy, if it is now
abbrev pub healthy_since : Machine → ℕ → ℕ
healthy_since m now = elim m.ws_healthy_since [ none ↦ now | some t ↦ t ]

-- What a degraded machine waits for, with the bars it then has.
pub record CanRecover (m : Machine) (now : ℕ) (feed : FeedStatus) (bars : List ℕ) : Type 0 where
  pub enabled : feed.ws_enabled ≡ true
  pub connected : feed.ws_connected ≡ true
  pub fresh : is_older feed.ws_last_message_age m.config.ws_stale_sec ≡ false
  pub healthy : healthy_since m now + seconds m.config.ws_recover_stable_sec ≤ now
  pub held : m.overlay_changed_at + seconds m.config.ws_min_degraded_sec ≤ now
  pub enough : max m.config.ws_recover_required_bars 1 ≤ length bars
  pub minutes : AreMinutes (last_items (max m.config.ws_recover_required_bars 1) bars)

-- The same as the code tests it, healthy since `since`.
record Recovers (m : Machine) (now : ℕ) (feed : FeedStatus) (since : ℕ) (bars : List ℕ)
    : Type 0 where
  enabled : feed.ws_enabled ≡ true
  connected : feed.ws_connected ≡ true
  fresh : is_older feed.ws_last_message_age m.config.ws_stale_sec ≡ false
  healthy : since + seconds m.config.ws_recover_stable_sec ≤ now
  held : m.overlay_changed_at + seconds m.config.ws_min_degraded_sec ≤ now
  enough : max m.config.ws_recover_required_bars 1 ≤ length bars
  consecutive : all_consecutive (last_items (max m.config.ws_recover_required_bars 1) bars) ≡ true

Recovers-since :
    (m : Machine) (now : ℕ) (reason : Text) (feed : FeedStatus) {since : ℕ}
    → m.overlay ≡ degraded_feed
    → m.config.ws_recover_policy ≡ auto
    → m.ws_healthy_since ≡ some since
    → ((evaluate m now (known in_session) reason feed false).0.overlay ≡ normal)
      ↔ Recovers m now feed since (append_ws_bar_ts m.recent_ws_bar_ts feed.ws_last_bar_ts)
unfolding evaluate observe step_overlay coerce_market_state is_ws_recover_stable
    has_required_consecutive_ws_bars
Recovers-since m now reason feed deg policy healthy = ground arith

Recovers-now :
    (m : Machine) (now : ℕ) (reason : Text) (feed : FeedStatus)
    → m.overlay ≡ degraded_feed
    → m.config.ws_recover_policy ≡ auto
    → m.ws_healthy_since ≡ none
    → ((evaluate m now (known in_session) reason feed false).0.overlay ≡ normal)
      ↔ Recovers m now feed now (append_ws_bar_ts m.recent_ws_bar_ts feed.ws_last_bar_ts)
unfolding evaluate observe step_overlay coerce_market_state is_ws_recover_stable
    has_required_consecutive_ws_bars
Recovers-now m now reason feed deg policy unhealthy = ground arith

Recovers-healthy :
    (m : Machine) (now : ℕ) (reason : Text) (feed : FeedStatus)
    → m.overlay ≡ degraded_feed
    → m.config.ws_recover_policy ≡ auto
    → ((evaluate m now (known in_session) reason feed false).0.overlay ≡ normal)
      ↔ Recovers m now feed
          (healthy_since m now)
          (append_ws_bar_ts m.recent_ws_bar_ts feed.ws_last_bar_ts)
Recovers-healthy m now reason feed deg policy =
    let bars = append_ws_bar_ts m.recent_ws_bar_ts feed.ws_last_bar_ts in
    let normal_after = (evaluate m now (known in_session) reason feed false).0.overlay ≡ normal in
    let since_of : Option ℕ → ℕ = λ o. elim o [ none ↦ now | some t ↦ t ] in
    elim (Option-cases m.ws_healthy_since) [
      | inl e ↦
          subst (λ (since : ℕ). normal_after ↔ Recovers m now feed since bars) (sym (ap since_of e))
            (Recovers-now m now reason feed deg policy e)
      | inr (t, e) ↦
          subst (λ (since : ℕ). normal_after ↔ Recovers m now feed since bars) (sym (ap since_of e))
            (Recovers-since m now reason feed {since = t} deg policy e)
    ]

Recovers-CanRecover :
    (m : Machine) (now : ℕ) (feed : FeedStatus) (bars : List ℕ)
    → Recovers m now feed (healthy_since m now) bars ↔ CanRecover m now feed bars
Recovers-CanRecover m now feed bars =
    let minutes = all_consecutive_iff (last_items (max m.config.ws_recover_required_bars 1) bars) in
    (
      λ h. record {
        enabled = h.enabled;
        connected = h.connected;
        fresh = h.fresh;
        healthy = h.healthy;
        held = h.held;
        enough = h.enough;
        minutes = minutes.0 h.consecutive;
      },
      λ h. record {
        enabled = h.enabled;
        connected = h.connected;
        fresh = h.fresh;
        healthy = h.healthy;
        held = h.held;
        enough = h.enough;
        consecutive = minutes.1 h.minutes;
      },
    )

-- Under the `auto` policy a degraded machine, in session with no risk stop, recovers in a pass exactly
-- when the feed is enabled, connected and fresh, has been healthy for `ws_recover_stable_sec` (from this
-- pass on, where it was not healthy before), the overlay has held for `ws_min_degraded_sec`, and of the
-- bars with that of this pass the last ones, as many as required, are sixty seconds apart.
pub recovers_iff :
    (m : Machine) (now : ℕ) (reason : Text) (feed : FeedStatus)
    → m.overlay ≡ degraded_feed
    → m.config.ws_recover_policy ≡ auto
    → (bars : List ℕ) × IsRecorded m.recent_ws_bar_ts feed.ws_last_bar_ts bars
      × (((evaluate m now (known in_session) reason feed false).0.overlay ≡ normal)
          ↔ CanRecover m now feed bars)
recovers_iff m now reason feed deg policy =
    let bars = append_ws_bar_ts m.recent_ws_bar_ts feed.ws_last_bar_ts in
    let same = Recovers-CanRecover m now feed bars in
    let both = Recovers-healthy m now reason feed deg policy in
    (
      bars,
      append_ws_bar_ts-IsRecorded m.recent_ws_bar_ts feed.ws_last_bar_ts,
      (λ h. same.0 (both.0 h), λ h. both.1 (same.1 h)),
    )
