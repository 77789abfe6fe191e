-- ===== src/Risk/ApiErrors.antt =====
-- API errors: the log's bound, and the automatic kill switch.
use mathlib.Core.Path.{subst, sym}
use kis_api_trend_atr.Base.{
  ℕ, ◌+◌, ◌-◌, ◌≤◌, ◌≡◌, ◌↔◌, ◌⊎◌, inl, inr, Bool-cases, Option-cases, true, false, Option, none,
  some, List, [], ◌∷◌, ◌++◌, min, arith, if◌then◌else◌, length, length-append, length-drop,
}
use kis_api_trend_atr.Base.Text.{Text}
use kis_api_trend_atr.Risk.{RiskManager, record_api_error, is_expired}

-- not further back than the reset time
unfoldable pub IsClose : ℕ → Option ℕ → ℕ → Type 0
IsClose reset_time none now = Unit
IsClose reset_time (some t) now = now - t ≤ reset_time

-- each error comes within the reset time of the one before it
unfoldable pub IsBurst : ℕ → Option ℕ → List (Text × ℕ) → Type 0
IsBurst reset_time last [] = Unit
IsBurst reset_time last ((reason, now) ∷ es) =
    IsClose reset_time last now × IsBurst reset_time (some now) es

module _ {A : Type 0} where
  -- the log holds the errors of the count, but ten at most
  unfoldable pub IsLogged : RiskManager A → Type 0
  IsLogged m = length m.api_error_reasons ≡ min m.api_error_count 10

  -- Recording an error keeps the log as long as the error count, but ten entries at most.
  pub record_api_error-IsLogged :
      (m : RiskManager A) (reason : Text) (now : ℕ)
      → IsLogged m
      → IsLogged (record_api_error m reason now).0
  unfolding IsLogged record_api_error
  record_api_error-IsLogged m reason now h = elim (Bool-cases (is_expired m now)) [
    | inl e ↦ ground (arith, e)
    | inr e ↦ ground (
      arith,
      e,
      h,
      length-append m.api_error_reasons ((now, reason) ∷ []),
      length-drop (length (m.api_error_reasons ++ ((now, reason) ∷ [])) - 10)
          (m.api_error_reasons ++ ((now, reason) ∷ [])),
    )
  ]

  -- What an error does: the count goes on unless the reset time has passed, in which case it starts
  -- again at 1; the kill switch is fired exactly when the new count is at the limit
  -- or above, and it is on afterwards exactly when it was on before or is fired.
  pub record_api_error_iff :
      (m : RiskManager A) (reason : Text) (now : ℕ)
      → let (m', fired) = record_api_error m reason now in
        (m'.api_error_count ≡ (if is_expired m now then 1 else m.api_error_count + 1))
        × ((fired ≡ true) ↔ (m.max_api_errors ≤ m'.api_error_count))
        × ((m'.enabled ≡ true) ↔ ((m.enabled ≡ true) ⊎ (fired ≡ true)))
  unfolding record_api_error
  record_api_error_iff m reason now = ground arith

  pub record_all : RiskManager A → List (Text × ℕ) → RiskManager A
  record_all m [] = m
  record_all m ((reason, now) ∷ es) = record_all (record_api_error m reason now).0 es

  not_expired :
      (m : RiskManager A) (now : ℕ)
      → IsClose m.api_error_reset m.last_api_error_time now
      → is_expired m now ≡ false
  unfolding IsClose
  not_expired m now h = elim (Option-cases m.last_api_error_time) [
    | inl e ↦ ground (arith, e)
    | inr (t, e) ↦ rw e ground (arith, subst (λ q. IsClose m.api_error_reset q now) e h)
  ]

  -- What stays for the next error, and what one close error adds.
  close_error :
      (m : RiskManager A) (reason : Text) (now : ℕ)
      → IsClose m.api_error_reset m.last_api_error_time now
      → let m' = (record_api_error m reason now).0 in
        (m'.api_error_count ≡ m.api_error_count + 1)
        × (m'.max_api_errors ≡ m.max_api_errors)
        × (m'.api_error_reset ≡ m.api_error_reset)
        × (m'.last_api_error_time ≡ some now)
        × (m.max_api_errors ≤ m.api_error_count + 1 → m'.enabled ≡ true)
  unfolding record_api_error
  close_error m reason now h =
      let fresh : is_expired m now ≡ false = not_expired m now h in
      rw (fresh, record_api_error)
        (ground arith, ground arith, ground arith, ground arith, λ k. ground (arith, k))

  -- Errors that come close together fire the kill switch: after a burst of at least one error in
  -- which the count reaches `max_api_errors`, the switch is on.
  pub burst_trips :
      (m : RiskManager A) (e : Text × ℕ) (es : List (Text × ℕ))
      → IsBurst m.api_error_reset m.last_api_error_time (e ∷ es)
      → m.max_api_errors ≤ m.api_error_count + length (e ∷ es)
      → (record_all m (e ∷ es)).enabled ≡ true
  unfolding record_all record_api_error IsBurst IsClose
  burst_trips m (reason, now) [] h enough = (close_error m reason now h.0).4 enough
  burst_trips m (reason, now) (e' ∷ es) h enough =
      let m' = (record_api_error m reason now).0 in
      let (count, limit, window, last, fired) = close_error m reason now h.0 in
      burst_trips m' e' es
        (subst (λ q. IsBurst m'.api_error_reset q (e' ∷ es)) (sym last)
          (subst (λ r. IsBurst r (some now) (e' ∷ es)) (sym window) h.1))
        (ground (arith, count, limit, enough))
