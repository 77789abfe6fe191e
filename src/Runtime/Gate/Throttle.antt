-- ===== src/Runtime/Gate/Throttle.antt =====
-- What both gates promise: of the events of one key, those let through are at least a gap apart.
use mathlib.Core.Path.{subst}
use kis_api_trend_atr.Base.{
  ℕ, ◌+◌, ◌≤◌, ◌≡◌, ◌∙◌, ap, sym, refl, Bool, true, false, Option, none, some, List, [], ◌∷◌,
  if◌then◌else◌, leb, arith, All, Bool-cases, inl, inr,
}
use kis_api_trend_atr.Base.Eq.{◌==◌}
use kis_api_trend_atr.Base.Dict.{Dict, lookup, insert, lookup-insert}
use kis_api_trend_atr.Base.Text.{Text, text_keyed, text_beq_iff}

module _ (gap : ℕ) where
  -- Whether an event is far enough from the last of its key.
  abbrev pub IsAfter : Option ℕ → ℕ → Type 0
  IsAfter none ts = Unit
  IsAfter (some p) ts = p + gap ≤ ts

  unfoldable pub admits : Option ℕ → ℕ → Bool
  admits none ts = true
  admits (some p) ts = leb (p + gap) ts

  unfoldable pub throttle : Dict Text ℕ → List (Text × ℕ) → List (Text × ℕ)
  unfolding admits
  throttle d [] = []
  throttle d ((key, ts) ∷ events) =
      let pass = (key, ts) ∷ throttle (insert key ts d) events in
      let block = throttle d events in if admits (lookup key d) ts then pass else block

  -- Any two events of one key are a gap apart, in the order of the list.
  abbrev pub IsSpaced : List (Text × ℕ) → Type 0
  IsSpaced [] = Unit
  IsSpaced ((key, ts) ∷ events) =
      All (λ (e : Text × ℕ). e.0 ≡ key → ts + gap ≤ e.1) events × IsSpaced events

  abbrev AreAfter : Dict Text ℕ → List (Text × ℕ) → Type 0
  AreAfter d = All (λ (e : Text × ℕ). IsAfter (lookup e.0 d) e.1)

  admits_sound : (o : Option ℕ) (ts : ℕ) → admits o ts ≡ true → IsAfter o ts
  unfolding admits
  admits_sound none ts h = tt
  admits_sound (some p) ts h = ground arith

  admits_complete : (o : Option ℕ) (ts : ℕ) → IsAfter o ts → admits o ts ≡ true
  unfolding admits
  admits_complete none ts h = refl
  admits_complete (some p) ts h = ground arith

  IsAfter-later : (o : Option ℕ) (ts u : ℕ) → IsAfter o ts → ts + gap ≤ u → IsAfter o u
  IsAfter-later none ts u h le = tt
  IsAfter-later (some p) ts u h le = omega arith

  IsAfter-same :
      (d : Dict Text ℕ) (key k : Text) (ts u : ℕ)
      → (key == k) ≡ true
      → IsAfter (lookup k (insert key ts d)) u
      → ts + gap ≤ u
  IsAfter-same d key k ts u e =
      subst (λ o. IsAfter o u)
        (lookup-insert key k ts d ∙ ap (λ b. if b then some ts else lookup k d) e)

  IsAfter-other :
      (d : Dict Text ℕ) (key k : Text) (ts u : ℕ)
      → (key == k) ≡ false
      → IsAfter (lookup k (insert key ts d)) u
      → IsAfter (lookup k d) u
  IsAfter-other d key k ts u e =
      subst (λ o. IsAfter o u)
        (lookup-insert key k ts d ∙ ap (λ b. if b then some ts else lookup k d) e)

  -- What comes after the new event also comes after what it replaced.
  weaken :
      (d : Dict Text ℕ) (key : Text) (ts : ℕ) (events : List (Text × ℕ))
      → IsAfter (lookup key d) ts
      → AreAfter (insert key ts d) events
      → AreAfter d events
  weaken d key ts [] h after = tt
  weaken d key ts ((k, u) ∷ events) h (a, after) = (
    elim (Bool-cases (key == k)) [
      | inl e ↦
          subst (λ j. IsAfter (lookup j d) u) ((text_beq_iff key k).0 e)
            (IsAfter-later (lookup key d) ts u h (IsAfter-same d key k ts u e a))
      | inr e ↦ IsAfter-other d key k ts u e a
    ],
    weaken d key ts events h after,
  )

  gaps :
      (d : Dict Text ℕ) (key : Text) (ts : ℕ) (events : List (Text × ℕ))
      → AreAfter (insert key ts d) events
      → All (λ (e : Text × ℕ). e.0 ≡ key → ts + gap ≤ e.1) events
  gaps d key ts [] after = tt
  gaps d key ts ((k, u) ∷ events) (a, after) = (
    λ same. IsAfter-same d key k ts u ((text_beq_iff key k).1 (sym same)) a,
    gaps d key ts events after,
  )

  throttle-AreAfter : (d : Dict Text ℕ) (events : List (Text × ℕ)) → AreAfter d (throttle d events)
  unfolding throttle
  throttle-AreAfter d [] = tt
  throttle-AreAfter d ((key, ts) ∷ events) = elim (Bool-cases (admits (lookup key d) ts)) [
    | inl e ↦
        let h = admits_sound (lookup key d) ts e in
        rw e (h, weaken d key ts _ h (throttle-AreAfter (insert key ts d) events))
    | inr e ↦ rw e (throttle-AreAfter d events)
  ]

  pub throttle-IsSpaced :
      (d : Dict Text ℕ) (events : List (Text × ℕ)) → IsSpaced (throttle d events)
  unfolding throttle
  throttle-IsSpaced d [] = tt
  throttle-IsSpaced d ((key, ts) ∷ events) = elim (Bool-cases (admits (lookup key d) ts)) [
    | inl e ↦ rw e (
      gaps d key ts _ (throttle-AreAfter (insert key ts d) events),
      throttle-IsSpaced (insert key ts d) events,
    )
    | inr e ↦ rw e (throttle-IsSpaced d events)
  ]

  -- An event that is the first of its key, or far enough from the last one, is let through.
  pub throttle_admits :
      (d : Dict Text ℕ) (key : Text) (ts : ℕ) (events : List (Text × ℕ))
      → IsAfter (lookup key d) ts
      → throttle d ((key, ts) ∷ events) ≡ (key, ts) ∷ throttle (insert key ts d) events
  unfolding throttle
  throttle_admits d key ts events h = rw (admits_complete (lookup key d) ts h)
