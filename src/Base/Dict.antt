-- ===== src/Base/Dict.antt =====
-- A Python dict as an association list in insertion order. A dict holds a key once, so that `pop`
-- may drop every entry of its key.
use Prim.Native.Nat.{suc, ◌≤◌}
use mathlib.Core.Path.{◌≡◌, refl, subst}
use mathlib.Core.Logic.{inl, inr}
use mathlib.Core.Bool.{Bool}
use mathlib.Core.Option.{Option, none, some}
use mathlib.Core.List.{List, [], ◌∷◌}
use native.Mathlib.Omega.{arith}
use kis_api_trend_atr.Base.Tests.{if◌then◌else◌, is_some, Bool-cases}
use kis_api_trend_atr.Base.Lists.{length}
use kis_api_trend_atr.Base.Eq.{Keyed, ◌==◌}

abbrev pub Dict {ℓ κ} : Type ℓ → Type κ → Type (ℓ ⊔ κ)
Dict K V = List (K × V)

module _ {ℓ κ} {K : Type ℓ} {V : Type κ} ⦃e : Keyed K⦄ where
  -- `d.get(k)`
  unfoldable pub lookup : K → Dict K V → Option V
  lookup k [] = none
  lookup k ((j, v) ∷ d) = if j == k then some v else lookup k d

  -- `k in d`
  abbrev pub contains : K → Dict K V → Bool
  contains k d = is_some (lookup k d)

  -- `d[k] = v`: a known key keeps its place
  unfoldable pub insert : K → V → Dict K V → Dict K V
  insert k v [] = (k, v) ∷ []
  insert k v ((j, w) ∷ d) = if j == k then (k, v) ∷ d else (j, w) ∷ insert k v d

  -- `d.pop(k, None)`
  unfoldable pub erase : K → Dict K V → Dict K V
  erase k [] = []
  erase k ((j, w) ∷ d) = let rest = erase k d in if j == k then rest else (j, w) ∷ rest

  pub lookup-insert :
      (k j : K) (v : V) (d : Dict K V)
      → lookup j (insert k v d) ≡ (if k == j then some v else lookup j d)
  unfolding lookup insert
  lookup-insert k j v [] = refl
  lookup-insert k j v ((i, w) ∷ d) =
      ground (arith, e.same_iff k j, e.same_iff i k, e.same_iff i j, lookup-insert k j v d)

  pub lookup-insert_same : (k : K) (v : V) (d : Dict K V) → lookup k (insert k v d) ≡ some v
  lookup-insert_same k v d = ground (arith, lookup-insert k k v d, e.same_iff k k)

  pub length-erase : (k : K) (d : Dict K V) → length (erase k d) ≤ length d
  unfolding erase
  length-erase k [] = omega arith
  length-erase k ((j, w) ∷ d) = ground (arith, length-erase k d)

  pub lookup-erase :
      (k j : K) (d : Dict K V) → lookup j (erase k d) ≡ (if k == j then none else lookup j d)
  unfolding lookup erase
  lookup-erase k j [] = ground arith
  lookup-erase k j ((i, w) ∷ d) =
      ground (arith, e.same_iff k j, e.same_iff i k, e.same_iff i j, lookup-erase k j d)

  pub length-insert :
      (k : K) (v : V) (d : Dict K V)
      → length (insert k v d) ≡ (if contains k d then length d else suc (length d))
  unfolding lookup insert
  length-insert k v [] = refl
  length-insert k v ((i, w) ∷ d) = ground (arith, length-insert k v d)

  -- a key stands once, as in every Python dict
  abbrev pub IsDict : Dict K V → Type κ
  IsDict [] = Unit
  IsDict ((k, v) ∷ d) = (lookup k d ≡ none) × IsDict d

  pub insert-IsDict : (k : K) (v : V) (d : Dict K V) → IsDict d → IsDict (insert k v d)
  unfolding insert lookup
  insert-IsDict k v [] h = (refl, tt)
  insert-IsDict k v ((j, w) ∷ d) h = elim (Bool-cases (j == k)) [
    | inl known ↦ rw known (subst (λ i. lookup i d ≡ none) ((e.same_iff j k).0 known) h.0, h.1)
    | inr other ↦ rw other (
      ground (arith, lookup-insert k j v d, e.same_iff j k, e.same_iff k j, h.0),
      insert-IsDict k v d h.1,
    )
  ]
