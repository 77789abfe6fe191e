-- ===== src/Base/Eq.antt =====
-- Types whose equality Python's `==` decides: dict keys and the items that are looked for.
use Prim.Native.Nat.{ℕ}
use mathlib.Core.Path.{◌≡◌}
use mathlib.Core.Bool.{Bool, true, ◌&&◌}
use mathlib.Core.Logic.{◌↔◌}
use native.Mathlib.Omega.{arith}
use kis_api_trend_atr.Base.Tests.{eqb, eqb_iff}

pub record Keyed {κ} (K : Type κ) : Type κ where
  -- `a == b`
  pub same : K → K → Bool
  pub same_iff : (j k : K) → (same j k ≡ true) ↔ (j ≡ k)

infix 50 ◌==◌
abbrev pub ◌==◌ {κ} : {K : Type κ} ⦃keyed : Keyed K⦄ → K → K → Bool
◌==◌ ⦃keyed⦄ j k = keyed.same j k

instance abbrev pub nat_keyed : Keyed ℕ
nat_keyed = record { same = eqb; same_iff = eqb_iff }

-- A tuple of two keys is a key.
abbrev pub same_pair {κ μ} :
    {K : Type κ} {L : Type μ} ⦃k : Keyed K⦄ ⦃l : Keyed L⦄ → K × L → K × L → Bool
same_pair ⦃k⦄ ⦃l⦄ (a, b) (c, d) = k.same a c && l.same b d

pub same_pair_iff {κ μ} :
    {K : Type κ} {L : Type μ} ⦃k : Keyed K⦄ ⦃l : Keyed L⦄ (p q : K × L)
    → (same_pair p q ≡ true) ↔ (p ≡ q)
same_pair_iff ⦃k⦄ ⦃l⦄ (a, b) (c, d) = ground (arith, k.same_iff a c, l.same_iff b d)

instance abbrev pub pair_keyed {κ μ} :
    {K : Type κ} {L : Type μ} ⦃k : Keyed K⦄ ⦃l : Keyed L⦄ → Keyed (K × L)
pair_keyed = record { same = same_pair; same_iff = same_pair_iff }
