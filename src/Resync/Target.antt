-- ===== src/Resync/Target.antt =====
-- The holding that `_resolve_target_holding` picks (kis_trend_atr_trading/engine/order_synchronizer.py): it is
-- one of the account's.
use kis_api_trend_atr.Base.{
  ◌≡◌, refl, ap, sym, ◌∙◌, true, false, Option, none, some, [], ◌∷◌, Bool-cases, inl, inr,
}
use kis_api_trend_atr.Base.Dict.{Dict, lookup}
use kis_api_trend_atr.Base.Text.{Text, strip, text_keyed, text_beq_iff}
use kis_api_trend_atr.Trading.{is_blank}
use kis_api_trend_atr.Resync.{
  Holding, resolve_target_holding, only_entry, entry_at, named, or_only, untargeted,
}
use kis_api_trend_atr.Resync.Database.Mirror.{held}

-- A holding that was resolved is one of the account's, and the target's if there is a target.
abbrev pub IsTarget : Text → Dict Text Holding → Option (Text × Holding) → Type 0
IsTarget target holdings none = Unit {0}
IsTarget target holdings (some (symbol, h)) =
    (held (lookup symbol holdings) ≡ some h.qty) × (is_blank target ≡ false → symbol ≡ target)

named-IsTarget :
    (target symbol : Text) (holdings : Dict Text Holding) (o : Option Holding)
    → lookup symbol holdings ≡ o
    → (is_blank target ≡ false → symbol ≡ target)
    → IsTarget target holdings (named symbol o)
unfolding named
named-IsTarget target symbol holdings none e own = tt
named-IsTarget target symbol holdings (some h) e own = (ap held e, own)

pub false_ne_true : false ≡ true → ⊥
false_ne_true h = cc

only_entry-IsTarget :
    (target : Text) (holdings : Dict Text Holding)
    → is_blank target ≡ true
    → IsTarget target holdings (only_entry holdings)
unfolding only_entry lookup
only_entry-IsTarget target [] b = tt
only_entry-IsTarget target ((symbol, h) ∷ []) b =
    (rw ((text_beq_iff symbol symbol).1 refl) refl, λ n. absurd (false_ne_true (sym n ∙ b)))
only_entry-IsTarget target (e ∷ e' ∷ rest) b = tt

or_only-IsTarget :
    (target : Text) (holdings : Dict Text Holding) (o : Option (Text × Holding))
    → is_blank target ≡ true
    → IsTarget target holdings o
    → IsTarget target holdings (or_only holdings o)
unfolding or_only
or_only-IsTarget target holdings none b h = only_entry-IsTarget target holdings b
or_only-IsTarget target holdings (some entry) b h = h

untargeted-IsTarget :
    (target : Text) (holdings : Dict Text Holding) (code : Option Text)
    → is_blank target ≡ true
    → IsTarget target holdings (untargeted holdings code)
unfolding untargeted entry_at
untargeted-IsTarget target holdings none b = or_only-IsTarget target holdings none b tt
untargeted-IsTarget target holdings (some code) b = elim (Bool-cases (is_blank (strip code))) [
  | inl e ↦ rw e (or_only-IsTarget target holdings none b tt)
  | inr e ↦ rw e (
      or_only-IsTarget target holdings (entry_at (strip code) holdings) b (
        named-IsTarget target (strip code) holdings (lookup (strip code) holdings) refl
          (λ n. absurd (false_ne_true (sym n ∙ b)))))
]

pub resolve-IsTarget :
    (target : Text) (holdings : Dict Text Holding) (code : Option Text)
    → IsTarget target holdings (resolve_target_holding target holdings code)
unfolding resolve_target_holding entry_at
resolve-IsTarget target holdings code = elim (Bool-cases (is_blank target)) [
  | inl b ↦ rw b (untargeted-IsTarget target holdings code b)
  | inr n ↦ rw n (named-IsTarget target target holdings (lookup target holdings) refl (λ _. refl))
]
