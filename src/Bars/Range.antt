-- ===== src/Bars/Range.antt =====
-- The range of a bar of kis_trend_atr_trading/adapters/kis_ws/bar_aggregator.py.
use mathlib.Core.Path.{subst}
use kis_api_trend_atr.Base.{◌≡◌, false, List, [], ◌∷◌, foldl, arith, All}
use kis_api_trend_atr.Base.Floats.{Floats, lt_asymm, lt_trans_not, not_lt_trans}
use kis_api_trend_atr.Bars.{MarketTick, larger, smaller, new_bar}
use kis_api_trend_atr.Bars.Groups.{bar_of, prices, extend_all, bar_of-extend_all}

module _ {A : Type 0} ⦃f : Floats A⦄ where
  larger-lt_left : (a b : A) → f.lt (larger a b) a ≡ false
  unfolding larger
  larger-lt_left a b = ground (arith, lt_asymm a b, f.lt_irrefl a)

  larger-lt_right : (a b : A) → f.lt (larger a b) b ≡ false
  unfolding larger
  larger-lt_right a b = ground (arith, f.lt_irrefl b)

  larger-lt : (a b c : A) → f.lt a c ≡ false → f.lt (larger a b) c ≡ false
  unfolding larger
  larger-lt a b c h = ground (arith, lt_trans_not a b c)

  smaller-lt : (a b c : A) → f.lt c a ≡ false → f.lt c (smaller a b) ≡ false
  unfolding smaller
  smaller-lt a b c h = ground (arith, not_lt_trans a b c)

  smaller-lt_right : (a b : A) → f.lt b (smaller a b) ≡ false
  unfolding smaller
  smaller-lt_right a b = ground (arith, f.lt_irrefl b)

  foldl-larger : (a c : A) (ps : List A) → f.lt a c ≡ false → f.lt (foldl larger a ps) c ≡ false
  foldl-larger a c [] h = h
  foldl-larger a c (p ∷ ps) h = foldl-larger (larger a p) c ps (larger-lt a p c h)

  foldl-smaller : (a c : A) (ps : List A) → f.lt c a ≡ false → f.lt c (foldl smaller a ps) ≡ false
  foldl-smaller a c [] h = h
  foldl-smaller a c (p ∷ ps) h = foldl-smaller (smaller a p) c ps (smaller-lt a p c h)

  abbrev pub IsInside : A → A → A → Type 0
  IsInside low high p = (f.lt p low ≡ false) × (f.lt high p ≡ false)

  All-IsInside :
      (l h : A) (ps : List A) → All (IsInside (foldl smaller l ps) (foldl larger h ps)) ps
  All-IsInside l h [] = tt
  All-IsInside l h (p ∷ ps) = (
    (
      foldl-smaller (smaller l p) p ps (smaller-lt_right l p),
      foldl-larger (larger h p) p ps (larger-lt_right h p),
    ),
    All-IsInside (smaller l p) (larger h p) ps,
  )

  bar_of-IsInside :
      (t : MarketTick A) (ts : List (MarketTick A))
      → All (IsInside (bar_of (t, ts)).low (bar_of (t, ts)).high) (prices (t ∷ ts))
  unfolding bar_of
  bar_of-IsInside t ts = (
    (
      foldl-smaller t.price t.price (prices ts) (f.lt_irrefl t.price),
      foldl-larger t.price t.price (prices ts) (f.lt_irrefl t.price),
    ),
    All-IsInside t.price t.price (prices ts),
  )

  -- No price of the ticks of a bar is below its low or above its high, NaN or not.
  pub extend_all-IsInside :
      (t : MarketTick A) (ts : List (MarketTick A))
      → let b = extend_all (new_bar t) ts in All (IsInside b.low b.high) (prices (t ∷ ts))
  extend_all-IsInside t ts =
      subst (λ b. All (IsInside b.low b.high) (prices (t ∷ ts))) (bar_of-extend_all t ts)
        (bar_of-IsInside t ts)
