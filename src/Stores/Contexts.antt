-- ===== src/Stores/Contexts.antt =====
-- The bound and the checks of DailyContextStore (kis_trend_atr_trading/engine/pullback_pipeline_stores.py).
use kis_api_trend_atr.Base.{
  ℕ, ◌+◌, ◌≤◌, ◌<◌, ◌≡◌, ◌↔◌, ◌⊎◌, inl, inr, refl, Bool, true, false, ◌||◌, Option, none, some, [],
  ◌∷◌, ◌++◌, if◌then◌else◌, leb, arith, length, length-append, Option-cases,
}
use kis_api_trend_atr.Base.Eq.{◌==◌}
use kis_api_trend_atr.Base.Dict.{Dict, lookup, erase, lookup-erase, length-erase}
use kis_api_trend_atr.Base.Text.{Text, zfill, text_keyed, text_beq_iff}
use kis_api_trend_atr.Stores.{
  DailyContext, DailyContextStore, valid, evict, upsert_context, get_context, validate,
  get_validated,
}

-- There was a refresh, and it is within the limit; a limit of zero is none.
abbrev pub is_recent : ℕ → ℕ → Option ℕ → Bool
is_recent stale_after now none = false
is_recent stale_after now (some at) = leb stale_after 0 || leb now (at + stale_after)

module _ {A : Type 0} where
  lookup-append_last :
      (k j : Text) (c : DailyContext A) (d : Dict Text (DailyContext A))
      → lookup k (d ++ (j, c) ∷ [])
        ≡ (elim (lookup k d) [ none ↦ (if j == k then some c else none) | some x ↦ some x ])
  unfolding lookup
  lookup-append_last k j c [] = refl
  lookup-append_last k j c ((i, x) ∷ d) = ground (arith, lookup-append_last k j c d)

  length-evict : (n : ℕ) (d : Dict Text (DailyContext A)) → length (evict n d) ≤ n
  unfolding evict
  length-evict n [] = omega arith
  length-evict n (item ∷ items) = ground (arith, length-evict n items)

  evict_small : (n : ℕ) (d : Dict Text (DailyContext A)) → length d ≤ n → evict n d ≡ d
  unfolding evict
  evict_small n [] h = refl
  evict_small n (item ∷ items) h = ground (arith, h)

  -- the last item survives
  lookup-evict_last :
      (n : ℕ) (k : Text) (c : DailyContext A) (d : Dict Text (DailyContext A))
      → 1 ≤ n
      → lookup k d ≡ none
      → lookup k (evict n (d ++ (k, c) ∷ [])) ≡ some c
  unfolding evict lookup
  lookup-evict_last n k c [] h e = ground (arith, h, text_beq_iff k k)
  lookup-evict_last n k c ((i, x) ∷ d) h e =
      ground (arith, e, lookup-evict_last n k c d h, lookup-append_last k k c d, text_beq_iff k k)

  upserted_other :
      (c : DailyContext A) (s : DailyContextStore A) (symbol : Text)
      → length s.contexts < s.max_symbols
      → (zfill 6 c.symbol == zfill 6 symbol) ≡ false
      → get_context symbol (upsert_context c s) ≡ get_context symbol s
  unfolding upsert_context get_context
  upserted_other c s symbol room other =
      let k = zfill 6 c.symbol in
      let others = erase k s.contexts in
      let fits : length (others ++ (k, c) ∷ []) ≤ s.max_symbols =
        omega (arith, length-append others ((k, c) ∷ []), length-erase k s.contexts) in
      rw (evict_small s.max_symbols (others ++ (k, c) ∷ []) fits) (
        ground (
          arith,
          other,
          lookup-append_last (zfill 6 symbol) k c others,
          lookup-erase k (zfill 6 symbol) s.contexts,
        ))

  -- For a bound of one or more, which the store is made with: whatever was stored before, the store is
  -- within its bound after an upsert, the context that was
  -- stored is found, and as long as there is room for it every other context is found as before.
  pub upsert_context-bounded :
      (c : DailyContext A) (s : DailyContextStore A)
      → 1 ≤ s.max_symbols
      → let s' = upsert_context c s in
        (length s'.contexts ≤ s'.max_symbols)
        × (get_context c.symbol s' ≡ some c)
        × (length s.contexts < s.max_symbols
            → (symbol : Text) → (zfill 6 c.symbol == zfill 6 symbol) ≡ false
            → get_context symbol s' ≡ get_context symbol s)
  unfolding upsert_context get_context
  upsert_context-bounded c s h = (
    length-evict s.max_symbols _,
    lookup-evict_last s.max_symbols (zfill 6 c.symbol) c (erase (zfill 6 c.symbol) s.contexts) h (
        ground (
          arith,
          lookup-erase (zfill 6 c.symbol) (zfill 6 c.symbol) s.contexts,
          text_beq_iff (zfill 6 c.symbol) (zfill 6 c.symbol),
        )),
    λ room symbol other. upserted_other c s symbol room other,
  )

  -- A context is valid exactly when it is stored, is of the expected date and version where these are
  -- given, was refreshed, and not longer ago than allowed where a limit is given.
  pub get_validated_iff :
      (symbol date version : Text) (stale_after now : ℕ) (s : DailyContextStore A)
      (c : DailyContext A)
      → (get_validated symbol date version stale_after now s ≡ valid c) ↔ (
          (get_context symbol s ≡ some c)
          × ((date ≡ []) ⊎ (c.trade_date ≡ date))
          × ((version ≡ []) ⊎ (c.context_version ≡ version))
          × (is_recent stale_after now c.refreshed_at ≡ true))
  unfolding get_validated validate
  get_validated_iff symbol date version stale_after now s c =
      elim (Option-cases (get_context symbol s)) [
        | inl e ↦ ground (arith, e)
        | inr (x, e) ↦
            ground
              (arith, e, text_beq_iff x.trade_date date, text_beq_iff x.context_version version)
      ]
