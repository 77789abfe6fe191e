-- ===== src/Stores/Candidates.antt =====
-- What `pop_expired` of ArmedCandidateStore (kis_trend_atr_trading/engine/pullback_pipeline_stores.py)
-- takes out.
use kis_api_trend_atr.Base.{
  ℕ, ◌≡◌, refl, Bool, false, ◌&&◌, ◌||◌, Option, none, some, List, [], ◌∷◌, if◌then◌else◌, arith,
  Bool-cases, inl, inr,
}
use kis_api_trend_atr.Base.Eq.{◌==◌}
use kis_api_trend_atr.Base.Dict.{Dict, lookup, insert, erase, lookup-erase, lookup-insert}
use kis_api_trend_atr.Base.Text.{Text, zfill, text_keyed, text_beq_iff}
use kis_api_trend_atr.Stores.{
  Candidate, ArmedCandidateStore, upsert_candidate, get_candidate, remove_candidate, is_expired,
  pop_items, pop_expired,
}

pub data Op (A : Type 0) : Type 0 where
  upsert : Candidate A → Op A
  remove : Text → Op A
  sweep : ℕ → Op A

module _ {A : Type 0} where
  -- a dict holds a key once
  unfoldable pub HasKeysOnce : Dict Text (Candidate A) → Type 0
  HasKeysOnce [] = Unit
  HasKeysOnce ((k, c) ∷ d) = (lookup k d ≡ none) × HasKeysOnce d

  has_expired : ℕ → Text → Dict Text (Candidate A) → Bool
  has_expired now k [] = false
  has_expired now k ((j, c) ∷ d) = (is_expired now c && j == k) || has_expired now k d

  lookup-pop_items :
      (now : ℕ) (items : Dict Text (Candidate A)) (d : ArmedCandidateStore A) (k : Text)
      → lookup k (pop_items now items d).0 ≡ (if has_expired now k items then none else lookup k d)
  unfolding pop_items has_expired
  lookup-pop_items now [] d k = refl
  lookup-pop_items now ((j, c) ∷ items) d k = ground (
    arith,
    lookup-pop_items now items d k,
    lookup-pop_items now items (erase j d) k,
    lookup-erase j k d,
  )

  unfoldable pub expired_of : ℕ → Option (Candidate A) → Bool
  expired_of now none = false
  expired_of now (some c) = is_expired now c

  not_found :
      (now : ℕ) (k : Text) (d : Dict Text (Candidate A))
      → lookup k d ≡ none
      → has_expired now k d ≡ false
  unfolding lookup has_expired
  not_found now k [] e = refl
  not_found now k ((j, c) ∷ d) e = ground (arith, e, not_found now k d)

  has_expired-lookup :
      (now : ℕ) (k : Text) (d : Dict Text (Candidate A))
      → HasKeysOnce d
      → has_expired now k d ≡ expired_of now (lookup k d)
  unfolding lookup has_expired HasKeysOnce expired_of
  has_expired-lookup now k [] u = refl
  has_expired-lookup now k ((j, c) ∷ d) u =
      ground (arith, has_expired-lookup now k d u.1, not_found now k d, u.0, text_beq_iff j k)

  -- After a sweep at a moment, a symbol is found exactly as before unless its candidate has expired by
  -- then; an expired one is gone.
  pub pop_expired_lem :
      (now : ℕ) (d : ArmedCandidateStore A) (symbol : Text)
      → HasKeysOnce d
      → get_candidate symbol (pop_expired now d).0
        ≡ (if expired_of now (get_candidate symbol d) then none else get_candidate symbol d)
  unfolding pop_expired get_candidate
  pop_expired_lem now d symbol u =
      let k = zfill 6 symbol in
      ground (arith, lookup-pop_items now d d k, has_expired-lookup now k d u)

  erase-HasKeysOnce :
      (k : Text) (d : Dict Text (Candidate A)) → HasKeysOnce d → HasKeysOnce (erase k d)
  unfolding erase HasKeysOnce
  erase-HasKeysOnce k [] u = u
  erase-HasKeysOnce k ((j, c) ∷ d) u =
      ground (arith, erase-HasKeysOnce k d u.1, u.0, u.1, lookup-erase k j d)

  insert-HasKeysOnce :
      (k : Text) (v : Candidate A) (d : Dict Text (Candidate A))
      → HasKeysOnce d
      → HasKeysOnce (insert k v d)
  unfolding insert HasKeysOnce lookup
  insert-HasKeysOnce k v [] u = (refl, tt)
  insert-HasKeysOnce k v ((j, c) ∷ d) u = ground (
    arith,
    insert-HasKeysOnce k v d u.1,
    u.0,
    u.1,
    lookup-insert k j v d,
    text_beq_iff j k,
    text_beq_iff k j,
  )

  pop_items-HasKeysOnce :
      (now : ℕ) (items : Dict Text (Candidate A)) (d : ArmedCandidateStore A)
      → HasKeysOnce d
      → HasKeysOnce (pop_items now items d).0
  unfolding pop_items
  pop_items-HasKeysOnce now [] d u = u
  pop_items-HasKeysOnce now ((j, c) ∷ items) d u = elim (Bool-cases (is_expired now c)) [
    | inl e ↦
        rw (e, pop_items) (pop_items-HasKeysOnce now items (erase j d) (erase-HasKeysOnce j d u))
    | inr e ↦ rw (e, pop_items) (pop_items-HasKeysOnce now items d u)
  ]

  unfoldable pub run : List (Op A) → ArmedCandidateStore A → ArmedCandidateStore A
  run [] d = d
  run (upsert c ∷ ops) d = run ops (upsert_candidate c d)
  run (remove symbol ∷ ops) d = run ops (remove_candidate symbol d).0
  run (sweep now ∷ ops) d = run ops (pop_expired now d).0

  run-HasKeysOnce :
      (ops : List (Op A)) (d : ArmedCandidateStore A) → HasKeysOnce d → HasKeysOnce (run ops d)
  unfolding run upsert_candidate remove_candidate pop_expired
  run-HasKeysOnce [] d u = u
  run-HasKeysOnce (upsert c ∷ ops) d u =
      run-HasKeysOnce ops (upsert_candidate c d) (insert-HasKeysOnce (zfill 6 c.symbol) c d u)
  run-HasKeysOnce (remove symbol ∷ ops) d u =
      run-HasKeysOnce ops (remove_candidate symbol d).0 (erase-HasKeysOnce (zfill 6 symbol) d u)
  run-HasKeysOnce (sweep now ∷ ops) d u =
      run-HasKeysOnce ops (pop_expired now d).0 (pop_items-HasKeysOnce now d d u)

  -- In a store that came about by any calls from the empty one, a sweep takes out the candidates that
  -- have expired by its moment and no others: each symbol is found as before or, expired, not at all.
  pub sweep_after_run :
      (ops : List (Op A)) (now : ℕ) (symbol : Text)
      → let d = run ops [] in
        get_candidate symbol (pop_expired now d).0
        ≡ (if expired_of now (get_candidate symbol d) then none else get_candidate symbol d)
  unfolding HasKeysOnce
  sweep_after_run ops now symbol =
      pop_expired_lem now (run ops []) symbol (run-HasKeysOnce ops [] tt)
