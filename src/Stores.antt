-- ===== src/Stores.antt =====
-- The stores of kis_trend_atr_trading/engine/pullback_pipeline_stores.py beside the entry queue. Each
-- method holds the store's lock throughout. A date is a text, a moment a number of microseconds.
pub mod Contexts
pub mod Candidates
pub mod Dirty
pub mod AccountRisk
use kis_api_trend_atr.Base.{
  ℕ, ◌+◌, ◌-◌, Bool, true, false, not, ◌&&◌, ◌||◌, Option, none, some, List, [], ◌∷◌, ◌++◌,
  if◌then◌else◌, ltb, leb, eqb, max, length, take, drop,
}
use kis_api_trend_atr.Base.Eq.{◌==◌}
use kis_api_trend_atr.Base.Dict.{Dict, lookup, insert, erase, contains}
use kis_api_trend_atr.Base.Int.{ℤ, at_least}
use kis_api_trend_atr.Base.Text.{Text, codes, zfill, text_keyed, text_before}

-- what the store reads of a candidate; the rest of it is `A`
pub record Candidate (A : Type 0) : Type 0 where
  pub symbol : Text
  pub expires_at : Option ℕ
  pub rest : A

abbrev pub ArmedCandidateStore : Type 0 → Type 0
ArmedCandidateStore A = Dict Text (Candidate A)

module _ {A : Type 0} where
  unfoldable pub upsert_candidate : Candidate A → ArmedCandidateStore A → ArmedCandidateStore A
  upsert_candidate c d = insert (zfill 6 c.symbol) c d

  unfoldable pub get_candidate : Text → ArmedCandidateStore A → Option (Candidate A)
  get_candidate symbol d = lookup (zfill 6 symbol) d

  unfoldable pub remove_candidate :
      Text → ArmedCandidateStore A → ArmedCandidateStore A × Option (Candidate A)
  remove_candidate symbol d = (erase (zfill 6 symbol) d, lookup (zfill 6 symbol) d)

  unfoldable pub is_expired : ℕ → Candidate A → Bool
  is_expired now c = elim c.expires_at [ none ↦ false | some at ↦ leb at now ]

  -- The loop over a copy of the items; the key of an expired one is popped from the dict itself.
  unfoldable pub pop_items :
      ℕ
      → Dict Text (Candidate A)
      → ArmedCandidateStore A
      → ArmedCandidateStore A × List (Candidate A)
  pop_items now [] d = (d, [])
  pop_items now ((symbol, c) ∷ items) d = elim (is_expired now c) [
    | false ↦ pop_items now items d
    | true ↦
        let (d', removed) = pop_items now items (erase symbol d) in
        (d', elim (lookup symbol d) [ none ↦ removed | some popped ↦ popped ∷ removed ])
  ]

  unfoldable pub pop_expired :
      ℕ → ArmedCandidateStore A → ArmedCandidateStore A × List (Candidate A)
  pop_expired now d = pop_items now d d

  unfoldable pub cleanup_expired : ℕ → ArmedCandidateStore A → ArmedCandidateStore A × ℕ
  cleanup_expired now d = let (d', removed) = pop_expired now d in (d', length removed)

pub record DailyContext (A : Type 0) : Type 0 where
  pub symbol : Text
  pub trade_date : Text
  pub context_version : Text
  -- none if it is no datetime
  pub refreshed_at : Option ℕ
  pub rest : A

pub record DailyContextStore (A : Type 0) : Type 0 where
  pub max_symbols : ℕ
  -- the oldest first
  pub contexts : Dict Text (DailyContext A)

pub data Problem : Type 0 where
  missing trade_date_mismatch version_mismatch stale : Problem

pub data Validated (A : Type 0) : Type 0 where
  valid : DailyContext A → Validated A
  problem : Problem → Validated A

abbrev is_given : Text → Bool
is_given [] = false
is_given (c ∷ s) = true

module _ {A : Type 0} where
  unfoldable pub new_context_store : ℕ → DailyContextStore A
  new_context_store max_symbols = record { max_symbols = max max_symbols 1; contexts = [] }

  -- `popitem(last=False)` until the store is within its bound
  unfoldable pub evict : ℕ → Dict Text (DailyContext A) → Dict Text (DailyContext A)
  evict max_symbols [] = []
  evict max_symbols (item ∷ items) =
      let rest = evict max_symbols items in
      if ltb max_symbols (length (item ∷ items)) then rest else item ∷ items

  -- A context that is known moves to the end.
  unfoldable pub upsert_context : DailyContext A → DailyContextStore A → DailyContextStore A
  upsert_context c s =
      let symbol = zfill 6 c.symbol in
      record s { contexts = evict s.max_symbols (erase symbol s.contexts ++ (symbol, c) ∷ []) }

  unfoldable pub get_context : Text → DailyContextStore A → Option (DailyContext A)
  get_context symbol s = lookup (zfill 6 symbol) s.contexts

  -- an expectation that is empty or None is not tested
  unfoldable pub validate : Text → Text → ℕ → ℕ → DailyContext A → Validated A
  validate expected_trade_date expected_version stale_after now c =
      if is_given expected_trade_date && not (c.trade_date == expected_trade_date)
      then problem trade_date_mismatch
      else if is_given expected_version && not (c.context_version == expected_version)
      then problem version_mismatch
      else elim c.refreshed_at [
        | none ↦ problem stale
        | some at ↦
            if ltb 0 stale_after && ltb stale_after (now - at) then problem stale else valid c
      ]

  unfoldable pub get_validated : Text → Text → Text → ℕ → ℕ → DailyContextStore A → Validated A
  get_validated symbol expected_trade_date expected_version stale_after now s =
      elim (get_context symbol s) [
        | none ↦ problem missing
        | some c ↦ validate expected_trade_date expected_version stale_after now c
      ]

-- A Python set of codes as a list of distinct codes.
abbrev pub DirtySymbolSet : Type 0
DirtySymbolSet = List Text

unfoldable pub is_dirty : Text → DirtySymbolSet → Bool
is_dirty code [] = false
is_dirty code (k ∷ codes) = k == code || is_dirty code codes

unfoldable pub mark : Text → DirtySymbolSet → DirtySymbolSet
mark symbol s =
    let code = zfill 6 symbol in
    if not (is_given code) then s else if is_dirty code s then s else code ∷ s

-- `sorted(...)`
unfoldable pub insert_code : Text → List Text → List Text
insert_code code [] = code ∷ []
insert_code code (k ∷ codes) =
    let rest = insert_code code codes in if text_before code k then k ∷ rest else code ∷ k ∷ codes

unfoldable pub sort_codes : List Text → List Text
unfolding insert_code
sort_codes [] = []
sort_codes (k ∷ codes) = insert_code k (sort_codes codes)

-- the set without the codes of a list
unfoldable pub discard_all : List Text → DirtySymbolSet → DirtySymbolSet
discard_all drained [] = []
discard_all drained (k ∷ codes) =
    let rest = discard_all drained codes in if is_dirty k drained then rest else k ∷ rest

unfoldable pub drain : Option ℤ → DirtySymbolSet → DirtySymbolSet × List Text
drain max_items s =
    let symbols = sort_codes s in
    let drained : List Text = elim max_items [
      | none ↦ symbols
      | some n ↦ take (at_least 0 n) symbols
    ] in
    (discard_all drained s, drained)
