-- ===== src/Positions/Restore.antt =====
-- `PositionManager.restore_from_api`: the held positions against the account's holdings. The API's
-- answer is an argument, with each holding's code and quantity; `none` is a failed request.
use mathlib.Core.Path.{subst}
use kis_api_trend_atr.Base.{
  ℕ, ◌≡◌, refl, ap, ◌∙◌, ◌&&◌, sym, Bool, true, false, Option, none, some, List, [], ◌∷◌, ◌++◌,
  arith, if◌then◌else◌, ltb, eqb, eqb_iff, inl, inr, Bool-cases, Option-cases,
}
use kis_api_trend_atr.Base.Dict.{Dict, lookup, insert, contains, lookup-insert}
use kis_api_trend_atr.Base.Eq.{◌==◌}
use kis_api_trend_atr.Base.Text.{Text, text_keyed, text_beq_iff}
use kis_api_trend_atr.Positions.{ManagedPosition, PositionManager, save_positions}

-- the quantities above zero, by code; the last of a code wins
unfoldable pub api_stocks : Dict Text ℕ → List (Text × ℕ) → Dict Text ℕ
api_stocks found [] = found
api_stocks found ((code, quantity) ∷ holdings) =
    api_stocks (if ltb 0 quantity then insert code quantity found else found) holdings

-- The quantity of the last row of a code that is above zero.
abbrev pub last_quantity : Text → List (Text × ℕ) → Option ℕ
last_quantity code [] = none
last_quantity code ((c, quantity) ∷ rows) = elim (last_quantity code rows) [
  | some later ↦ some later
  | none ↦ if c == code && ltb 0 quantity then some quantity else none
]

-- `api_stocks` from `found` on.
lookup-api_stocks :
    (code : Text) (found : Dict Text ℕ) (rows : List (Text × ℕ))
    → lookup code (api_stocks found rows) ≡ (elim (last_quantity code rows) [
      | some quantity ↦ some quantity
      | none ↦ lookup code found
    ])
unfolding api_stocks
lookup-api_stocks code found [] = refl
lookup-api_stocks code found ((c, quantity) ∷ rows) = elim (Bool-cases (ltb 0 quantity)) [
  | inl some_held ↦ ground (
    arith,
    lookup-api_stocks code (insert c quantity found) rows,
    lookup-insert c code quantity found,
  )
  | inr nothing_held ↦ ground (arith, lookup-api_stocks code found rows)
]

lookup-restored_stocks :
    (code : Text) (rows : List (Text × ℕ))
    → lookup code (api_stocks [] rows) ≡ last_quantity code rows
unfolding lookup
lookup-restored_stocks code rows = ground (arith, lookup-api_stocks code [] rows)

module _ {A : Type 0} where
  abbrev synced : ManagedPosition A → ℕ → ManagedPosition A
  synced p quantity = if eqb quantity p.quantity then p else record p { quantity = quantity }

  -- the first loop, with `auto_sync`
  pub sync_positions : Dict Text ℕ → Dict Text (ManagedPosition A) → Dict Text (ManagedPosition A)
  sync_positions stocks [] = []
  sync_positions stocks ((code, p) ∷ positions) =
      let rest = sync_positions stocks positions in
      elim (lookup code stocks) [ none ↦ rest | some quantity ↦ (code, synced p quantity) ∷ rest ]

  pub restored_codes : Dict Text ℕ → Dict Text (ManagedPosition A) → List Text
  restored_codes stocks [] = []
  restored_codes stocks ((code, p) ∷ positions) =
      let rest = restored_codes stocks positions in
      if contains code stocks then code ∷ rest else rest

  -- of the first loop: other quantities and positions without a holding
  pub mismatched_codes : Dict Text ℕ → Dict Text (ManagedPosition A) → List Text
  mismatched_codes stocks [] = []
  mismatched_codes stocks ((code, p) ∷ positions) =
      let rest = mismatched_codes stocks positions in
      elim (lookup code stocks) [
        | none ↦ code ∷ rest
        | some quantity ↦ if eqb quantity p.quantity then rest else code ∷ rest
      ]

  -- the second loop: holdings without a position
  pub unrecorded_codes : Dict Text (ManagedPosition A) → Dict Text ℕ → List Text
  unrecorded_codes positions [] = []
  unrecorded_codes positions ((code, quantity) ∷ stocks) =
      let rest = unrecorded_codes positions stocks in
      if contains code positions then rest else code ∷ rest

  pub restore_from_api :
      PositionManager A
      → Option (List (Text × ℕ))
      → Bool
      → PositionManager A × (List Text × List Text)
  unfolding sync_positions restored_codes mismatched_codes unrecorded_codes api_stocks
  restore_from_api m none auto_sync = (m, ([], []))
  restore_from_api m (some holdings) auto_sync =
      let stocks = api_stocks [] holdings in
      let positions = if auto_sync then sync_positions stocks m.positions else m.positions in
      (
        save_positions (record m { positions = positions }),
        (
          restored_codes stocks m.positions,
          mismatched_codes stocks m.positions ++ unrecorded_codes positions stocks,
        ),
      )

  -- What a sync leaves of one code.
  abbrev pub agreed : Option (ManagedPosition A) → Option ℕ → Option (ManagedPosition A)
  agreed none _ = none
  agreed (some p) none = none
  agreed (some p) (some quantity) = some (record p { quantity = quantity })

  synced_lem :
      (p : ManagedPosition A) (quantity : ℕ) → synced p quantity ≡ record p { quantity = quantity }
  synced_lem p quantity = elim (Bool-cases (eqb quantity p.quantity)) [
    | inl e ↦
        rw e (
          subst (λ n. p ≡ record p { quantity = n }) (sym ((eqb_iff quantity p.quantity).0 e)) refl)
    | inr e ↦ rw e refl
  ]

  lookup-sync_positions :
      (stocks : Dict Text ℕ) (positions : Dict Text (ManagedPosition A)) (code : Text)
      → lookup code (sync_positions stocks positions)
        ≡ agreed (lookup code positions) (lookup code stocks)
  unfolding lookup sync_positions
  lookup-sync_positions stocks [] code = refl
  lookup-sync_positions stocks ((k, p) ∷ positions) code =
      let rest = lookup-sync_positions stocks positions code in
      elim (Option-cases (lookup k stocks)) [
        | inl e ↦ ground (arith, e, text_beq_iff k code, rest)
        | inr (n, e) ↦ ground (arith, e, text_beq_iff k code, synced_lem p n, rest)
      ]

  -- A sync with the account keeps exactly the positions whose code has a row with a quantity above zero in
  -- the account's answer, each with the quantity of the last such row and its terms as they were, and
  -- saves them; without `auto_sync`, or where the request failed, no position changes.
  pub restore_from_api-agreed :
      (m : PositionManager A) (holdings : List (Text × ℕ)) (code : Text)
      → let m' = (restore_from_api m (some holdings) true).0 in
        (lookup code m'.positions ≡ agreed (lookup code m.positions) (last_quantity code holdings))
        × (m'.file ≡ (m'.positions, m'.closed_positions))
        × ((restore_from_api m (some holdings) false).0.positions ≡ m.positions)
        × ((auto_sync : Bool) → (restore_from_api m none auto_sync).0 ≡ m)
  unfolding restore_from_api
  restore_from_api-agreed m holdings code = (
    lookup-sync_positions (api_stocks [] holdings) m.positions code
        ∙ ap (agreed (lookup code m.positions)) (lookup-restored_stocks code holdings),
    refl,
    refl,
    λ auto_sync. refl,
  )
