-- ===== src/Stores/AccountRisk.antt =====
-- AccountRiskStore of kis_trend_atr_trading/engine/pullback_pipeline_stores.py. The account's half and
-- that of the holdings are alike: each is a `Half` over its own snapshot's content. A moment is a
-- number of microseconds.
use kis_api_trend_atr.Base.{
  ℕ, ◌-◌, ◌≡◌, ◌∙◌, ap, refl, Bool, true, false, ◌&&◌, Option, none, some, List, [], ◌∷◌,
  if◌then◌else◌, ltb, arith,
}
use kis_api_trend_atr.Base.Text.{Text}

pub record RiskSnapshot (A : Type 0) : Type 0 where
  pub success : Bool
  pub fetched_at : ℕ
  pub last_error : Text
  pub stale : Bool
  pub rest : A

pub record Half (A : Type 0) : Type 0 where
  pub snapshot : Option (RiskSnapshot A)
  pub last_success_at : Option ℕ
  pub last_error : Text

pub record AccountRiskStore (A B : Type 0) : Type 0 where
  pub account : Half A
  pub holdings : Half B

pub data Freshness : Type 0 where
  absent stale_state fresh_state : Freshness

abbrev is_given : Text → Bool
is_given [] = false
is_given (c ∷ s) = true

module _ {A : Type 0} where
  unfoldable pub empty_half : Half A
  empty_half = record { snapshot = none; last_success_at = none; last_error = [] }

  unfoldable pub replaced : RiskSnapshot A → Half A → Half A
  replaced x h =
      if x.success
      then record { snapshot = some x; last_success_at = some x.fetched_at; last_error = [] }
      else record h {
        snapshot = some x;
        last_error = if is_given x.last_error then x.last_error else h.last_error;
      }

  -- `get_account_state` and `get_holdings_state`; a limit of zero stands for none.
  unfoldable pub state_at : ℕ → ℕ → Half A → Option (RiskSnapshot A) × Freshness
  state_at ttl now h = elim h.snapshot [
    | none ↦ (none, absent)
    | some x ↦
        if ltb 0 ttl && ltb ttl (now - x.fetched_at)
        then (some (record x { stale = true }), stale_state)
        else (some (record x { stale = false }), fresh_state)
  ]

  unfoldable pub success_age : ℕ → Half A → Option ℕ
  success_age now h = elim h.last_success_at [ none ↦ none | some at ↦ some (now - at) ]

module _ {A B : Type 0} where
  unfoldable pub new_risk_store : AccountRiskStore A B
  unfolding empty_half
  new_risk_store = record { account = empty_half; holdings = empty_half }

  unfoldable pub replace_account_snapshot :
      RiskSnapshot A → AccountRiskStore A B → AccountRiskStore A B
  replace_account_snapshot x s = record s { account = replaced x s.account }

  unfoldable pub replace_holdings_snapshot :
      RiskSnapshot B → AccountRiskStore A B → AccountRiskStore A B
  replace_holdings_snapshot x s = record s { holdings = replaced x s.holdings }

module _ {A : Type 0} where
  unfoldable pub replace_all : List (RiskSnapshot A) → Half A → Half A
  replace_all [] h = h
  replace_all (x ∷ xs) h = replace_all xs (replaced x h)

  -- of the snapshots, the last that was a success
  unfoldable pub last_success : Option ℕ → List (RiskSnapshot A) → Option ℕ
  last_success before [] = before
  last_success before (x ∷ xs) = last_success (if x.success then some x.fetched_at else before) xs

  -- the last error that was named after the last success
  unfoldable pub open_error : Text → List (RiskSnapshot A) → Text
  open_error before [] = before
  open_error before (x ∷ xs) =
      open_error (if x.success then [] else if is_given x.last_error then x.last_error else before)
        xs

  replaced-success :
      (x : RiskSnapshot A) (h : Half A)
      → (replaced x h).last_success_at
        ≡ (if x.success then some x.fetched_at else h.last_success_at)
  unfolding replaced
  replaced-success x h = ground arith

  replaced-error :
      (x : RiskSnapshot A) (h : Half A)
      → (replaced x h).last_error
        ≡ (if x.success then [] else if is_given x.last_error then x.last_error else h.last_error)
  unfolding replaced
  replaced-error x h = ground arith

  -- Failed fetches keep the time of the last success, and an error stands until the next success.
  pub replace_all_lem :
      (xs : List (RiskSnapshot A)) (h : Half A)
      → ((replace_all xs h).last_success_at ≡ last_success h.last_success_at xs)
        × ((replace_all xs h).last_error ≡ open_error h.last_error xs)
  unfolding replace_all last_success open_error
  replace_all_lem [] h = (refl, refl)
  replace_all_lem (x ∷ xs) h =
      let next = replace_all_lem xs (replaced x h) in
      (
        next.0 ∙ ap (λ (o : Option ℕ). last_success o xs) (replaced-success x h),
        next.1 ∙ ap (λ (t : Text). open_error t xs) (replaced-error x h),
      )
