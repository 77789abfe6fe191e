-- ===== src/Executor/Validation/Validated.antt =====
-- What the final validation lets pass in REAL mode (kis_trend_atr_trading/engine/multiday_executor.py).
use kis_api_trend_atr.Base.{
  ◌≡◌, refl, ap, ◌⊎◌, inl, inr, true, false, Option, none, some, List, [], ◌∷◌, ◌≢◌, All,
  Bool-cases, ltb, arith, Option-cases,
}
use kis_api_trend_atr.Base.Floats.{Floats}
use kis_api_trend_atr.Base.Text.{Text, codes, strip, upper, text_beq, text_beq_iff, text_keyed}
use kis_api_trend_atr.Base.Eq.{◌==◌}
use kis_api_trend_atr.Stores.AccountRisk.{RiskSnapshot, Freshness, fresh_state, stale_state, absent}
use kis_api_trend_atr.Executor.Validation.{
  ValidationSettings, HoldingRow, Account, ApiAnswers, Store, resolve, check_holdings,
  check_account, is_short, row_symbol, extract_holding_qty, applies, is_real, is_lenient,
  find_holding_row, holdings_state, account_state, fetched_holdings, fetched_account,
  run_order_final_validation, after_holdings,
}

-- A snapshot that is fresh in the store, or has just been fetched.
abbrev pub IsCurrent :
    {X : Type 0}
    → Option (RiskSnapshot X) × Freshness
    → Option (RiskSnapshot X)
    → RiskSnapshot X
    → Type 0
IsCurrent found fetched x = (found ≡ (some x, fresh_state)) ⊎ (fetched ≡ some x)

real_not_lenient : (mode : Text) → is_real mode ≡ true → is_lenient mode ≡ false
unfolding text_beq is_real is_lenient
real_not_lenient mode real =
    let same : upper mode ≡ codes "REAL" = (text_beq_iff (upper mode) (codes "REAL")).0 real in
    rw same refl

module _ {X : Type 0} where
  resolve-IsCurrent :
      (found : Option (RiskSnapshot X) × Freshness) (fetched : Option (RiskSnapshot X))
      {x : RiskSnapshot X}
      → resolve false found fetched ≡ some x
      → IsCurrent found fetched x
  unfolding resolve
  resolve-IsCurrent (none, state) fetched h = inr h
  resolve-IsCurrent (some y, fresh_state) fetched h = inl (ap (λ o. (o, fresh_state)) h)
  resolve-IsCurrent (some y, stale_state) fetched h = inr h
  resolve-IsCurrent (some y, absent) none h = cc
  resolve-IsCurrent (some y, absent) (some z) h = inr h

-- a row that is of another code, or of nothing
abbrev pub IsOther : Text → HoldingRow → Type 0
IsOther code r = (row_symbol r ≢ strip code) ⊎ (extract_holding_qty r.quantities ≡ 0)

unfound :
    (code : Text) (rows : List HoldingRow)
    → find_holding_row code rows ≡ none
    → All (IsOther code) rows
unfolding find_holding_row
unfound code [] h = tt
unfound code (r ∷ rows) h = elim (Bool-cases (row_symbol r == strip code)) [
  | inr other ↦ (
    inl (λ e. absurd (ground (arith, other, (text_beq_iff (row_symbol r) (strip code)).1 e))),
    unfound code rows (ground (arith, other)),
  )
  | inl same ↦ elim (Bool-cases (ltb 0 (extract_holding_qty r.quantities))) [
    | inl held ↦ absurd (ground (arith, same, held))
    | inr empty ↦ (inr (ground (arith, empty)), unfound code rows (ground (arith, same, empty)))
  ]
]

holdings-checked :
    (code : Text) (o : Option (RiskSnapshot (List HoldingRow)))
    → check_holdings true code o ≡ none
    → (x : RiskSnapshot (List HoldingRow)) × (o ≡ some x) × All (IsOther code) x.rest
unfolding check_holdings
holdings-checked code none h = absurd (cc)
holdings-checked code (some x) h = elim (Option-cases (find_holding_row code x.rest)) [
  | inl absent_row ↦ (x, refl, unfound code x.rest absent_row)
  | inr (row, e) ↦ absurd (ground arith)
]

module _ {A : Type 0} ⦃f : Floats A⦄ where
  account-checked :
      (cost : A) (o : Option (RiskSnapshot (Account A)))
      → check_account true cost o ≡ none
      → (x : RiskSnapshot (Account A)) × (o ≡ some x) × (is_short cost x.rest.cash_balance ≡ false)
  unfolding check_account
  account-checked cost none h = absurd (cc)
  account-checked cost (some x) h = (x, refl, ground arith)

  -- What the snapshots show of a buy: the account holds nothing of the code, and no cash above zero
  -- that is less than the cost.
  abbrev pub IsValidated : ValidationSettings → Text → A → ApiAnswers A → Store A → Store A → Type 0
  IsValidated s code cost answers store store1 =
      ((x : RiskSnapshot (List HoldingRow)) × IsCurrent
          (holdings_state s.holdings_ttl answers.now store) (fetched_holdings answers) x
        × All (IsOther code) x.rest)
      × ((y : RiskSnapshot (Account A)) × IsCurrent
            (account_state s.account_ttl answers.account_now store1) (fetched_account answers) y
          × (is_short cost y.rest.cash_balance ≡ false))

  pub validated :
      (s : ValidationSettings) (strategy_tag code : Text) (cost : A) (answers : ApiAnswers A)
      (store : Store A)
      → applies s strategy_tag ≡ true
      → is_real s.report_mode ≡ true
      → (run_order_final_validation s strategy_tag code cost answers store).1 ≡ none
      → IsValidated s code cost answers store (after_holdings s answers store)
  unfolding run_order_final_validation
  validated s strategy_tag code cost answers store on real passed =
      let held = holdings_state s.holdings_ttl answers.now store in
      let account =
        account_state s.account_ttl answers.account_now (after_holdings s answers store) in
      let strict = real_not_lenient s.report_mode real in
      elim (Option-cases
        (check_holdings true code (resolve false held (fetched_holdings answers)))) [
          | inr (reason, e) ↦ absurd (cc (rw (on, real, strict, e) at passed))
          | inl free ↦
              let (x, found, unheld) =
                holdings-checked code (resolve false held (fetched_holdings answers)) free in
              let (y, known, covered) =
                account-checked cost (resolve false account (fetched_account answers))
                  (rw (on, real, strict, free, real, strict) at passed) in
              (
                (x, resolve-IsCurrent held (fetched_holdings answers) found, unheld),
                (y, resolve-IsCurrent account (fetched_account answers) known, covered),
              )
        ]
