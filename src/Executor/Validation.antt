-- ===== src/Executor/Validation.antt =====
-- What `execute_buy` of MultidayExecutor (kis_trend_atr_trading/engine/multiday_executor.py) checks besides
-- the other components: `_run_order_final_validation` on snapshots of the account, and the guards on the
-- market's regime and on the age of the quote. What the API answers is an argument; a snapshot's version,
-- the notes in the signal's `meta` and the events for the analytics are left out.
pub mod Validated
use kis_api_trend_atr.Base.{
  ℕ, ◌&&◌, ◌||◌, not, Bool, true, false, Option, none, some, List, [], ◌∷◌, if◌then◌else◌, is_some,
  ltb,
}
use kis_api_trend_atr.Base.Eq.{◌==◌}
use kis_api_trend_atr.Base.Floats.{Floats}
use kis_api_trend_atr.Base.Int.{ℤ, at_least}
use kis_api_trend_atr.Base.Text.{Text, codes, strip, lower, upper, text_keyed}
use kis_api_trend_atr.Trading.{is_zero, is_blank}
use kis_api_trend_atr.Resync.{max_of}
use kis_api_trend_atr.Stores.AccountRisk.{
  RiskSnapshot, AccountRiskStore, Freshness, absent, stale_state, fresh_state, state_at,
  replace_account_snapshot, replace_holdings_snapshot,
}

-- one value of a holding's row, as `int(float(...))` reads it
pub data QtyValue : Type 0 where
  missing unreadable : QtyValue
  read_qty : ℤ → QtyValue

-- a row of the account's holdings, with the values under the keys that may hold the quantity
pub record HoldingRow : Type 0 where
  pub stock_code : Text
  pub pdno : Text
  pub symbol : Text
  pub quantities : List QtyValue

-- the balance as the API gives it; zero and a missing value are alike
pub record BalancePayload (A : Type 0) : Type 0 where
  pub success : Bool
  pub total_eval : Option A
  pub total_equity : Option A
  pub cash_balance : Option A
  pub cash : Option A
  pub total_pnl : Option A

pub record Account (A : Type 0) : Type 0 where
  pub total_eval : A
  pub cash_balance : A
  pub total_pnl : A

pub data Regime : Type 0 where
  good neutral bad : Regime

pub record RegimeSnapshot : Type 0 where
  pub regime : Regime
  pub is_stale : Bool

pub record RegimeSettings : Type 0 where
  pub filter_enabled : Bool
  pub fail_open : Bool
  pub bad_blocks : Bool
  pub neutral_allows : Bool

-- the part of a quote that tells its age; `none` is infinite
pub record QuoteAge (A : Type 0) : Type 0 where
  pub data_feed : Text
  pub source : Text
  pub ws_connected : Bool
  pub age_sec : Option A

pub record ValidationSettings : Type 0 where
  pub report_mode : Text
  pub risk_snapshot_enabled : Bool
  pub final_validation_mode : Text
  pub account_ttl : ℕ
  pub holdings_ttl : ℕ

pub data ValidationBlock : Type 0 where
  holdings_snapshot_unavailable existing_position_snapshot account_snapshot_unavailable :
      ValidationBlock
  insufficient_cash_snapshot : ValidationBlock

-- `_extract_holding_qty`: the first value that can be read
unfoldable pub extract_holding_qty : List QtyValue → ℕ
extract_holding_qty [] = 0
extract_holding_qty (read_qty n ∷ rest) = at_least 0 n
extract_holding_qty (missing ∷ rest) = extract_holding_qty rest
extract_holding_qty (unreadable ∷ rest) = extract_holding_qty rest

abbrev pub row_symbol : HoldingRow → Text
row_symbol r =
    strip (
      if is_blank r.stock_code
      then (if is_blank r.pdno then r.symbol else r.pdno)
      else r.stock_code)

-- `_find_holding_row`
unfoldable pub find_holding_row : Text → List HoldingRow → Option HoldingRow
find_holding_row target [] = none
find_holding_row target (r ∷ rows) =
    let rest = find_holding_row target rows in
    if row_symbol r == strip target && ltb 0 (extract_holding_qty r.quantities)
    then some r
    else rest

module _ {A : Type 0} ⦃f : Floats A⦄ where
  or_zero : Option A → A
  or_zero none = f.of_nat 0
  or_zero (some a) = a

  first_of : Option A → Option A → A
  unfolding or_zero
  first_of none b = or_zero b
  first_of (some a) b = if is_zero a then or_zero b else a

  -- `none` is a call that raised, or an answer that is no dict
  unfoldable pub build_account_risk_snapshot :
      ℕ → Option (BalancePayload A) → Option (RiskSnapshot (Account A))
  unfolding first_of or_zero
  build_account_risk_snapshot fetched_at none = none
  build_account_risk_snapshot fetched_at (some p) =
      if p.success
      then some (record {
        success = true;
        fetched_at = fetched_at;
        last_error = [];
        stale = false;
        rest = record {
          total_eval = first_of p.total_eval p.total_equity;
          cash_balance = first_of p.cash_balance p.cash;
          total_pnl = or_zero p.total_pnl;
        };
      })
      else none

  -- whether the guard lets a buy pass as it is
  unfoldable pub is_stale_quote : Bool → A → QuoteAge A → Bool
  is_stale_quote enabled quote_max_age q =
      let too_old : Bool = elim q.age_sec [
        | none ↦ true
        | some age ↦ f.lt (max_of quote_max_age (f.of_nat 0)) age
      ] in
      enabled
      && lower q.data_feed == codes "ws"
      && (not (q.source == codes "ws_tick") || not q.ws_connected || too_old)

unfoldable pub build_holdings_risk_snapshot : ℕ → List HoldingRow → RiskSnapshot (List HoldingRow)
build_holdings_risk_snapshot fetched_at rows = record {
  success = true;
  fetched_at = fetched_at;
  last_error = [];
  stale = false;
  rest = rows;
}

-- `_apply_market_regime_guard` of a buy: whether it is blocked
unfoldable pub is_regime_blocked : RegimeSettings → Option RegimeSnapshot → Bool
is_regime_blocked s none = s.filter_enabled && not s.fail_open
is_regime_blocked s (some x) =
    if not s.filter_enabled
    then false
    else if x.is_stale
    then not s.fail_open
    else elim x.regime [ bad ↦ s.bad_blocks | neutral ↦ not s.neutral_allows | good ↦ false ]

-- `report_mode in ("PAPER", "DRY_RUN")`
unfoldable pub is_lenient : Text → Bool
is_lenient mode = upper mode == codes "PAPER" || upper mode == codes "DRY_RUN"

unfoldable pub is_real : Text → Bool
is_real mode = upper mode == codes "REAL"

module _ {X : Type 0} where
  -- the snapshot for the validation, by that of the store and what a call of the API gives
  unfoldable pub resolve :
      Bool → Option (RiskSnapshot X) × Freshness → Option (RiskSnapshot X) → Option (RiskSnapshot X)
  resolve lenient (none, state) fetched = fetched
  resolve lenient (some x, fresh_state) fetched = some x
  resolve lenient (some x, stale_state) fetched = if lenient then some x else fetched
  resolve lenient (some x, absent) none = if lenient then some x else none
  resolve lenient (some x, absent) (some y) = some y

  -- whether that call is made
  unfoldable pub asks_api : Bool → Option (RiskSnapshot X) × Freshness → Bool
  asks_api lenient (none, state) = true
  asks_api lenient (some x, fresh_state) = false
  asks_api lenient (some x, stale_state) = not lenient
  asks_api lenient (some x, absent) = true

-- the moments at which the store is read, those of its calls of the API, and their answers
pub record ApiAnswers (A : Type 0) : Type 0 where
  pub now : ℕ
  pub account_now : ℕ
  pub holdings_at : ℕ
  pub account_at : ℕ
  pub holdings : Option (List HoldingRow)
  pub balance : Option (BalancePayload A)

abbrev pub Store : Type 0 → Type 0
Store A = Option (AccountRiskStore (Account A) (List HoldingRow))

unfoldable pub check_holdings :
    Bool → Text → Option (RiskSnapshot (List HoldingRow)) → Option ValidationBlock
check_holdings real code none = if real then some holdings_snapshot_unavailable else none
check_holdings real code (some x) = elim (find_holding_row code x.rest) [
  | none ↦ none
  | some row ↦ some existing_position_snapshot
]

unfoldable pub applies : ValidationSettings → Text → Bool
applies s strategy_tag =
    strategy_tag == codes "pullback_rebreakout"
    && s.risk_snapshot_enabled
    && lower (strip s.final_validation_mode) == codes "light"

module _ {A : Type 0} ⦃f : Floats A⦄ where
  unfoldable pub holdings_state :
      ℕ → ℕ → Store A → Option (RiskSnapshot (List HoldingRow)) × Freshness
  holdings_state ttl now none = (none, absent)
  holdings_state ttl now (some s) = state_at ttl now s.holdings

  unfoldable pub account_state : ℕ → ℕ → Store A → Option (RiskSnapshot (Account A)) × Freshness
  account_state ttl now none = (none, absent)
  account_state ttl now (some s) = state_at ttl now s.account

  unfoldable pub fetched_holdings : ApiAnswers A → Option (RiskSnapshot (List HoldingRow))
  fetched_holdings answers = elim answers.holdings [
    | none ↦ none
    | some rows ↦ some (build_holdings_risk_snapshot answers.holdings_at rows)
  ]

  unfoldable pub fetched_account : ApiAnswers A → Option (RiskSnapshot (Account A))
  fetched_account answers = build_account_risk_snapshot answers.account_at answers.balance

  put_holdings : Option (RiskSnapshot (List HoldingRow)) → Store A → Store A
  put_holdings (some x) (some s) = some (replace_holdings_snapshot x s)
  put_holdings x s = s

  put_account : Option (RiskSnapshot (Account A)) → Store A → Store A
  put_account (some x) (some s) = some (replace_account_snapshot x s)
  put_account x s = s

  -- `estimated_cost > 0 and cash_balance > 0 and estimated_cost > cash_balance`
  abbrev pub is_short : A → A → Bool
  is_short cost cash = f.lt (f.of_nat 0) cost && f.lt (f.of_nat 0) cash && f.lt cash cost

  unfoldable pub check_account :
      Bool → A → Option (RiskSnapshot (Account A)) → Option ValidationBlock
  check_account real cost none = if real then some account_snapshot_unavailable else none
  check_account real cost (some x) =
      if is_short cost x.rest.cash_balance then some insufficient_cash_snapshot else none

  -- after the holdings have been looked at
  unfoldable pub after_holdings : ValidationSettings → ApiAnswers A → Store A → Store A
  unfolding put_holdings
  after_holdings s answers store =
      if asks_api (is_lenient s.report_mode) (holdings_state s.holdings_ttl answers.now store)
      then put_holdings (fetched_holdings answers) store
      else store

  -- with the cost of the order; `none` lets it pass
  unfoldable pub run_order_final_validation :
      ValidationSettings
      → Text
      → Text
      → A
      → ApiAnswers A
      → Store A
      → Store A × Option ValidationBlock
  unfolding put_account
  run_order_final_validation s strategy_tag code cost answers store =
      let lenient = is_lenient s.report_mode in
      let held = holdings_state s.holdings_ttl answers.now store in
      let store1 = after_holdings s answers store in
      let account = account_state s.account_ttl answers.account_now store1 in
      let store2 =
        if asks_api lenient account then put_account (fetched_account answers) store1 else store1 in
      let real = is_real s.report_mode in
      if not (applies s strategy_tag)
      then (store, none)
      else elim (check_holdings real code (resolve lenient held (fetched_holdings answers))) [
        | some reason ↦ (store1, some reason)
        | none ↦
            (store2, check_account real cost (resolve lenient account (fetched_account answers)))
      ]
