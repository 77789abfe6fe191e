-- ===== src/Resync/Account.antt =====
-- The account and the state of PositionResynchronizer (kis_trend_atr_trading/engine/order_synchronizer.py):
-- its settings, what the API answers, and the cache of holdings that all instances share.
pub mod Fetching
use kis_api_trend_atr.Base.{
  ℕ, ◌+◌, ◌*◌, ◌&&◌, ◌||◌, not, Bool, true, false, Option, none, some, List, [], ◌∷◌, if◌then◌else◌,
  is_some, eqb, ltb, length,
}
use kis_api_trend_atr.Base.Dict.{Dict}
use kis_api_trend_atr.Base.Eq.{◌==◌}
use kis_api_trend_atr.Base.Floats.{Floats}
use kis_api_trend_atr.Base.Text.{Text, codes, upper, strip, text_keyed}
use kis_api_trend_atr.Trading.{Now, is_blank}
use kis_api_trend_atr.Saved.{
  StoredPosition, PositionStore, save_position, load_position, clear_position,
}
use kis_api_trend_atr.Resync.{
  RawRow, Payload, balance_dict, Holding, extract_active_holdings, resolve_target_holding, of_cents,
  build_stored_position_from_holding,
}
use kis_api_trend_atr.Resync.Database.{Repository, DbState, Summary, sync_db_positions_from_api}

pub data Action : Type 0 where
  no_position matched api_failed untracked_holding auto_recovered_from_api : Action
  auto_recovered_cleared qty_adjusted avg_adjusted critical_mismatch auto_recovered_replaced :
      Action

pub data SyncAction : Type 0 where
  skipped_non_real_mode synced sync_error : SyncAction

-- what the API gives: an exception, the holdings, or the balance with its success
pub data ApiAnswer : Type 0 where
  api_raised : ApiAnswer
  got_holdings : Payload → ApiAnswer
  got_balance : Bool → Option (List RawRow) → ApiAnswer

-- the settings of one resynchronizer
pub record Resynchronizer (A D : Type 0) : Type 0 where
  pub trading_mode : Text
  pub target_symbol : Text
  pub db_repository : Option (Repository A D)
  pub round2 : A → A

-- the file of the position, the database, and what the class keeps for all instances
pub record System (A E D : Type 0) : Type 0 where
  pub store : PositionStore A E
  pub database : DbState D
  pub holdings_cache : Option (Dict Text Holding × ℕ)
  pub db_sync_applied : Bool

-- the clock: the position's texts, `isoformat`, and microseconds
pub record Clock : Type 0 where
  pub now : Now
  pub iso : Text
  pub instant : ℕ

pub record Outcome (A : Type 0) : Type 0 where
  pub success : Bool
  pub position : Option (StoredPosition A)
  pub action : Action
  pub allow_new_entries : Bool

pub record SyncOutcome : Type 0 where
  pub success : Bool
  pub action : SyncAction
  pub allow_new_entries : Bool
  pub holdings : Dict Text Holding

-- `__init__`
normalize_mode : Text → Text
normalize_mode mode = let m = strip (upper mode) in if m == codes "LIVE" then codes "REAL" else m

unfoldable pub is_account_sync_mode : Text → Bool
unfolding normalize_mode
is_account_sync_mode mode =
    normalize_mode mode == codes "PAPER" || normalize_mode mode == codes "REAL"

-- `none` is an exception
unfoldable pub fetch_ssot_holdings : ApiAnswer → Option (Dict Text Holding)
fetch_ssot_holdings api_raised = none
fetch_ssot_holdings (got_holdings payload) = some (extract_active_holdings payload)
fetch_ssot_holdings (got_balance true rows) = some (extract_active_holdings (balance_dict rows))
fetch_ssot_holdings (got_balance false rows) = none

module _ {A E D : Type 0} where
  unfoldable pub expire :
      ℕ → System A E D → Option (Dict Text Holding × ℕ) → System A E D × Option (Dict Text Holding)
  expire instant s none = (s, none)
  expire instant s (some (holdings, cached_at)) =
      if ltb (cached_at + 120 * 1000000) instant
      then (record s { holdings_cache = none; db_sync_applied = false }, none)
      else (s, some holdings)

  unfoldable pub load_startup_holdings_cache :
      ℕ → System A E D → System A E D × Option (Dict Text Holding)
  unfolding expire
  load_startup_holdings_cache instant s = expire instant s s.holdings_cache

  unfoldable pub save_startup_holdings_cache : Dict Text Holding → ℕ → System A E D → System A E D
  save_startup_holdings_cache holdings instant s = record s {
    holdings_cache = some (holdings, instant);
  }

  unfoldable pub fetched :
      ℕ → System A E D → Option (Dict Text Holding) → System A E D × Option (Dict Text Holding)
  unfolding save_startup_holdings_cache
  fetched instant s none = (s, none)
  fetched instant s (some holdings) =
      (save_startup_holdings_cache holdings instant s, some holdings)

  -- the account's holdings, from the cache or the API
  unfoldable pub account_holdings :
      ApiAnswer
      → ℕ
      → System A E D × Option (Dict Text Holding)
      → System A E D × Option (Dict Text Holding)
  unfolding fetch_ssot_holdings fetched
  account_holdings answer instant (s, some holdings) = (s, some holdings)
  account_holdings answer instant (s, none) = fetched instant s (fetch_ssot_holdings answer)
