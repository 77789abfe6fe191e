-- ===== src/Resync/Startup.antt =====
-- `synchronize_on_startup` and `force_sync_from_api` of PositionResynchronizer
-- (kis_trend_atr_trading/engine/order_synchronizer.py): the account, the file of the position and the
-- database are brought together. The API's answer is an argument; the texts of messages are left out.
pub mod Agreement
pub mod Mirrored
use kis_api_trend_atr.Base.{
  ℕ, ◌+◌, ◌*◌, ◌&&◌, ◌||◌, not, Bool, true, false, Option, none, some, List, [], ◌∷◌, if◌then◌else◌,
  is_some, eqb, ltb, length,
}
use kis_api_trend_atr.Base.Dict.{Dict}
use kis_api_trend_atr.Base.Eq.{◌==◌}
use kis_api_trend_atr.Base.Floats.{Floats}
use kis_api_trend_atr.Base.Text.{Text, codes, upper, strip, text_keyed}
use kis_api_trend_atr.Trading.{Now, is_blank}
use kis_api_trend_atr.Saved.{
  StoredPosition, PositionStore, save_position, load_position, clear_position,
}
use kis_api_trend_atr.Resync.{
  RawRow, Payload, balance_dict, Holding, extract_active_holdings, resolve_target_holding, of_cents,
  build_stored_position_from_holding,
}
use kis_api_trend_atr.Resync.Account.{
  Action, no_position, matched, api_failed, untracked_holding, auto_recovered_from_api,
  auto_recovered_cleared, qty_adjusted, avg_adjusted, critical_mismatch, auto_recovered_replaced,
  SyncAction, skipped_non_real_mode, synced, sync_error, ApiAnswer, api_raised, got_holdings,
  got_balance, Resynchronizer, System, Clock, Outcome, SyncOutcome, is_account_sync_mode,
  fetch_ssot_holdings, expire, load_startup_holdings_cache, save_startup_holdings_cache, fetched,
  account_holdings,
}
use kis_api_trend_atr.Resync.Database.{Repository, DbState, Summary, sync_db_positions_from_api}

code_of : {A : Type 0} → Option (StoredPosition A) → Option Text
code_of none = none
code_of (some p) = some p.stock_code

module _ {A : Type 0} ⦃f : Floats A⦄ where
  abbrev float_eq : A → A → Bool
  float_eq a b = f.le a b && f.le b a

  file_only : Option (StoredPosition A) → Outcome A
  file_only none = record {
    success = true;
    position = none;
    action = no_position;
    allow_new_entries = true;
  }
  file_only (some p) = record {
    success = true;
    position = some p;
    action = matched;
    allow_new_entries = true;
  }

  built : {D : Type 0} → Resynchronizer A D → Clock → Text → Holding → Option (StoredPosition A)
  built r c symbol h = build_stored_position_from_holding r.round2 c.now c.iso symbol h none

  -- the quantities are the same, and the prices to two decimals
  matches_holding : {D : Type 0} → Resynchronizer A D → Holding → StoredPosition A → Bool
  matches_holding r h p =
      eqb h.qty p.quantity && float_eq (r.round2 p.entry_price) (r.round2 (of_cents h.avg_price))

module _ {A E D : Type 0} ⦃f : Floats A⦄ (r : Resynchronizer A D) (c : Clock) where
  sync_db : Dict Text Holding → System A E D → System A E D
  sync_db holdings s = record s {
    database = (sync_db_positions_from_api r.round2 r.db_repository holdings s.database).0;
    db_sync_applied = true;
  }

  -- the position is taken over from the account
  recover :
      Action
      → Action
      → Bool
      → PositionStore A E
      → Option (StoredPosition A)
      → PositionStore A E × Outcome A
  recover failed done allow store none = (
    store,
    record { success = false; position = none; action = failed; allow_new_entries = allow },
  )
  recover failed done allow store (some p) = (
    (save_position p store).0,
    record { success = true; position = some p; action = done; allow_new_entries = true },
  )

  -- the stored position is that of the account's holding
  adjust : Holding → StoredPosition A → PositionStore A E → PositionStore A E × Outcome A
  unfolding matches_holding
  adjust h p store =
      let average = of_cents h.avg_price in
      let adjusted = record p { quantity = h.qty; entry_price = average } in
      if matches_holding r h p
      then (
        store,
        record { success = true; position = some p; action = matched; allow_new_entries = true },
      )
      else (
        (save_position adjusted store).0,
        record {
          success = true;
          position = some adjusted;
          action = if eqb h.qty p.quantity then avg_adjusted else qty_adjusted;
          allow_new_entries = true;
        },
      )

  -- the stored position against the holding that was resolved
  settle :
      Dict Text Holding
      → PositionStore A E
      → Option (StoredPosition A)
      → Option (Text × Holding)
      → PositionStore A E × Outcome A
  unfolding recover adjust built
  settle holdings store none none =
      let untracked = ltb 0 (length holdings) && is_blank r.target_symbol in
      (
        store,
        record {
          success = not untracked;
          position = none;
          action = if untracked then untracked_holding else no_position;
          allow_new_entries = not untracked;
        },
      )
  settle holdings store none (some (symbol, h)) =
      recover untracked_holding auto_recovered_from_api true store (built r c symbol h)
  settle holdings store (some p) none = (
    (clear_position store).0,
    record {
      success = true;
      position = none;
      action = auto_recovered_cleared;
      allow_new_entries = true;
    },
  )
  settle holdings store (some p) (some (symbol, h)) =
      let other =
        recover critical_mismatch auto_recovered_replaced false store (built r c symbol h) in
      if p.stock_code == symbol then adjust h p store else other

  -- after the database: the file of the position
  settle_stored : Dict Text Holding → System A E D → System A E D × Outcome A
  unfolding settle code_of
  settle_stored holdings s =
      let stored = load_position c.now c.iso s.store in
      let (store, outcome) =
        settle holdings s.store stored
          (resolve_target_holding r.target_symbol holdings (code_of stored)) in
      (record s { store = store }, outcome)

  with_account : System A E D × Option (Dict Text Holding) → System A E D × Outcome A
  unfolding sync_db settle_stored
  with_account (s, none) = (
    s,
    record { success = false; position = none; action = api_failed; allow_new_entries = false },
  )
  with_account (s, some holdings) =
      settle_stored holdings (if s.db_sync_applied then s else sync_db holdings s)

  unfoldable pub synchronize_on_startup : ApiAnswer → System A E D → System A E D × Outcome A
  unfolding is_account_sync_mode with_account file_only account_holdings load_startup_holdings_cache
  synchronize_on_startup answer s =
      if is_account_sync_mode r.trading_mode
      then with_account
          (account_holdings answer c.instant (load_startup_holdings_cache c.instant s))
      else (s, file_only (load_position c.now c.iso s.store))

  -- the file of the position in a forced sync
  force_store : Dict Text Holding → PositionStore A E → PositionStore A E
  unfolding code_of
  force_store holdings store =
      let stored = load_position c.now c.iso store in
      elim (resolve_target_holding r.target_symbol holdings (code_of stored)) [
        | none ↦ (clear_position store).0
        | some (symbol, h) ↦
            elim (build_stored_position_from_holding r.round2 c.now c.iso symbol h stored) [
              | none ↦ store
              | some p ↦ (save_position p store).0
            ]
      ]

  forced : System A E D → Option (Dict Text Holding) → System A E D × SyncOutcome
  unfolding save_startup_holdings_cache sync_db force_store
  forced s none =
      (s, record { success = false; action = sync_error; allow_new_entries = false; holdings = [] })
  forced s (some holdings) =
      let synced_db = sync_db holdings (save_startup_holdings_cache holdings c.instant s) in
      (
        record synced_db { store = force_store holdings synced_db.store },
        record { success = true; action = synced; allow_new_entries = true; holdings = holdings },
      )

  pub force_sync_from_api : ApiAnswer → System A E D → System A E D × SyncOutcome
  unfolding is_account_sync_mode forced fetch_ssot_holdings
  force_sync_from_api answer s =
      if is_account_sync_mode r.trading_mode then forced s (fetch_ssot_holdings answer) else (
        s,
        record {
          success = true;
          action = skipped_non_real_mode;
          allow_new_entries = true;
          holdings = [];
        },
      )
