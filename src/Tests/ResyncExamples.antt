-- ===== src/Tests/ResyncExamples.antt =====
-- The theorems on the resynchronizer at a concrete account.
use kis_api_trend_atr.Base.{
  ℕ, ◌≡◌, refl, ap, ◌∙◌, ◌++◌, true, false, Option, none, some, List, [], ◌∷◌, arith,
}
use kis_api_trend_atr.Base.Dict.{Dict, lookup, insert, erase, lookup-insert, lookup-erase}
use kis_api_trend_atr.Base.Floats.{int_floats}
use kis_api_trend_atr.Base.Int.{ℤ, pos}
use kis_api_trend_atr.Base.Text.{Text, codes, text_keyed, upper, strip, text_beq}
use kis_api_trend_atr.Trading.{Now}
use kis_api_trend_atr.Saved.{absent, load_position}
use kis_api_trend_atr.Resync.{
  RawRow, row, int, Payload, rows, extract_active_holdings, payload_rows, resolve_target_holding,
  build_stored_position_from_holding,
}
use kis_api_trend_atr.Resync.Holdings.{total_qty}
use kis_api_trend_atr.Resync.Database.{DbPosition, Repository, done, position_map}
use kis_api_trend_atr.Resync.Database.Mirror.{IsTable}
use kis_api_trend_atr.Resync.Account.{
  Resynchronizer, System, Clock, is_account_sync_mode, load_startup_holdings_cache,
  account_holdings, got_holdings,
}
use kis_api_trend_atr.Resync.Startup.{synchronize_on_startup}
use kis_api_trend_atr.Resync.Startup.Agreement.{Agrees, startup-Agrees}
use kis_api_trend_atr.Resync.Startup.Mirrored.{some_qty, startup_mirrors_account}

abbrev raw : Text → ℕ → RawRow
raw code qty = row (record {
  stock_code = code;
  qty = some (int (pos qty));
  quantity = none;
  avg_price = record { digits = 70000; scale = 1 };
  stock_name = none;
})

-- two rows of one code, and one that is sold out
abbrev account : Payload
account = rows (raw (codes " 005930") 10 ∷ raw (codes "000660") 0 ∷ raw (codes "005930") 5 ∷ [])

-- a table of quantities
abbrev Table : Type 0
Table = Dict Text ℕ

abbrev listed_position : Text × ℕ → DbPosition ℤ
listed_position (symbol, quantity) = record {
  symbol = symbol;
  quantity = quantity;
  atr_at_entry = pos 1;
  stop_price = pos 1;
  take_profit_price = none;
  trailing_stop = none;
  highest_price = none;
}

listed : Table → List (DbPosition ℤ)
listed [] = []
listed (entry ∷ table) = listed table ++ (listed_position entry ∷ [])

table_repository : Repository ℤ Table
unfolding listed
table_repository = record {
  get_open_positions = λ db. done (listed db);
  close_position = λ symbol db. (erase symbol db, done tt);
  upsert_from_account_holding = λ u db. (insert u.symbol u.quantity db, done tt);
}

position_map-append :
    (found : Dict Text (DbPosition ℤ)) (l : List (DbPosition ℤ)) (p : DbPosition ℤ)
    → position_map found (l ++ (p ∷ [])) ≡ insert p.symbol p (position_map found l)
unfolding position_map
position_map-append found [] p = refl
position_map-append found (q ∷ l) p = position_map-append (insert q.symbol q found) l p

abbrev quantity_of : Option (DbPosition ℤ) → Option ℕ
quantity_of none = none
quantity_of (some p) = some p.quantity

lookup-listed :
    (x : Text) (db : Table) → quantity_of (lookup x (position_map [] (listed db))) ≡ lookup x db
unfolding listed lookup position_map
lookup-listed x [] = refl
lookup-listed x ((k, v) ∷ db) =
    let p = listed_position (k, v) in
    ap (λ d. quantity_of (lookup x d)) (position_map-append [] (listed db) p)
    ∙ ap quantity_of (lookup-insert k x p (position_map [] (listed db)))
    ∙ ground (arith, lookup-listed x db)

table_repository-IsTable : IsTable table_repository lookup
unfolding table_repository
table_repository-IsTable = record {
  listed = listed;
  lists = λ db. refl;
  lists_all = lookup-listed;
  closes = λ x db. refl;
  closed = λ x y db. lookup-erase x y db;
  upserts = λ u db. refl;
  upserted = λ u y db. lookup-insert u.symbol y u.quantity db;
}

abbrev paper : Resynchronizer ℤ Table
paper = record {
  trading_mode = codes "paper";
  target_symbol = codes "005930";
  db_repository = some table_repository;
  round2 = λ x. x;
}

abbrev monday : Now
monday = record { date_text = codes "2025-03-10"; time_text = codes "09:10:00"; day = 739320 }

abbrev clock : Clock
clock = record { now = monday; iso = codes "t1"; instant = 5 }

-- nothing is in the file, and the database has a position that the account does not
abbrev fresh : System ℤ ℕ Table
fresh = record {
  store = record { file = absent; writable = true };
  database = record { db = (codes "035420", 3) ∷ []; sync_disabled = false };
  holdings_cache = none;
  db_sync_applied = false;
}

startup_mirrors_account_example :
    lookup
      (codes "005930")
      (synchronize_on_startup paper clock (got_holdings account) fresh).0.database.db
    ≡ some_qty (total_qty (codes "005930") (payload_rows account))
unfolding is_account_sync_mode upper strip text_beq
startup_mirrors_account_example =
    startup_mirrors_account paper clock table_repository lookup table_repository-IsTable account
      fresh (codes "005930") refl refl refl refl refl

startup-Agrees_example :
    Agrees paper
      (extract_active_holdings account)
      (synchronize_on_startup paper clock (got_holdings account) fresh).1.position
      (load_position monday
        (codes "t1")
        (synchronize_on_startup paper clock (got_holdings account) fresh).0.store)
unfolding is_account_sync_mode load_startup_holdings_cache account_holdings synchronize_on_startup
    upper strip text_beq load_position resolve_target_holding lookup extract_active_holdings insert
    build_stored_position_from_holding
startup-Agrees_example =
    startup-Agrees paper clock (got_holdings account) fresh (extract_active_holdings account) refl
      refl refl refl
