-- ===== src/Resync/Database.antt =====
-- `_sync_db_positions_from_api` of PositionResynchronizer (kis_trend_atr_trading/engine/order_synchronizer.py).
-- The repository of positions is a parameter: three calls on any state, each of which may raise.
pub mod Mirror
use kis_api_trend_atr.Base.{
  ℕ, ◌+◌, ◌&&◌, ◌||◌, Bool, true, false, Option, none, some, List, [], ◌∷◌, if◌then◌else◌, is_some,
  eqb, length,
}
use kis_api_trend_atr.Base.Dict.{Dict, lookup, insert}
use kis_api_trend_atr.Base.Floats.{Floats}
use kis_api_trend_atr.Base.Text.{Text, codes, lower, text_keyed}
use kis_api_trend_atr.Trading.{is_zero}
use kis_api_trend_atr.Resync.{Holding, of_cents, max_of, base_price}

-- an open position of the table
pub record DbPosition (A : Type 0) : Type 0 where
  pub symbol : Text
  pub quantity : ℕ
  pub atr_at_entry : A
  pub stop_price : A
  pub take_profit_price : Option A
  pub trailing_stop : Option A
  pub highest_price : Option A

-- the arguments of `upsert_from_account_holding`
pub record Upsert (A : Type 0) : Type 0 where
  pub symbol : Text
  pub entry_price : A
  pub quantity : ℕ
  pub atr_at_entry : A
  pub stop_price : A
  pub take_profit_price : Option A
  pub trailing_stop : A
  pub highest_price : A

pub data Reply (B : Type 0) : Type 0 where
  -- the error's text
  raised : Text → Reply B
  done : B → Reply B

pub record Repository (A D : Type 0) : Type 0 where
  pub get_open_positions : D → Reply (List (DbPosition A))
  pub close_position : Text → D → D × Reply (Unit {0})
  pub upsert_from_account_holding : Upsert A → D → D × Reply (Unit {0})

-- what the class keeps for all instances, and the database
pub record DbState (D : Type 0) : Type 0 where
  pub db : D
  pub sync_disabled : Bool

pub record Summary : Type 0 where
  pub total_holdings : ℕ
  pub updated : ℕ
  pub created : ℕ
  pub zombies : ℕ

-- whether the text has the other one in it
starts_with : Text → Text → Bool
starts_with [] s = true
starts_with (c ∷ p) [] = false
starts_with (c ∷ p) (d ∷ s) = eqb c d && starts_with p s

unfoldable pub has_text : Text → Text → Bool
unfolding starts_with
has_text p [] = starts_with p []
has_text p (c ∷ s) = starts_with p (c ∷ s) || has_text p s

schema_incompatible : Text → Bool
unfolding has_text
schema_incompatible err_text =
    has_text (codes "unknown column") (lower err_text)
    && (has_text (codes "status") (lower err_text) || has_text (codes "mode") (lower err_text))

-- `{p.symbol: p for p in positions}`
unfoldable pub position_map :
    {A : Type 0} → Dict Text (DbPosition A) → List (DbPosition A) → Dict Text (DbPosition A)
position_map found [] = found
position_map found (p ∷ rest) = position_map (insert p.symbol p found) rest

module _ {A D : Type 0} ⦃f : Floats A⦄ (round2 : A → A) (repository : Repository A D) where
  -- the first loop: the database after it, or the error, with the number of zombies
  close_zombies : Dict Text Holding → Dict Text (DbPosition A) → ℕ → D → D × Reply ℕ
  close_zombies holdings [] zombies db = (db, done zombies)
  close_zombies holdings ((symbol, p) ∷ rest) zombies db =
      let skipped = close_zombies holdings rest zombies db in
      let (db', reply) = repository.close_position symbol db in
      let closed = close_zombies holdings rest (zombies + 1) db' in
      if is_some (lookup symbol holdings)
      then skipped
      else elim reply [ raised err_text ↦ (db', raised err_text) | done _ ↦ closed ]

  -- `a if a > 0 else default`
  positive_or : A → A → A
  positive_or a default = if f.lt (f.of_nat 0) a then a else default

  some_or : A → Option A → A
  some_or default none = default
  some_or default (some a) = if is_zero a then default else a

  upsert_of : Text → Holding → Option (DbPosition A) → Upsert A
  unfolding some_or positive_or
  upsert_of symbol h existing =
      let price = base_price h in
      let atr = max_of (f.mul price (f.div (f.of_nat 1) (f.of_nat 100))) (f.of_nat 1) in
      let stop = round2 (f.mul price (f.div (f.of_nat 95) (f.of_nat 100))) in
      let current_price = of_cents h.avg_price in
      elim existing [
        | none ↦ record {
          symbol = symbol;
          entry_price = price;
          quantity = h.qty;
          atr_at_entry = atr;
          stop_price = stop;
          take_profit_price = none;
          trailing_stop = stop;
          highest_price = max_of current_price price;
        }
        | some p ↦
            let stop_price = positive_or p.stop_price stop in
            record {
              symbol = symbol;
              entry_price = price;
              quantity = h.qty;
              atr_at_entry = positive_or p.atr_at_entry atr;
              stop_price = stop_price;
              take_profit_price = p.take_profit_price;
              trailing_stop = some_or stop_price p.trailing_stop;
              highest_price = max_of (max_of (some_or price p.highest_price) current_price) price;
            }
      ]

  -- the second loop, with the numbers of updated and created positions
  reflect_holdings : Dict Text (DbPosition A) → Dict Text Holding → ℕ → ℕ → D → D × Reply (ℕ × ℕ)
  unfolding upsert_of
  reflect_holdings db_map [] updated created db = (db, done (updated, created))
  reflect_holdings db_map ((symbol, h) ∷ rest) updated created db =
      let skipped = reflect_holdings db_map rest updated created db in
      let existing = lookup symbol db_map in
      let (db', reply) = repository.upsert_from_account_holding (upsert_of symbol h existing) db in
      let saved =
        reflect_holdings db_map rest (if is_some existing then updated + 1 else updated)
          (if is_some existing then created else created + 1) db' in
      if eqb h.qty 0
      then skipped
      else elim reply [ raised err_text ↦ (db', raised err_text) | done _ ↦ saved ]

  with_counts : ℕ → ℕ → D × Reply (ℕ × ℕ) → D × Reply Summary
  with_counts total zombies (db, raised err_text) = (db, raised err_text)
  with_counts total zombies (db, done (updated, created)) = (
    db,
    done (record {
      total_holdings = total;
      updated = updated;
      created = created;
      zombies = zombies;
    }),
  )

  after_close : Dict Text Holding → Dict Text (DbPosition A) → D × Reply ℕ → D × Reply Summary
  unfolding reflect_holdings with_counts
  after_close holdings db_map (db, raised err_text) = (db, raised err_text)
  after_close holdings db_map (db, done zombies) =
      with_counts (length holdings) zombies (reflect_holdings db_map holdings 0 0 db)

  -- the two loops; the first error ends them
  reflect_all : Dict Text Holding → D → Reply (List (DbPosition A)) → D × Reply Summary
  unfolding close_zombies position_map after_close
  reflect_all holdings db (raised err_text) = (db, raised err_text)
  reflect_all holdings db (done positions) =
      let db_map = position_map [] positions in
      after_close holdings db_map (close_zombies holdings db_map 0 db)

  -- `none` is a call that did not get to the end
  synced : DbState D → D × Reply Summary → DbState D × Option Summary
  unfolding schema_incompatible
  synced s (db, done summary) = (record s { db = db }, some summary)
  synced s (db, raised err_text) =
      (record s { db = db; sync_disabled = schema_incompatible err_text }, none)

  sync_database : Dict Text Holding → DbState D → DbState D × Option Summary
  unfolding reflect_all synced
  sync_database holdings s =
      if s.sync_disabled
      then (s, none)
      else synced s (reflect_all holdings s.db (repository.get_open_positions s.db))

-- with the repository, if there is one
unfoldable pub sync_db_positions_from_api :
    {A D : Type 0} ⦃f : Floats A⦄
    → (A → A)
    → Option (Repository A D)
    → Dict Text Holding
    → DbState D
    → DbState D × Option Summary
unfolding sync_database
sync_db_positions_from_api round2 none holdings s = (s, none)
sync_db_positions_from_api round2 (some repository) holdings s =
    sync_database round2 repository holdings s
