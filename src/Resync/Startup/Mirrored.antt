-- ===== src/Resync/Startup/Mirrored.antt =====
-- The database after `synchronize_on_startup` (kis_trend_atr_trading/engine/order_synchronizer.py), against
-- the rows of the account.
use kis_api_trend_atr.Base.{
  ℕ, ◌≡◌, ◌<◌, ◌↔◌, refl, ap, ◌∙◌, true, false, Option, none, some, List, [], ◌∷◌, if◌then◌else◌,
  eqb, arith, Bool-cases, inl, inr,
}
use kis_api_trend_atr.Base.Dict.{Dict, lookup, insert, IsDict, insert-IsDict}
use kis_api_trend_atr.Base.Floats.{Floats}
use kis_api_trend_atr.Base.Int.{ℤ}
use kis_api_trend_atr.Base.Text.{Text, strip, text_keyed, text_beq}
use kis_api_trend_atr.Trading.{is_blank}
use kis_api_trend_atr.Saved.{load_position}
use kis_api_trend_atr.Prices.Averages.{quantize_price}
use kis_api_trend_atr.Resync.{
  RawRow, not_a_dict, row, Payload, Holding, raw_qty, positive, merged, put_row, add_row, add_rows,
  payload_rows, extract_active_holdings,
}
use kis_api_trend_atr.Resync.Holdings.{
  total_qty, qty_of, merged-qty, positive-pos, extract_active_holdings-total,
}
use kis_api_trend_atr.Resync.Database.{Repository, sync_db_positions_from_api}
use kis_api_trend_atr.Resync.Database.Mirror.{
  IsTable, held, AllHeld, sync_db_positions_from_api-mirrors,
}
use kis_api_trend_atr.Resync.Account.{
  Resynchronizer, System, Clock, got_holdings, Outcome, is_account_sync_mode, account_holdings,
  load_startup_holdings_cache, expire, fetched, fetch_ssot_holdings, save_startup_holdings_cache,
}
use kis_api_trend_atr.Resync.Startup.{
  with_account, settle_stored, sync_db, synchronize_on_startup, file_only,
}

insert-AllHeld :
    (k : Text) (h : Holding) (d : Dict Text Holding)
    → 0 < h.qty
    → AllHeld d
    → AllHeld (insert k h d)
unfolding insert
insert-AllHeld k h [] n a = (n, tt)
insert-AllHeld k h ((j, g) ∷ d) n a = elim (Bool-cases (text_beq j k)) [
  | inl e ↦ rw e (n, a.1)
  | inr e ↦ rw e (a.0, insert-AllHeld k h d n a.1)
]

-- A dict of holdings, each of something.
abbrev IsHoldings : Dict Text Holding → Type 0
IsHoldings d = AllHeld d × IsDict d

put_row-IsHoldings :
    (symbol : Text) (avg_price : ℕ) (name : Option Text) (z : ℤ) (o : Option ℕ)
    (d : Dict Text Holding)
    → positive z ≡ o
    → IsHoldings d
    → IsHoldings (put_row symbol avg_price name o d)
unfolding put_row
put_row-IsHoldings symbol avg_price name z none d e h = h
put_row-IsHoldings symbol avg_price name z (some n) d e h =
    let new = merged (lookup symbol d) n avg_price name in
    (
      insert-AllHeld symbol new d
          (omega (arith, positive-pos z n e, merged-qty (lookup symbol d) n avg_price name)) h.0,
      insert-IsDict symbol new d h.1,
    )

add_rows-IsHoldings :
    (l : List RawRow) (d : Dict Text Holding) → IsHoldings d → IsHoldings (add_rows d l)
unfolding add_rows add_row
add_rows-IsHoldings [] d h = h
add_rows-IsHoldings (not_a_dict ∷ rest) d h = add_rows-IsHoldings rest d h
add_rows-IsHoldings (row r ∷ rest) d h = elim (Bool-cases (is_blank (strip r.stock_code))) [
  | inl e ↦ rw e (add_rows-IsHoldings rest d h)
  | inr e ↦ rw e (
      add_rows-IsHoldings rest _ (
        put_row-IsHoldings (strip r.stock_code) (quantize_price r.avg_price) r.stock_name
          (raw_qty r) _ d refl h))
]

pub extract-IsHoldings : (payload : Payload) → IsHoldings (extract_active_holdings payload)
unfolding extract_active_holdings
extract-IsHoldings payload = add_rows-IsHoldings (payload_rows payload) [] (tt, tt)

-- a quantity, if there is one
abbrev pub some_qty : ℕ → Option ℕ
some_qty n = if eqb n 0 then none else some n

held_total :
    (o : Option Holding) (n : ℕ) → qty_of o ≡ n → (o ≡ none) ↔ (n ≡ 0) → held o ≡ some_qty n
held_total none n e iff = ground arith
held_total (some h) n e iff = ground arith

pub held-extract :
    (payload : Payload) (code : Text)
    → held (lookup code (extract_active_holdings payload))
      ≡ some_qty (total_qty code (payload_rows payload))
held-extract payload code =
    let (total, absent) = extract_active_holdings-total payload code in
    held_total (lookup code (extract_active_holdings payload))
      (total_qty code (payload_rows payload)) total absent

module _ {A E D : Type 0} ⦃f : Floats A⦄ (r : Resynchronizer A D) (c : Clock)
    (repository : Repository A D) (open_qty : Text → D → Option ℕ)
    (table : IsTable repository open_qty) where
  -- The first sync of a process brings the database to the account: in PAPER and REAL mode, with no
  -- cache, with a repository whose statements do what they say and with syncing not disabled, a symbol
  -- then has an open position exactly if the account's rows hold it, and with the sum of their
  -- quantities.
  pub startup_mirrors_account :
      (payload : Payload) (s : System A E D) (code : Text)
      → is_account_sync_mode r.trading_mode ≡ true
      → r.db_repository ≡ some repository
      → s.holdings_cache ≡ none
      → s.db_sync_applied ≡ false
      → s.database.sync_disabled ≡ false
      → open_qty code (synchronize_on_startup r c (got_holdings payload) s).0.database.db
        ≡ some_qty (total_qty code (payload_rows payload))
  unfolding synchronize_on_startup with_account account_holdings load_startup_holdings_cache expire
      fetched fetch_ssot_holdings save_startup_holdings_cache settle_stored sync_db
  startup_mirrors_account payload s code mode repo cache applied enabled =
      let holdings = extract_active_holdings payload in
      let s1 = save_startup_holdings_cache holdings c.instant s in
      let (each, once) = extract-IsHoldings payload in
      let shows = λ (x : System A E D × Outcome A). open_qty code x.0.database.db in
      let asked = λ (q : Option (Dict Text Holding × ℕ)).
        with_account r c
          (account_holdings (got_holdings payload) c.instant (expire c.instant s q)) in
      ap
        (λ b. shows (
          if b then asked s.holdings_cache else (s, file_only (load_position c.now c.iso s.store))))
        mode
      ∙ ap (λ q. shows (asked q)) cache
      ∙ ap (λ b. shows (settle_stored r c holdings (if b then s1 else sync_db r c holdings s1)))
          applied
      ∙ ap (λ o. open_qty code (sync_db_positions_from_api r.round2 o holdings s.database).0.db)
          repo
      ∙ (sync_db_positions_from_api-mirrors r.round2 repository open_qty table code holdings
          s.database enabled each once).0
      ∙ held-extract payload code
