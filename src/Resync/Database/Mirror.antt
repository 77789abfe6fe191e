-- ===== src/Resync/Database/Mirror.antt =====
-- The table of positions after `_sync_db_positions_from_api`
-- (kis_trend_atr_trading/engine/order_synchronizer.py), where its statements do not fail.
use mathlib.Core.Path.{subst}
use kis_api_trend_atr.Base.{
  ℕ, ◌+◌, ◌≡◌, ◌<◌, refl, ap, ◌∙◌, false, ◌&&◌, not, Option, none, some, List, [], ◌∷◌,
  if◌then◌else◌, eqb, arith, Bool-cases, inl, inr, is_some, length,
}
use kis_api_trend_atr.Base.Dict.{Dict, lookup, IsDict}
use kis_api_trend_atr.Base.Eq.{◌==◌}
use kis_api_trend_atr.Base.Floats.{Floats}
use kis_api_trend_atr.Base.Text.{Text, text_keyed, text_beq, text_beq_iff}
use kis_api_trend_atr.Resync.{Holding}
use kis_api_trend_atr.Resync.Database.{
  DbPosition, Upsert, done, Repository, DbState, close_zombies, reflect_holdings, reflect_all,
  upsert_of, sync_database, synced, with_counts, after_close, Summary, sync_db_positions_from_api,
  position_map,
}

abbrev quantity_of : {A : Type 0} → Option (DbPosition A) → Option ℕ
quantity_of none = none
quantity_of (some p) = some p.quantity

abbrev pub held : Option Holding → Option ℕ
held none = none
held (some h) = some h.qty

-- A repository that is a table: its statements do what they say, and none fails. `open_qty` is the
-- quantity of the open position of a symbol.
pub record IsTable {A D : Type 0} (repository : Repository A D) (open_qty : Text → D → Option ℕ)
    : Type 0 where
  pub listed : D → List (DbPosition A)
  pub lists : (db : D) → repository.get_open_positions db ≡ done (listed db)
  pub lists_all :
      (x : Text) (db : D) → quantity_of (lookup x (position_map [] (listed db))) ≡ open_qty x db
  pub closes : (x : Text) (db : D) → (repository.close_position x db).1 ≡ done tt
  pub closed :
      (x y : Text) (db : D)
      → open_qty y (repository.close_position x db).0 ≡ (if x == y then none else open_qty y db)
  pub upserts : (u : Upsert A) (db : D) → (repository.upsert_from_account_holding u db).1 ≡ done tt
  pub upserted :
      (u : Upsert A) (y : Text) (db : D)
      → open_qty y (repository.upsert_from_account_holding u db).0
        ≡ (if u.symbol == y then some u.quantity else open_qty y db)

-- Each holding has something to hold.
abbrev pub AllHeld : Dict Text Holding → Type 0
AllHeld [] = Unit {0}
AllHeld ((x, h) ∷ rest) = (0 < h.qty) × AllHeld rest

module _ {A D : Type 0} ⦃f : Floats A⦄ (round2 : A → A) (repository : Repository A D)
    (open_qty : Text → D → Option ℕ) (table : IsTable repository open_qty) where
  close_zombies-done :
      (holdings : Dict Text Holding) (l : Dict Text (DbPosition A)) (zombies : ℕ) (db : D)
      → (n : ℕ) × ((close_zombies round2 repository holdings l zombies db).1 ≡ done n)
  unfolding close_zombies
  close_zombies-done holdings [] zombies db = (zombies, refl)
  close_zombies-done holdings ((x, p) ∷ rest) zombies db =
      elim (Bool-cases (is_some (lookup x holdings))) [
        | inl e ↦ rw e (close_zombies-done holdings rest zombies db)
        | inr e ↦ rw (e, table.closes x db) (close_zombies-done holdings rest (zombies + 1) _)
      ]

  open-close_zombies :
      (y : Text) (holdings : Dict Text Holding) (l : Dict Text (DbPosition A)) (zombies : ℕ)
      (db : D)
      → open_qty y (close_zombies round2 repository holdings l zombies db).0 ≡ (
          if is_some (lookup y l) && not (is_some (lookup y holdings)) then none else open_qty y db)
  unfolding close_zombies lookup
  open-close_zombies y holdings [] zombies db = refl
  open-close_zombies y holdings ((x, p) ∷ rest) zombies db =
      elim (Bool-cases (is_some (lookup x holdings))) [
        | inl e ↦
            rw e
              (open-close_zombies y holdings rest zombies db ∙ ground (arith, e, text_beq_iff x y))
        | inr e ↦
            rw (e, table.closes x db)
              (open-close_zombies y holdings rest (zombies + 1) _
                ∙ ground (arith, e, text_beq_iff x y, table.closed x y db))
      ]

  upsert_of-symbol :
      (x : Text) (h : Holding) (existing : Option (DbPosition A))
      → ((upsert_of round2 repository x h existing).symbol ≡ x)
        × ((upsert_of round2 repository x h existing).quantity ≡ h.qty)
  unfolding upsert_of
  upsert_of-symbol x h none = (refl, refl)
  upsert_of-symbol x h (some p) = (refl, refl)

  reflect_holdings-done :
      (l : Dict Text (DbPosition A)) (holdings : Dict Text Holding) (updated created : ℕ) (db : D)
      → AllHeld holdings
      → (n : ℕ × ℕ) × ((reflect_holdings round2 repository l holdings updated created db).1
          ≡ done n)
  unfolding reflect_holdings
  reflect_holdings-done l [] updated created db a = ((updated, created), refl)
  reflect_holdings-done l ((x, h) ∷ rest) updated created db a =
      let some_qty : eqb h.qty 0 ≡ false = ground arith in
      rw (some_qty, table.upserts (upsert_of round2 repository x h (lookup x l)) db)
        (reflect_holdings-done l rest _ _ _ a.1)

  upserted_holding :
      (x y : Text) (h : Holding) (existing : Option (DbPosition A)) (db : D)
      → open_qty y
          (repository.upsert_from_account_holding (upsert_of round2 repository x h existing) db).0
        ≡ (if x == y then some h.qty else open_qty y db)
  upserted_holding x y h existing db =
      let (same_symbol, same_qty) = upsert_of-symbol x h existing in
      table.upserted (upsert_of round2 repository x h existing) y db
      ∙ ap
          (λ z.
            if z == y
            then some (upsert_of round2 repository x h existing).quantity
            else open_qty y db)
          same_symbol
      ∙ ap (λ n. if x == y then some n else open_qty y db) same_qty

  after_upsert :
      (x y : Text) (h : Holding) (rest : Dict Text Holding) (before after : Option ℕ)
      → lookup x rest ≡ none
      → after ≡ (if x == y then some h.qty else before)
      → (if is_some (lookup y rest) then held (lookup y rest) else after)
        ≡ (if is_some (lookup y ((x, h) ∷ rest)) then held (lookup y ((x, h) ∷ rest)) else before)
  unfolding lookup
  after_upsert x y h rest before after gone e = elim (Bool-cases (text_beq x y)) [
    | inl same ↦
        let gone' : lookup y rest ≡ none =
          subst (λ k. lookup k rest ≡ none) ((text_beq_iff x y).0 same) gone in
        rw (same, gone') (e ∙ rw same refl)
    | inr other ↦
        rw other (
          ap (λ q. if is_some (lookup y rest) then held (lookup y rest) else q) (e ∙ rw other refl))
  ]

  open-reflect_holdings :
      (y : Text) (l : Dict Text (DbPosition A)) (holdings : Dict Text Holding) (updated created : ℕ)
      (db : D)
      → AllHeld holdings
      → IsDict holdings
      → open_qty y (reflect_holdings round2 repository l holdings updated created db).0
        ≡ (if is_some (lookup y holdings) then held (lookup y holdings) else open_qty y db)
  unfolding reflect_holdings lookup
  open-reflect_holdings y l [] updated created db a d = refl
  open-reflect_holdings y l ((x, h) ∷ rest) updated created db a d =
      let some_qty : eqb h.qty 0 ≡ false = ground arith in
      let u = upsert_of round2 repository x h (lookup x l) in
      rw (some_qty, table.upserts u db)
        (open-reflect_holdings y l rest _ _ _ a.1 d.1
          ∙ after_upsert x y h rest _ _ d.0 (upserted_holding x y h (lookup x l) db))

  mirrored :
      (y : Text) (holdings : Dict Text Holding) (l : Dict Text (DbPosition A))
      (before mid : Option ℕ)
      → quantity_of (lookup y l) ≡ before
      → mid ≡ (if is_some (lookup y l) && not (is_some (lookup y holdings)) then none else before)
      → (if is_some (lookup y holdings) then held (lookup y holdings) else mid)
        ≡ held (lookup y holdings)
  mirrored y holdings l before mid listed e = ground (arith, e, listed)

  open-reflect_all :
      (y : Text) (holdings : Dict Text Holding) (db : D)
      → AllHeld holdings
      → IsDict holdings
      → let r = reflect_all round2 repository holdings db (repository.get_open_positions db) in
        (open_qty y r.0 ≡ held (lookup y holdings)) × ((summary : Summary) × (r.1 ≡ done summary))
  unfolding reflect_all after_close with_counts
  open-reflect_all y holdings db a d =
      let l = position_map [] (table.listed db) in
      let (n, closed) = close_zombies-done holdings l 0 db in
      let mid = (close_zombies round2 repository holdings l 0 db).0 in
      let (counts, reflected) = reflect_holdings-done l holdings 0 0 mid a in
      let end : D = (reflect_holdings round2 repository l holdings 0 0 mid).0 in
      let whole =
        ap (reflect_all round2 repository holdings db) (table.lists db)
        ∙ ap (λ q. after_close round2 repository holdings l (mid, q)) closed
        ∙ ap (λ q. with_counts round2 repository (length holdings) n (end, q)) reflected in
      rw whole (
        open-reflect_holdings y l holdings 0 0 mid a d
            ∙ mirrored y holdings l (open_qty y db) (open_qty y mid) (table.lists_all y db)
                (open-close_zombies y holdings l 0 db),
        (_, refl),
      )

  -- The table shows the account: where the repository's statements do what they say and syncing is not
  -- disabled, after a sync a symbol has an open position exactly if the account holds it, with the
  -- account's quantity, and syncing stays enabled.
  pub sync_db_positions_from_api-mirrors :
      (y : Text) (holdings : Dict Text Holding) (s : DbState D)
      → s.sync_disabled ≡ false
      → AllHeld holdings
      → IsDict holdings
      → let s' = (sync_db_positions_from_api round2 (some repository) holdings s).0 in
        (open_qty y s'.db ≡ held (lookup y holdings)) × (s'.sync_disabled ≡ false)
  unfolding sync_db_positions_from_api sync_database synced
  sync_db_positions_from_api-mirrors y holdings s enabled a d =
      let (shown, (summary, finished)) = open-reflect_all y holdings s.db a d in
      let r = reflect_all round2 repository holdings s.db (repository.get_open_positions s.db) in
      let whole =
        ap (λ b. if b then (s, none) else synced round2 repository s r) enabled
        ∙ ap (λ q. synced round2 repository s (r.0, q)) finished in
      rw whole (shown, enabled)
