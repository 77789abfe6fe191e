-- ===== src/Resync/Startup/Agreement.antt =====
-- What `synchronize_on_startup` leaves (kis_trend_atr_trading/engine/order_synchronizer.py): the position
-- that it returns, the file and the account agree.
use mathlib.Core.Path.{subst}
use kis_api_trend_atr.Base.{
  ◌≡◌, refl, ap, sym, ◌∙◌, Bool, true, false, Option, none, some, if◌then◌else◌, eqb, eqb_iff,
  &&_split, Bool-cases, inl, inr,
}
use kis_api_trend_atr.Base.Dict.{Dict, lookup}
use kis_api_trend_atr.Base.Floats.{Floats}
use kis_api_trend_atr.Base.Text.{Text, text_keyed, text_beq, text_beq_iff}
use kis_api_trend_atr.Trading.{is_blank}
use kis_api_trend_atr.Saved.{
  StoredPosition, PositionStore, save_position, load_position, post_init_stored,
}
use kis_api_trend_atr.Saved.Restart.{saves_apart}
use kis_api_trend_atr.Resync.{
  Holding, resolve_target_holding, base_terms, build_stored_position_from_holding,
}
use kis_api_trend_atr.Resync.Database.Mirror.{held}
use kis_api_trend_atr.Resync.Account.Fetching.{load-IsSame}
use kis_api_trend_atr.Resync.Target.{IsTarget, resolve-IsTarget, false_ne_true}
use kis_api_trend_atr.Resync.Account.{
  Resynchronizer, System, Clock, Outcome, ApiAnswer, Action, untracked_holding,
  auto_recovered_from_api, critical_mismatch, auto_recovered_replaced, account_holdings,
  load_startup_holdings_cache, is_account_sync_mode, expire, fetched, fetch_ssot_holdings,
  api_failed,
}
use kis_api_trend_atr.Resync.Startup.{
  recover, adjust, built, settle, settle_stored, code_of, matches_holding, with_account, sync_db,
  synchronize_on_startup, file_only,
}

own_symbol :
    (target code : Text)
    → (is_blank target ≡ false → code ≡ target)
    → code ≡ (if is_blank target then code else target)
own_symbol target code own = elim (Bool-cases (is_blank target)) [
  | inl e ↦ rw e refl
  | inr e ↦ rw e (own e)
]

module _ {A D : Type 0} (r : Resynchronizer A D) where
  -- The position, what the file gives for it, and the account say the same.
  abbrev pub Agrees :
      Dict Text Holding → Option (StoredPosition A) → Option (StoredPosition A) → Type 0
  Agrees holdings none loaded = loaded ≡ none
  Agrees holdings (some p) loaded =
      (q : StoredPosition A) × (loaded ≡ some q)
      × (q.stock_code ≡ p.stock_code)
      × (q.quantity ≡ p.quantity)
      × (held (lookup p.stock_code holdings) ≡ some p.quantity)
      × (p.stock_code ≡ (if is_blank r.target_symbol then p.stock_code else r.target_symbol))

module _ {A D : Type 0} ⦃f : Floats A⦄ (r : Resynchronizer A D) where
  matches-qty :
      (h : Holding) (p : StoredPosition A) → matches_holding r h p ≡ true → h.qty ≡ p.quantity
  unfolding matches_holding
  matches-qty h p e = (eqb_iff h.qty p.quantity).0 (&&_split _ _ e).0

module _ {A E D : Type 0} ⦃f : Floats A⦄ (r : Resynchronizer A D) (c : Clock) where
  saved-Agrees :
      (holdings : Dict Text Holding) (store : PositionStore A E) (p : StoredPosition A)
      → store.writable ≡ true
      → held (lookup p.stock_code holdings) ≡ some p.quantity
      → (is_blank r.target_symbol ≡ false → p.stock_code ≡ r.target_symbol)
      → Agrees r holdings (some p) (load_position c.now c.iso (save_position p store).0)
  unfolding post_init_stored
  saved-Agrees holdings store p w h t = (
    post_init_stored c.now c.iso p,
    (saves_apart store p none c.now c.iso w).0,
    refl,
    refl,
    h,
    own_symbol r.target_symbol p.stock_code t,
  )

  recover-Agrees :
      (failed finished : Action) (allow : Bool) (holdings : Dict Text Holding)
      (store : PositionStore A E) (symbol : Text) (h : Holding)
      → store.writable ≡ true
      → IsTarget r.target_symbol holdings (some (symbol, h))
      → let (store', outcome) = recover r c failed finished allow store (built r c symbol h) in
        outcome.success ≡ true
        → Agrees r holdings outcome.position (load_position c.now c.iso store')
  unfolding built build_stored_position_from_holding base_terms recover post_init_stored
  recover-Agrees failed finished allow holdings store symbol h w t =
      elim (Bool-cases (eqb h.qty 0)) [
        | inl e ↦ rw e (λ s. absurd (false_ne_true s))
        | inr e ↦ rw e (λ _. saved-Agrees holdings store _ w t.0 t.1)
      ]

  adjust-Agrees :
      (holdings : Dict Text Holding) (store : PositionStore A E) (symbol : Text) (h : Holding)
      (p : StoredPosition A)
      → store.writable ≡ true
      → IsTarget r.target_symbol holdings (some (symbol, h))
      → p.stock_code ≡ symbol
      → load_position c.now c.iso store ≡ some p
      → let (store', outcome) = adjust r c h p store in
        Agrees r holdings outcome.position (load_position c.now c.iso store')
  unfolding adjust
  adjust-Agrees holdings store symbol h p w t same stored =
      let on_account : held (lookup p.stock_code holdings) ≡ some h.qty =
        ap (λ k. held (lookup k holdings)) same ∙ t.0 in
      let own : is_blank r.target_symbol ≡ false → p.stock_code ≡ r.target_symbol =
        λ n. same ∙ t.1 n in
      elim (Bool-cases (matches_holding r h p)) [
        | inl e ↦ rw e (
          p,
          stored,
          refl,
          refl,
          on_account ∙ ap some (matches-qty r h p e),
          own_symbol r.target_symbol p.stock_code own,
        )
        | inr e ↦ rw e (saved-Agrees holdings store _ w on_account own)
      ]

  settle-Agrees :
      (holdings : Dict Text Holding) (store : PositionStore A E)
      (stored : Option (StoredPosition A)) (resolved : Option (Text × Holding))
      → store.writable ≡ true
      → IsTarget r.target_symbol holdings resolved
      → load_position c.now c.iso store ≡ stored
      → let (store', outcome) = settle r c holdings store stored resolved in
        outcome.success ≡ true
        → Agrees r holdings outcome.position (load_position c.now c.iso store')
  unfolding settle
  settle-Agrees holdings store none none w t stored = λ _. stored
  settle-Agrees holdings store none (some (symbol, h)) w t stored =
      recover-Agrees untracked_holding auto_recovered_from_api true holdings store symbol h w t
  settle-Agrees holdings store (some p) none w t stored =
      λ _. (saves_apart store p none c.now c.iso w).4
  settle-Agrees holdings store (some p) (some (symbol, h)) w t stored =
      elim (Bool-cases (text_beq p.stock_code symbol)) [
        | inl e ↦ rw e (λ _.
            adjust-Agrees holdings store symbol h p w t ((text_beq_iff p.stock_code symbol).0 e)
              stored)
        | inr e ↦ rw e (
            recover-Agrees critical_mismatch auto_recovered_replaced false holdings store symbol h w
              t)
      ]

  settle_stored-Agrees :
      (holdings : Dict Text Holding) (s : System A E D)
      → s.store.writable ≡ true
      → let (s', outcome) = settle_stored r c holdings s in
        outcome.success ≡ true
        → Agrees r holdings outcome.position (load_position c.now c.iso s'.store)
  unfolding settle_stored
  settle_stored-Agrees holdings s w =
      let stored = load_position c.now c.iso s.store in
      settle-Agrees holdings s.store stored
        (resolve_target_holding r.target_symbol holdings (code_of stored)) w
        (resolve-IsTarget r.target_symbol holdings (code_of stored)) refl

  if-writable :
      (b : Bool) (holdings : Dict Text Holding) (s : System A E D)
      → s.store.writable ≡ true
      → (if b then s else sync_db r c holdings s).store.writable ≡ true
  unfolding sync_db
  if-writable true holdings s w = w
  if-writable false holdings s w = w

  with_account-Agrees :
      (s : System A E D) (holdings : Dict Text Holding)
      → s.store.writable ≡ true
      → let (s', outcome) = with_account r c (s, some holdings) in
        outcome.success ≡ true
        → Agrees r holdings outcome.position (load_position c.now c.iso s'.store)
  unfolding with_account
  with_account-Agrees s holdings w =
      settle_stored-Agrees holdings (if s.db_sync_applied then s else sync_db r c holdings s)
        (if-writable s.db_sync_applied holdings s w)

  -- In PAPER and REAL mode, with the account's holdings at hand (from the API or from a cache of at most
  -- two minutes) and a file that can be written: a sync that succeeds gives back no position and leaves
  -- none in the file, or it gives back a position that the file has with the same code and quantity,
  -- which is the quantity that the account holds, and which is of the target symbol if there is one.
  pub startup-Agrees :
      (answer : ApiAnswer) (s : System A E D) (holdings : Dict Text Holding)
      → is_account_sync_mode r.trading_mode ≡ true
      → s.store.writable ≡ true
      → (account_holdings answer c.instant (load_startup_holdings_cache c.instant s)).1
        ≡ some holdings
      → (synchronize_on_startup r c answer s).1.success ≡ true
      → Agrees r holdings
          (synchronize_on_startup r c answer s).1.position
          (load_position c.now c.iso (synchronize_on_startup r c answer s).0.store)
  unfolding synchronize_on_startup
  startup-Agrees answer s holdings mode w found success =
      let (s1, o) = account_holdings answer c.instant (load_startup_holdings_cache c.instant s) in
      let same = load-IsSame answer c.instant s in
      let w1 : s1.store.writable ≡ true = ap (λ (x : PositionStore A E). x.writable) same.0 ∙ w in
      let whole : synchronize_on_startup r c answer s ≡ with_account r c (s1, some holdings) =
        ap
          (λ b.
            if b
            then with_account r c (s1, o)
            else (s, file_only (load_position c.now c.iso s.store)))
          mode
        ∙ ap (λ q. with_account r c (s1, q)) found in
      subst
        (λ (x : System A E D × Outcome A).
          x.1.success ≡ true → Agrees r holdings x.1.position (load_position c.now c.iso x.0.store))
        (sym whole) (with_account-Agrees s1 holdings w1) success

  -- In PAPER and REAL mode, where the holdings are not at hand (the API raised, or the balance was no
  -- success, and no cache is fresh): the sync fails, no new entries are allowed, and the file and the
  -- database stay as they are.
  pub startup-failed :
      (answer : ApiAnswer) (s : System A E D)
      → is_account_sync_mode r.trading_mode ≡ true
      → (account_holdings answer c.instant (load_startup_holdings_cache c.instant s)).1 ≡ none
      → let (s', outcome) = synchronize_on_startup r c answer s in
        (outcome.success ≡ false)
        × (outcome.allow_new_entries ≡ false)
        × (outcome.position ≡ none)
        × (s'.store ≡ s.store)
        × (s'.database ≡ s.database)
  unfolding synchronize_on_startup with_account
  startup-failed answer s mode lost =
      let (s1, o) = account_holdings answer c.instant (load_startup_holdings_cache c.instant s) in
      let same = load-IsSame answer c.instant s in
      let whole : synchronize_on_startup r c answer s ≡ with_account r c (s1, none) =
        ap
          (λ b.
            if b
            then with_account r c (s1, o)
            else (s, file_only (load_position c.now c.iso s.store)))
          mode
        ∙ ap (λ q. with_account r c (s1, q)) lost in
      rw whole (refl, refl, refl, same.0, same.1)

  -- the same, with no cache at all and an answer that cannot be read
  pub unread_sync :
      is_account_sync_mode r.trading_mode ≡ true
      → (answer : ApiAnswer) (s : System A E D) → s.holdings_cache ≡ none
      → fetch_ssot_holdings answer ≡ none
      → synchronize_on_startup r c answer s ≡ (
        s,
        record { success = false; position = none; action = api_failed; allow_new_entries = false },
      )
  unfolding synchronize_on_startup with_account account_holdings load_startup_holdings_cache expire
      fetched
  unread_sync mode answer s empty unread = rw mode (rw empty (rw unread refl))
