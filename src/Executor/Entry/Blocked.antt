-- ===== src/Executor/Entry/Blocked.antt =====
-- New entries while the account cannot be read (kis_trend_atr_trading/engine/multiday_executor.py).
use kis_api_trend_atr.Base.{Bool, true, false, ◌≡◌, refl, ap, ◌∙◌, List, [], ◌∷◌, none, All}
use kis_api_trend_atr.Base.Floats.{Floats}
use kis_api_trend_atr.Base.Text.{Text}
use kis_api_trend_atr.Resync.Account.{
  ApiAnswer, Resynchronizer, System, Clock, is_account_sync_mode, fetch_ssot_holdings,
}
use kis_api_trend_atr.Resync.Startup.Agreement.{unread_sync}
use kis_api_trend_atr.Executor.Entry.{
  EntryControl, set_entry_control, set_reconcile_entry_block, retry_entry_unblock, released,
  kept_blocked,
}

-- What may happen to the permission after the start: there, a forced call of `set_entry_control` comes
-- only from a retry.
pub data Call : Type 0 where
  controls : Bool → Text → Call
  blocks : Text → Call
  retries : Clock → ApiAnswer → Call

module _ {A E D : Type 0} ⦃f : Floats A⦄ (r : Resynchronizer A D) where
  pub perform : Call → System A E D × EntryControl → System A E D × EntryControl
  perform (controls allow_entry reason) (s, c) = (s, set_entry_control allow_entry reason false c)
  perform (blocks reason) (s, c) = (s, set_reconcile_entry_block reason c)
  perform (retries clock answer) (s, c) =
      let (s', c', allowed) = retry_entry_unblock r clock answer s c in (s', c')

  pub run : List Call → System A E D × EntryControl → System A E D × EntryControl
  run [] x = x
  run (call ∷ calls) x = run calls (perform call x)

-- the account is not read: the API raises, or its balance is no success
abbrev pub IsUnread : Call → Type 0
IsUnread (controls allow_entry reason) = Unit {0}
IsUnread (blocks reason) = Unit {0}
IsUnread (retries clock answer) = fetch_ssot_holdings answer ≡ none

module _ {A E D : Type 0} ⦃f : Floats A⦄ (r : Resynchronizer A D)
    (mode : is_account_sync_mode r.trading_mode ≡ true) where
  abbrev IsBlocked : System A E D → System A E D × EntryControl → Type 0
  IsBlocked s (s', c) = (s' ≡ s) × (c.allowed ≡ false) × (c.is_sticky ≡ true)

  control-IsBlocked :
      (allow_entry : Bool) (reason : Text) (s : System A E D) (c : EntryControl)
      → c.allowed ≡ false
      → c.is_sticky ≡ true
      → IsBlocked s (s, set_entry_control allow_entry reason false c)
  unfolding set_entry_control kept_blocked
  control-IsBlocked true reason s c shut sticky = rw sticky (refl, shut, refl)
  control-IsBlocked false reason s c shut sticky = rw sticky (refl, refl, refl)

  perform-IsBlocked :
      (call : Call) (s : System A E D) (c : EntryControl)
      → s.holdings_cache ≡ none
      → IsUnread call
      → c.allowed ≡ false
      → c.is_sticky ≡ true
      → IsBlocked s (perform r call (s, c))
  unfolding perform set_reconcile_entry_block retry_entry_unblock released
  perform-IsBlocked (controls allow_entry reason) s c empty unread shut sticky =
      control-IsBlocked allow_entry reason s c shut sticky
  perform-IsBlocked (blocks reason) s c empty unread shut sticky = (refl, refl, refl)
  perform-IsBlocked (retries clock answer) s c empty unread shut sticky =
      rw sticky (rw (unread_sync r clock mode answer s empty unread) (refl, refl, refl))

  run-IsBlocked :
      (calls : List Call) (s : System A E D) (c : EntryControl)
      → s.holdings_cache ≡ none
      → All IsUnread calls
      → c.allowed ≡ false
      → c.is_sticky ≡ true
      → IsBlocked s (run r calls (s, c))
  unfolding run
  run-IsBlocked [] s c empty unread shut sticky = (refl, shut, sticky)
  run-IsBlocked (call ∷ calls) s c empty (here, unread) shut sticky =
      let x = perform r call (s, c) in
      let (same, shut', sticky') = perform-IsBlocked call s c empty here shut sticky in
      let (same', shut2, sticky2) =
        run-IsBlocked calls x.0 x.1 (ap (λ (y : System A E D). y.holdings_cache) same ∙ empty)
          unread shut' sticky' in
      (same' ∙ same, shut2, sticky2)

  -- In PAPER and REAL mode and with no cache of holdings: once a failed sync has blocked new entries,
  -- they stay blocked while each retry fails to read the account, whatever the other callers ask for in
  -- between, and the file and the database stay as they are.
  pub entries_stay_blocked :
      (reason : Text) (calls : List Call) (s : System A E D) (c : EntryControl)
      → s.holdings_cache ≡ none
      → All IsUnread calls
      → let (s', c') = run r calls (s, set_reconcile_entry_block reason c) in
        (c'.allowed ≡ false)
        × (c'.is_sticky ≡ true)
        × (s'.store ≡ s.store)
        × (s'.database ≡ s.database)
  unfolding set_reconcile_entry_block
  entries_stay_blocked reason calls s c empty unread =
      let (same, shut, sticky) =
        run-IsBlocked calls s (set_reconcile_entry_block reason c) empty unread refl refl in
      (
        shut,
        sticky,
        ap (λ (y : System A E D). y.store) same,
        ap (λ (y : System A E D). y.database) same,
      )
