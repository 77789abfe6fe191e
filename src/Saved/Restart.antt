-- ===== src/Saved/Restart.antt =====
-- What a restart finds: saving, loading and converting positions
-- (kis_trend_atr_trading/utils/position_store.py with engine/trading_state.py).
use kis_api_trend_atr.Base.{
  ◌≡◌, refl, ap, ◌∙◌, ◌&&◌, true, false, Option, none, some, [], if◌then◌else◌,
}
use kis_api_trend_atr.Base.Floats.{Floats}
use kis_api_trend_atr.Base.Text.{Text}
use kis_api_trend_atr.Trading.{MultidayPosition, Now, is_blank, is_zero, is_positive, post_init}
use kis_api_trend_atr.Trading.Saving.{state_value, parse-state_value}
use kis_api_trend_atr.Saved.{
  StoredPosition, nothing, malformed, saved, StoreFile, absent, unreadable, holds, PositionStore,
  pending_of, part_of, write, save_position, clear_position, save_pending_exit, load_pending_exit,
  post_init_stored, loaded, load_position, to_multiday_position, from_multiday_position, cleared,
}

module _ {A : Type 0} ⦃f : Floats A⦄ where
  -- A position that trading may hold: its texts are not blank, and a highest price or a trailing stop
  -- of zero stays.
  pub record IsComplete (p : MultidayPosition A) : Type 0 where
    pub dated : is_blank p.entry_date ≡ false
    pub timed : is_blank p.entry_time ≡ false
    pub highest : (is_zero p.highest_price && is_positive p.entry_price) ≡ false
    pub trailing : (is_zero p.trailing_stop && is_positive p.stop_loss) ≡ false

  -- a position as it is stored
  abbrev stored : MultidayPosition A → Text → StoredPosition A
  stored p saved_at = record {
    stock_code = p.symbol;
    entry_price = p.entry_price;
    quantity = p.quantity;
    stop_loss = p.stop_loss;
    take_profit = p.take_profit;
    entry_date = p.entry_date;
    atr_at_entry = p.atr_at_entry;
    position = p.position;
    trailing_stop = p.trailing_stop;
    highest_price = p.highest_price;
    entry_time = p.entry_time;
    state = state_value p.state;
    saved_at = saved_at;
  }

  post_init_stored-stored :
      (p : MultidayPosition A) (now : Now) (iso saved_at : Text)
      → IsComplete p
      → post_init_stored now iso (stored p saved_at)
        ≡ stored p (if is_blank saved_at then iso else saved_at)
  unfolding post_init_stored
  post_init_stored-stored p now iso saved_at c = rw (c.timed, c.highest, c.trailing) refl

  post_init-IsComplete : (p : MultidayPosition A) (now : Now) → IsComplete p → post_init p now ≡ p
  unfolding post_init
  post_init-IsComplete p now c = rw (c.dated, c.timed, c.highest) refl

  to_multiday_position-stored :
      (p : MultidayPosition A) (now : Now) (saved_at : Text)
      → IsComplete p
      → to_multiday_position now (stored p saved_at) ≡ some p
  unfolding to_multiday_position
  to_multiday_position-stored p now saved_at c =
      rw (parse-state_value p.state, to_multiday_position) (ap some (post_init-IsComplete p now c))

module _ {A E : Type 0} where
  write-file :
      (file : StoreFile A E) (s : PositionStore A E)
      → s.writable ≡ true
      → (write file s).0.file ≡ file
  unfolding write
  write-file file s h = rw h refl

  pub load-save_pending_exit :
      (p : E) (s : PositionStore A E)
      → s.writable ≡ true
      → load_pending_exit (save_pending_exit (some p) s).0 ≡ some p
  unfolding load_pending_exit save_pending_exit pending_of
  load-save_pending_exit p s h = ap pending_of (write-file _ s h)

module _ {A E : Type 0} ⦃f : Floats A⦄ where
  loaded-part_of :
      (now : Now) (iso : Text) (file : StoreFile A E) (pending : Option E)
      → loaded now iso (holds (part_of file) pending) ≡ loaded now iso file
  unfolding loaded part_of
  loaded-part_of now iso absent pending = refl
  loaded-part_of now iso unreadable pending = refl
  loaded-part_of now iso (holds nothing old) pending = refl
  loaded-part_of now iso (holds malformed old) pending = refl
  loaded-part_of now iso (holds (saved p) old) pending = refl

  cleared-empty :
      (now : Now) (iso : Text) (file : StoreFile A E) (s : PositionStore A E)
      → s.file ≡ file
      → s.writable ≡ true
      → (loaded now iso (cleared file s).0.file ≡ none)
        × (pending_of (cleared file s).0.file ≡ none)
  unfolding cleared loaded pending_of write
  cleared-empty now iso absent s e h = (ap (loaded now iso) e, ap pending_of e)
  cleared-empty now iso unreadable s e h = rw h (refl, refl)
  cleared-empty now iso (holds part old) s e h = rw h (refl, refl)

  -- Saving a position keeps the pending exit, saving a pending exit keeps the position, and clearing
  -- the position drops both; what is saved is loaded. All this where the file can be written.
  pub saves_apart :
      (s : PositionStore A E) (p : StoredPosition A) (pending : Option E) (now : Now) (iso : Text)
      → s.writable ≡ true
      → (load_position now iso (save_position p s).0 ≡ some (post_init_stored now iso p))
        × (load_pending_exit (save_position p s).0 ≡ load_pending_exit s)
        × (load_position now iso (save_pending_exit pending s).0 ≡ load_position now iso s)
        × (load_pending_exit (save_pending_exit pending s).0 ≡ pending)
        × (load_position now iso (clear_position s).0 ≡ none)
        × (load_pending_exit (clear_position s).0 ≡ none)
  unfolding save_position save_pending_exit clear_position load_position load_pending_exit loaded
      pending_of
  saves_apart s p pending now iso h =
      let (no_position, no_pending) = cleared-empty now iso s.file s refl h in
      (
        ap (loaded now iso) (write-file _ s h),
        ap pending_of (write-file _ s h),
        ap (loaded now iso) (write-file _ s h) ∙ loaded-part_of now iso s.file pending,
        ap pending_of (write-file _ s h),
        no_position,
        no_pending,
      )

  -- A multiday position whose texts are not blank, and in which no zero stands for a highest price or a
  -- trailing stop that `__post_init__` would fill in, survives a restart: where the file can be
  -- written, the position that is saved is loaded and converted back as it was, whenever that is.
  pub position_survives :
      (p : MultidayPosition A) (s : PositionStore A E) (now later : Now) (iso iso' : Text)
      → IsComplete p
      → s.writable ≡ true
      → let file = (save_position (from_multiday_position now iso p) s).0 in
        (q : StoredPosition A) × (load_position later iso' file ≡ some q)
        × (to_multiday_position later q ≡ some p)
  unfolding save_position load_position from_multiday_position loaded
  position_survives p s now later iso iso' c h =
      let first = post_init_stored-stored p now iso [] c in
      let again = post_init_stored-stored p later iso' iso c in
      (
        stored p (if is_blank iso then iso' else iso),
        ap (loaded later iso') (write-file _ s h)
            ∙ ap (λ q. some (post_init_stored later iso' q)) first
            ∙ ap some again,
        to_multiday_position-stored p later (if is_blank iso then iso' else iso) c,
      )
