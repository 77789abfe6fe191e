-- ===== src/Orders/Guard/Answers.antt =====
-- What the guard of kis_trend_atr_trading/engine/order_synchronizer.py answers for a symbol and a side.
use kis_api_trend_atr.Base.{
  ℕ, ◌+◌, ◌≤◌, ◌<◌, ◌≡◌, ◌≢◌, ◌↔◌, ◌⊎◌, inl, inr, refl, Bool, true, false, ◌&&◌, Option, none, some,
  [], ◌∷◌, if◌then◌else◌, arith, length, ltb, Option-cases,
}
use kis_api_trend_atr.Base.Eq.{◌==◌, pair_keyed, same_pair_iff}
use kis_api_trend_atr.Base.Dict.{lookup, lookup-insert, lookup-erase}
use kis_api_trend_atr.Base.Text.{Text, strip, zfill, length-zfill, text_keyed}
use kis_api_trend_atr.Orders.{
  unknown_state, PendingEntry, GuardKey, GuardStore, OrderStatus, unknown_status, GuardState,
  GuardTimes, query_failed, answered, Database, should_block_entry,
}
use kis_api_trend_atr.Orders.Guard.{
  normalize_guard_symbol, normalize_guard_side, guard_state_key, is_empty,
  update_shared_pending_state, is_expired, scan, get_cached_pending_state,
  record_pending_guard_unknown, cached_snapshot, from_database, memory_only,
  get_pending_order_guard_state, answer_from,
}

-- A code and a side as the guard spells them: six places, no blanks, capitals.
pub record IsSpelled (code side : Text) : Type 0 where
  pub code_kept : normalize_guard_symbol code ≡ code
  pub side_kept : normalize_guard_side side ≡ side
  pub has_side : is_empty side ≡ false

not_empty : (s : Text) → 6 ≤ length s → is_empty s ≡ false
not_empty [] h = ground arith
not_empty (c ∷ s) h = refl

normalize_guard_symbol-is_empty : (code : Text) → is_empty (normalize_guard_symbol code) ≡ false
unfolding normalize_guard_symbol
normalize_guard_symbol-is_empty code =
    not_empty (zfill 6 (strip code)) (omega (arith, length-zfill 6 (strip code)))

-- the entry of a key that has not expired
unfoldable pub live : ℕ → GuardKey → GuardStore → Option PendingEntry
live now k st = elim (lookup k st.entries) [
  | none ↦ none
  | some e ↦ if is_expired now e then none else some e
]

module _ {code side : Text} (spelled : IsSpelled code side) where
  key_kept : guard_state_key code side ≡ (code, side)
  unfolding guard_state_key
  key_kept = ground (arith, spelled.code_kept, spelled.side_kept)

  code_not_empty : is_empty code ≡ false
  code_not_empty = ground (arith, spelled.code_kept, normalize_guard_symbol-is_empty code)

  pub get_cached-live :
      (now : ℕ) (st : GuardStore)
      → (get_cached_pending_state code side now st).1 ≡ live now (code, side) st
  unfolding get_cached_pending_state scan live
  get_cached-live now st =
      rw (spelled.code_kept, spelled.side_kept, key_kept, code_not_empty, spelled.has_side)
        (ground arith)

  -- A question changes no entry that is live.
  pub live-get_cached :
      (now : ℕ) (st : GuardStore) (k : GuardKey)
      → live now k (get_cached_pending_state code side now st).0 ≡ live now k st
  unfolding get_cached_pending_state scan live
  live-get_cached now st k =
      rw (spelled.code_kept, spelled.side_kept, key_kept, code_not_empty, spelled.has_side)
        (ground (arith, same_pair_iff (code, side) k, lookup-erase (code, side) k st.entries))

  -- What an update leaves under a key.
  pub lookup-update :
      (status : OrderStatus) (state : GuardState) (has_open_order : Bool) (ttl : Option ℕ)
      (error : Text) (now : ℕ) (st : GuardStore) (k : GuardKey)
      → lookup k
          (update_shared_pending_state code side status state has_open_order ttl error now
            st).entries
        ≡ (if (code, side) == k
            then some (record {
              state = state;
              has_open_order = has_open_order;
              status = status;
              expires_at = elim ttl [
                | none ↦ none
                | some t ↦ if ltb 0 t then some (now + t) else none
              ];
              error = error;
            })
            else lookup k st.entries)
  unfolding update_shared_pending_state
  lookup-update status state has_open_order ttl error now st k =
      rw (spelled.code_kept, spelled.side_kept, key_kept, code_not_empty)
        (lookup-insert (code, side) k
          (record {
            state = state;
            has_open_order = has_open_order;
            status = status;
            expires_at = elim ttl [
              | none ↦ none
              | some t ↦ if ltb 0 t then some (now + t) else none
            ];
            error = error;
          })
          st.entries)

  module _ {D : Type 0} (db : Database D) (d : D) (times : GuardTimes) (now later : ℕ)
      (st : GuardStore) where
    get_pending-answer :
        get_pending_order_guard_state db d times code side now later st
        ≡ answer_from db d times code side later (get_cached_pending_state code side now st)
    unfolding get_pending_order_guard_state
    get_pending-answer = ground (arith, spelled.code_kept, spelled.side_kept)

    -- For a code and a side that are spelled as the guard spells them, the side not empty: the guard
    -- blocks exactly when a live entry is open or unknown, or when there is no live entry,
    -- the database is in use and its answer is an error or an open order.
    pub guard_blocks_iff :
        (should_block_entry (get_pending_order_guard_state db d times code side now later st).1
          ≡ true)
        ↔ (((e : PendingEntry) × (live now (code, side) st ≡ some e)
              × ((e.state ≡ unknown_state) ⊎ (e.has_open_order ≡ true)))
            ⊎ ((live now (code, side) st ≡ none)
                × ((db.present && db.enabled) ≡ true)
                × (db.open_status code side d ≢ answered none)))
    unfolding answer_from cached_snapshot from_database memory_only
    guard_blocks_iff = rw get_pending-answer (elim (Option-cases (live now (code, side) st)) [
      | inl e ↦ ground (arith, e, get_cached-live now st)
      | inr (x, e) ↦ ground (arith, e, get_cached-live now st)
    ])

    failed_entry : Text → PendingEntry
    failed_entry error = record {
      state = unknown_state;
      has_open_order = false;
      status = unknown_status;
      expires_at = if ltb 0 times.error_backoff then some (later + times.error_backoff) else none;
      error = error;
    }

    live-failed :
        (error : Text) (at : ℕ)
        → live now (code, side) st ≡ none
        → (db.present && db.enabled) ≡ true
        → db.open_status code side d ≡ query_failed error
        → at < later + times.error_backoff
        → live at (code, side) (get_pending_order_guard_state db d times code side now later st).0
          ≡ some (failed_entry error)
    unfolding answer_from from_database record_pending_guard_unknown live is_expired failed_entry
    live-failed error at clear used failed soon = rw get_pending-answer (
        let st1 = (get_cached_pending_state code side now st).0 in
        ground (
          arith,
          get_cached-live now st,
          clear,
          lookup-update unknown_status unknown_state false (some times.error_backoff) error later
              st1 (code, side),
          same_pair_iff (code, side) (code, side),
        ))

-- After a failed query of a symbol and a side that had no live entry, the guard blocks them until the
-- backoff is over, whatever the database would answer then.
pub error_blocks :
    {code side : Text} (spelled : IsSpelled code side) {D : Type 0} (db : Database D) (d : D)
    (times : GuardTimes) (now later : ℕ) (st : GuardStore) {D' : Type 0} (db' : Database D')
    (d' : D') (error : Text) (at later' : ℕ)
    → live now (code, side) st ≡ none
    → (db.present && db.enabled) ≡ true
    → db.open_status code side d ≡ query_failed error
    → at < later + times.error_backoff
    → let asked = (get_pending_order_guard_state db d times code side now later st).0 in
      should_block_entry (get_pending_order_guard_state db' d' times code side at later' asked).1
      ≡ true
unfolding failed_entry
error_blocks {code} {side} spelled db d times now later st db' d' error at later' clear used failed
      soon =
    let asked = (get_pending_order_guard_state db d times code side now later st).0 in
    (guard_blocks_iff spelled db' d' times at later' asked).1 (
      inl (
        failed_entry spelled db d times now later st error,
        live-failed spelled db d times now later st error at clear used failed soon,
        inl refl,
      ))
