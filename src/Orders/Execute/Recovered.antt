-- ===== src/Orders/Execute/Recovered.antt =====
-- The guard after `recover_pending_orders` of kis_trend_atr_trading/engine/order_synchronizer.py.
use mathlib.Core.Path.{subst}
use kis_api_trend_atr.Base.{
  ℕ, ◌≡◌, refl, Bool, true, false, Option, none, some, List, [], ◌∷◌, ◌++◌, if◌then◌else◌, arith,
  All, inl, inr,
}
use kis_api_trend_atr.Base.Eq.{◌==◌, pair_keyed, same_pair_iff}
use kis_api_trend_atr.Base.Dict.{lookup}
use kis_api_trend_atr.Base.Floats.{Floats}
use kis_api_trend_atr.Base.Text.{text_keyed}
use kis_api_trend_atr.Orders.{
  is_open, open_state, clear_state, OrderRow, GuardTimes, should_block_entry, PendingEntry,
  GuardStore, GuardKey, Synchronizer, Service,
}
use kis_api_trend_atr.Orders.Guard.{
  get_pending_order_guard_state, apply_shared_pending_status, is_expired,
}
use kis_api_trend_atr.Orders.Guard.Answers.{IsSpelled, live, guard_blocks_iff, lookup-update}
use kis_api_trend_atr.Orders.Execute.{recover_rows, recover_pending_orders}

-- A row of an open order, whose symbol and side are spelled as the guard spells them.
pub record IsOpenRow (row : OrderRow) : Type 0 where
  pub spelled : IsSpelled row.symbol row.side
  pub still_open : is_open row.status ≡ true

-- An entry that blocks at any time.
unfoldable pub blocks_for_good : Option PendingEntry → Bool
blocks_for_good none = false
blocks_for_good (some e) = elim e.expires_at [ none ↦ e.has_open_order | some t ↦ false ]

abbrev key_of : OrderRow → GuardKey
key_of row = (row.symbol, row.side)

lookup-apply :
    (row : OrderRow) (st : GuardStore) (k : GuardKey)
    → IsOpenRow row
    → blocks_for_good
        (lookup k (apply_shared_pending_status row.symbol row.side row.status st).entries)
      ≡ (if key_of row == k then true else blocks_for_good (lookup k st.entries))
unfolding apply_shared_pending_status blocks_for_good
lookup-apply row st k opened = ground (
  arith,
  opened.still_open,
  lookup-update opened.spelled row.status (if is_open row.status then open_state else clear_state)
      (is_open row.status) none [] 0 st k,
)

recover_rows-stays :
    (rows : List OrderRow) (st : GuardStore) (k : GuardKey)
    → All IsOpenRow rows
    → blocks_for_good (lookup k st.entries) ≡ true
    → blocks_for_good (lookup k (recover_rows rows st).entries) ≡ true
unfolding recover_rows
recover_rows-stays [] st k opened h = h
recover_rows-stays (row ∷ rows) st k opened h =
    recover_rows-stays rows (apply_shared_pending_status row.symbol row.side row.status st) k
      opened.1 (ground (arith, lookup-apply row st k opened.0))

recover_rows-blocks :
    (before : List OrderRow) (row : OrderRow) (after : List OrderRow) (st : GuardStore)
    → All IsOpenRow (before ++ row ∷ after)
    → blocks_for_good (lookup (key_of row) (recover_rows (before ++ row ∷ after) st).entries) ≡ true
unfolding recover_rows
recover_rows-blocks [] row after st opened =
    recover_rows-stays after (apply_shared_pending_status row.symbol row.side row.status st)
      (key_of row) opened.1
      (ground
        (arith, lookup-apply row st (key_of row) opened.0, same_pair_iff (key_of row) (key_of row)))
recover_rows-blocks (r ∷ before) row after st opened =
    recover_rows-blocks before row after (apply_shared_pending_status r.symbol r.side r.status st)
      opened.1

blocks_for_good-cases :
    (found : Option PendingEntry)
    → blocks_for_good found ≡ true
    → (e : PendingEntry) × (found ≡ some e) × (e.expires_at ≡ none) × (e.has_open_order ≡ true)
unfolding blocks_for_good
blocks_for_good-cases none h = ground arith
blocks_for_good-cases (some e) h = (e, refl, ground arith, ground arith)

All-middle :
    (before : List OrderRow) (row : OrderRow) (after : List OrderRow)
    → All IsOpenRow (before ++ row ∷ after)
    → IsOpenRow row
All-middle [] row after opened = opened.0
All-middle (r ∷ before) row after opened = All-middle before row after opened.1

module _ {A : Type 0} ⦃f : Floats A⦄ {D W : Type 0} (svc : Service A D W) where
  recover-store :
      (s : Synchronizer D W)
      → (recover_pending_orders svc s).0.store
        ≡ recover_rows (recover_pending_orders svc s).1 s.store
  unfolding recover_pending_orders recover_rows
  recover-store s = ground arith

  -- After a recovery the guard blocks the symbol and the side of each row that it gave back, at any
  -- time and whatever the database answers by then, if the rows are those of open orders and
  -- their codes and sides are spelled as the guard spells them.
  pub recovered_blocked :
      (s : Synchronizer D W) (before : List OrderRow) (row : OrderRow) (after : List OrderRow)
      (d : D) (times : GuardTimes) (now later : ℕ)
      → let (s', rows) = recover_pending_orders svc s in
        (rows ≡ before ++ row ∷ after)
        → All IsOpenRow rows
        → should_block_entry
            (get_pending_order_guard_state svc.database d times row.symbol row.side now later
              s'.store).1
          ≡ true
  unfolding is_expired live
  recovered_blocked s before row after d times now later same opened =
      let all_open : All IsOpenRow (before ++ row ∷ after) = subst (All IsOpenRow) same opened in
      let (e, found, stays, has_open) =
        blocks_for_good-cases (lookup (key_of row) (recover_pending_orders svc s).0.store.entries) (
          rw (recover-store s) (rw same (recover_rows-blocks before row after s.store all_open))) in
      (guard_blocks_iff (All-middle before row after all_open).spelled svc.database d times now
          later (recover_pending_orders svc s).0.store).1
        (inl (e, ground (arith, found, stays), inr has_open))
