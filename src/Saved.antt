-- ===== src/Saved.antt =====
-- `StoredPosition` and `PositionStore` of kis_trend_atr_trading/utils/position_store.py. The JSON file is
-- its contents; `writable` says whether the system lets it be written, and JSON gives back the
-- values that it was given. Prices are `Floats`. A pending exit is a dict of any type. Log lines are left out.
pub mod Restart
pub mod Daily
use kis_api_trend_atr.Base.{
  ℕ, ◌&&◌, Bool, true, false, Option, none, some, List, [], ◌∷◌, if◌then◌else◌, is_some, eqb, ltb,
}
use kis_api_trend_atr.Base.Eq.{◌==◌}
use kis_api_trend_atr.Base.Int.{ℤ, pos, negsuc, ltb_ℤ}
use kis_api_trend_atr.Base.Floats.{Floats}
use kis_api_trend_atr.Base.Text.{Text, codes, text_keyed}
use kis_api_trend_atr.Trading.{MultidayPosition, Now, is_blank, is_zero, is_positive, post_init}
use kis_api_trend_atr.Trading.Saving.{parse_state, state_value}

pub record StoredPosition (A : Type 0) : Type 0 where
  pub stock_code : Text
  pub entry_price : A
  pub quantity : ℕ
  pub stop_loss : A
  pub take_profit : Option A
  pub entry_date : Text
  pub atr_at_entry : A
  pub position : Text
  pub trailing_stop : A
  pub highest_price : A
  pub entry_time : Text
  pub state : Text
  pub saved_at : Text

-- the file's key "position"
pub data SavedPart (A : Type 0) : Type 0 where
  nothing malformed : SavedPart A
  saved : StoredPosition A → SavedPart A

pub data StoreFile (A E : Type 0) : Type 0 where
  absent unreadable : StoreFile A E
  holds : SavedPart A → Option E → StoreFile A E

pub record PositionStore (A E : Type 0) : Type 0 where
  pub file : StoreFile A E
  pub writable : Bool

module _ {A E : Type 0} where
  -- `_load_raw_data().get("pending_exit")`
  pending_of : StoreFile A E → Option E
  pending_of (holds part pending) = pending
  pending_of file = none

  part_of : StoreFile A E → SavedPart A
  part_of (holds part pending) = part
  part_of file = nothing

  -- the file is written, or the call returns False
  write : StoreFile A E → PositionStore A E → PositionStore A E × Bool
  write file s = if s.writable then (record s { file = file }, true) else (s, false)

  unfoldable pub save_position : StoredPosition A → PositionStore A E → PositionStore A E × Bool
  unfolding pending_of write
  save_position p s = write (holds (saved p) (pending_of s.file)) s

  cleared : StoreFile A E → PositionStore A E → PositionStore A E × Bool
  unfolding write
  cleared absent s = (s, true)
  cleared file s = write (holds nothing none) s

  unfoldable pub clear_position : PositionStore A E → PositionStore A E × Bool
  unfolding cleared
  clear_position s = cleared s.file s

  unfoldable pub save_pending_exit : Option E → PositionStore A E → PositionStore A E × Bool
  unfolding part_of write
  save_pending_exit pending s = write (holds (part_of s.file) pending) s

  unfoldable pub load_pending_exit : PositionStore A E → Option E
  unfolding pending_of
  load_pending_exit s = pending_of s.file

  unfoldable pub clear_pending_exit : PositionStore A E → PositionStore A E × Bool
  clear_pending_exit s = save_pending_exit none s

module _ {A : Type 0} ⦃f : Floats A⦄ where
  -- `__post_init__`, with the instant as `isoformat` prints it
  unfoldable pub post_init_stored : Now → Text → StoredPosition A → StoredPosition A
  post_init_stored now iso p = record p {
    saved_at = if is_blank p.saved_at then iso else p.saved_at;
    entry_time = if is_blank p.entry_time then now.time_text else p.entry_time;
    highest_price =
        if is_zero p.highest_price && is_positive p.entry_price
        then p.entry_price
        else p.highest_price;
    trailing_stop =
        if is_zero p.trailing_stop && is_positive p.stop_loss then p.stop_loss else p.trailing_stop;
  }

  loaded : {E : Type 0} → Now → Text → StoreFile A E → Option (StoredPosition A)
  loaded now iso (holds (saved p) pending) = some (post_init_stored now iso p)
  loaded now iso file = none

  unfoldable pub load_position :
      {E : Type 0} → Now → Text → PositionStore A E → Option (StoredPosition A)
  unfolding loaded
  load_position now iso s = loaded now iso s.file

  -- `none` is the ValueError of a state that is not known.
  unfoldable pub to_multiday_position : Now → StoredPosition A → Option (MultidayPosition A)
  to_multiday_position now p = elim (parse_state p.state) [
    | none ↦ none
    | some state ↦ some (
        post_init
          (record {
            symbol = p.stock_code;
            position = p.position;
            entry_price = p.entry_price;
            quantity = p.quantity;
            atr_at_entry = p.atr_at_entry;
            stop_loss = p.stop_loss;
            take_profit = p.take_profit;
            trailing_stop = p.trailing_stop;
            highest_price = p.highest_price;
            entry_date = p.entry_date;
            entry_time = p.entry_time;
            state = state;
          })
          now)
  ]

  unfoldable pub from_multiday_position : Now → Text → MultidayPosition A → StoredPosition A
  from_multiday_position now iso p = post_init_stored now iso (record {
    stock_code = p.symbol;
    entry_price = p.entry_price;
    quantity = p.quantity;
    stop_loss = p.stop_loss;
    take_profit = p.take_profit;
    entry_date = p.entry_date;
    atr_at_entry = p.atr_at_entry;
    position = p.position;
    trailing_stop = p.trailing_stop;
    highest_price = p.highest_price;
    entry_time = p.entry_time;
    state = state_value p.state;
    saved_at = [];
  })

  -- the first holding of the code with a quantity above zero
  find_held : Text → List (Text × ℤ × A) → Option (ℤ × A)
  find_held stock_code [] = none
  find_held stock_code ((code, qty, avg_price) ∷ holdings) =
      let rest = find_held stock_code holdings in
      if code == stock_code && ltb_ℤ (pos 0) qty then some (qty, avg_price) else rest

  -- `none` is a failed request.
  unfoldable pub verify_with_api : Option (List (Text × ℤ × A)) → Text → Option (ℤ × A)
  unfolding find_held
  verify_with_api none stock_code = none
  verify_with_api (some holdings) stock_code = find_held stock_code holdings

  unfoldable pub reconcile_position :
      {E : Type 0}
      → Option (List (Text × ℤ × A))
      → Option (StoredPosition A)
      → PositionStore A E
      → PositionStore A E × Option (StoredPosition A)
  reconcile_position balance none s = (s, none)
  reconcile_position balance (some p) s = elim (verify_with_api balance p.stock_code) [
    | none ↦ ((clear_position s).0, none)
    | some _ ↦ (s, some p)
  ]
