-- ===== src/Positions.antt =====
-- `ManagedPosition` and `PositionManager` of kis_trend_atr_trading/engine/position_manager.py.
-- Prices are `Floats`; a quantity is a whole number; dates are day numbers, times microseconds, and
-- the moment of a call is an argument. `position_id`, `created_at`, `updated_at` and `side`
-- (always LONG) are left out, with the log lines and the Telegram messages. The file of positions is part of the state.
-- A division by an entry price of zero raises, as `zero_division`, in the state reached until then.
pub mod Trailing
pub mod Exits
pub mod Lifecycle
pub mod Restore
use kis_api_trend_atr.Base.{
  ℕ, ◌+◌, ◌-◌, Bool, true, false, not, ◌&&◌, ◌||◌, Option, none, some, List, [], ◌∷◌, if◌then◌else◌,
  ltb, leb, eqb, ◌++◌, length, is_some,
}
use kis_api_trend_atr.Base.Eq.{◌==◌}
use kis_api_trend_atr.Base.Floats.{Floats}
use kis_api_trend_atr.Base.Int.{ℤ, ◌-ℤ◌, ◌+ℤ◌}
use kis_api_trend_atr.Base.Dict.{Dict, lookup, insert, erase, contains}
use kis_api_trend_atr.Base.Text.{Text, text_keyed}

pub data PositionState : Type 0 where
  pending entered partial_exit exited : PositionState

pub data ExitReason : Type 0 where
  atr_stop take_profit trailing_stop trend_broken gap_protection : ExitReason
  manual kill_switch other : ExitReason

-- a date and a time of the day
pub record Moment : Type 0 where
  pub date : ℕ
  pub time : ℕ

-- the fields that an exit fills
pub record ExitInfo (A : Type 0) : Type 0 where
  pub exit_price : A
  pub exit_date : Option ℕ
  pub exit_time : Option ℕ
  pub exit_reason : ExitReason
  pub exit_order_no : Text
  pub realized_pnl : A
  pub realized_pnl_pct : A
  pub commission : A

pub record ManagedPosition (A : Type 0) : Type 0 where
  pub stock_code : Text
  pub stock_name : Text
  pub state : PositionState
  pub entry_price : A
  pub quantity : ℕ
  pub entry_date : ℕ
  pub entry_time : ℕ
  pub entry_order_no : Text
  pub atr_at_entry : A
  pub stop_loss : A
  pub take_profit : A
  pub trailing_stop : A
  pub highest_price : A
  pub current_price : A
  pub unrealized_pnl : A
  pub unrealized_pnl_pct : A
  pub exit : ExitInfo A
  pub holding_days : ℤ

-- What a call gives, or the exception that ends it.
pub data Outcome (B : Type 0) : Type 0 where
  done : B → Outcome B
  zero_division : Outcome B

pub record PositionManager (A : Type 0) : Type 0 where
  pub max_positions : ℕ
  pub enable_trailing : Bool
  pub trailing_atr_multiplier : A
  pub trailing_activation_pct : A
  pub enable_gap_protection : Bool
  pub max_gap_loss_pct : A
  pub positions : Dict Text (ManagedPosition A)
  pub closed_positions : Dict Text (List (ManagedPosition A))
  -- what the file of positions holds
  pub file : Dict Text (ManagedPosition A) × Dict Text (List (ManagedPosition A))

module _ {A : Type 0} where
  -- `_save_positions`
  abbrev pub save_positions : PositionManager A → PositionManager A
  save_positions m = record m { file = (m.positions, m.closed_positions) }

  pub get_position : PositionManager A → Text → Option (ManagedPosition A)
  get_position m code = lookup code m.positions

  pub has_position : PositionManager A → Text → Bool
  has_position m [] = not (eqb (length m.positions) 0)
  has_position m (c ∷ code) = contains (c ∷ code) m.positions

  pub count_positions : PositionManager A → ℕ
  count_positions m = length m.positions

module _ {A : Type 0} ⦃f : Floats A⦄ where
  abbrev pub is_zero : A → Bool
  is_zero a = f.le a (f.of_nat 0) && f.le (f.of_nat 0) a

  abbrev pub percent : A → A → A
  percent part whole = f.mul (f.div part whole) (f.of_nat 100)

  -- `__post_init__`, of a position whose date and time of entry are given
  abbrev post_init : ManagedPosition A → ManagedPosition A
  post_init p = record p {
    highest_price =
        if is_zero p.highest_price && f.lt (f.of_nat 0) p.entry_price
        then p.entry_price
        else p.highest_price;
    trailing_stop =
        if is_zero p.trailing_stop && f.lt (f.of_nat 0) p.stop_loss
        then p.stop_loss
        else p.trailing_stop;
  }

  -- the position that `open_position` makes
  abbrev pub new_position : Text → A → ℕ → A → A → A → Text → Text → Moment → ManagedPosition A
  new_position code price quantity stop_loss target atr name order_no now =
      let zero_price = f.of_nat 0 in
      post_init (record {
        stock_code = code;
        stock_name = name;
        state = entered;
        entry_price = price;
        quantity = quantity;
        entry_date = now.date;
        entry_time = now.time;
        entry_order_no = order_no;
        atr_at_entry = atr;
        stop_loss = stop_loss;
        take_profit = target;
        trailing_stop = stop_loss;
        highest_price = price;
        current_price = zero_price;
        unrealized_pnl = zero_price;
        unrealized_pnl_pct = zero_price;
        exit = record {
          exit_price = zero_price;
          exit_date = none;
          exit_time = none;
          exit_reason = other;
          exit_order_no = [];
          realized_pnl = zero_price;
          realized_pnl_pct = zero_price;
          commission = zero_price;
        };
        holding_days = ℤ.pos 0;
      })

  pub open_position :
      PositionManager A
      → Text
      → A
      → ℕ
      → A
      → A
      → A
      → Text
      → Text
      → Moment
      → PositionManager A × Option (ManagedPosition A)
  open_position m code price quantity stop_loss target atr name order_no now =
      if contains code m.positions
      then (m, none)
      else if leb m.max_positions (length m.positions)
      then (m, none)
      else let p = new_position code price quantity stop_loss target atr name order_no now in
        (save_positions (record m { positions = insert code p m.positions }), some p)

  -- the information of an exit, before the percentage
  abbrev with_exit : ManagedPosition A → A → ExitReason → Text → A → Moment → ManagedPosition A
  with_exit p price reason order_no commission now = record p {
    state = exited;
    exit = record p.exit {
      exit_price = price;
      exit_date = some now.date;
      exit_time = some now.time;
      exit_reason = reason;
      exit_order_no = order_no;
      commission = commission;
      realized_pnl = f.sub (f.mul (f.sub price p.entry_price) (f.of_nat p.quantity)) commission;
    };
  }

  abbrev with_pct : ManagedPosition A → A → ManagedPosition A
  with_pct p price = record p {
    exit = record p.exit { realized_pnl_pct = percent (f.sub price p.entry_price) p.entry_price };
  }

  -- `holding_days` stays: the source subtracts a date without a time zone from one with, which
  -- raises a `TypeError` that the `except` around it swallows.
  pub close_position :
      PositionManager A
      → Text
      → A
      → ExitReason
      → Text
      → A
      → Moment
      → PositionManager A × Outcome (Option (ManagedPosition A))
  close_position m code price reason order_no commission now = elim (lookup code m.positions) [
    | none ↦ (m, done none)
    | some p ↦
        let p' = with_exit p price reason order_no commission now in
        if is_zero p.entry_price
        then (record m { positions = insert code p' m.positions }, zero_division)
        else let p' = with_pct p' price in
          let history : List (ManagedPosition A) = elim (lookup code m.closed_positions) [
            | none ↦ []
            | some ps ↦ ps
          ] in
          (
            save_positions (record m {
              positions = erase code m.positions;
              closed_positions = insert code (history ++ (p' ∷ [])) m.closed_positions;
            }),
            done (some p'),
          )
  ]

  pub update_unrealized : ManagedPosition A → A → ℕ → ManagedPosition A
  update_unrealized p price today =
      let priced = f.lt (f.of_nat 0) p.entry_price && ltb 0 p.quantity in
      record p {
        current_price = price;
        unrealized_pnl =
            if priced
            then f.mul (f.sub price p.entry_price) (f.of_nat p.quantity)
            else p.unrealized_pnl;
        unrealized_pnl_pct =
            if priced
            then percent (f.sub price p.entry_price) p.entry_price
            else p.unrealized_pnl_pct;
        highest_price = if f.lt p.highest_price price then price else p.highest_price;
        holding_days = (ℤ.pos today -ℤ ℤ.pos p.entry_date) +ℤ ℤ.pos 1;
      }

  -- `_update_trailing_stop`, of an entry price that is not zero
  pub update_trailing_stop : PositionManager A → ManagedPosition A → A → ManagedPosition A
  update_trailing_stop m p price =
      let new_trailing = f.sub price (f.mul p.atr_at_entry m.trailing_atr_multiplier) in
      if f.lt (percent (f.sub price p.entry_price) p.entry_price) m.trailing_activation_pct
      then p
      else if f.lt p.trailing_stop new_trailing
      then record p { trailing_stop = new_trailing }
      else p

  pub update_position :
      PositionManager A → Text → A → ℕ → PositionManager A × Outcome (Option (ManagedPosition A))
  unfolding update_unrealized update_trailing_stop
  update_position m code price today = elim (lookup code m.positions) [
    | none ↦ (m, done none)
    | some p ↦
        let p' = update_unrealized p price today in
        if m.enable_trailing && is_zero p.entry_price
        then (record m { positions = insert code p' m.positions }, zero_division)
        else let p' = if m.enable_trailing then update_trailing_stop m p' price else p' in
          (save_positions (record m { positions = insert code p' m.positions }), done (some p'))
  ]
