-- ===== src/Trading.antt =====
-- `MultidayPosition` and `TradingStateMachine` of kis_trend_atr_trading/engine/trading_state.py. Prices
-- are `Floats`; the clock of a call is an argument, with the date and the time as the code prints them
-- and the day's number. `strptime` of a date is a parameter. The summary for the log is left out.
pub mod Machine
pub mod Saving
use kis_api_trend_atr.Base.{
  ℕ, ◌&&◌, ◌||◌, not, Bool, true, false, Option, none, some, List, [], ◌∷◌, if◌then◌else◌, is_some,
}
use kis_api_trend_atr.Base.Eq.{◌==◌}
use kis_api_trend_atr.Base.Int.{ℤ, pos, ◌+ℤ◌, ◌-ℤ◌}
use kis_api_trend_atr.Base.Floats.{Floats}
use kis_api_trend_atr.Base.Text.{Text, codes, text_keyed}

pub data TradingState : Type 0 where
  wait entered exited : TradingState

pub data ExitReason : Type 0 where
  atr_stop_loss atr_take_profit trailing_stop_hit trend_broken : ExitReason
  gap_protection manual_exit kill_switch : ExitReason

pub record MultidayPosition (A : Type 0) : Type 0 where
  pub symbol : Text
  pub position : Text
  pub entry_price : A
  pub quantity : ℕ
  pub atr_at_entry : A
  pub stop_loss : A
  pub take_profit : Option A
  pub trailing_stop : A
  pub highest_price : A
  pub entry_date : Text
  pub entry_time : Text
  pub state : TradingState

-- `datetime.now(KST)`
pub record Now : Type 0 where
  pub date_text : Text
  pub time_text : Text
  pub day : ℕ

pub record TradingStateMachine (A : Type 0) : Type 0 where
  pub position : Option (MultidayPosition A)
  pub state : TradingState
  pub last_exit_reason : Option ExitReason

-- what `exit_position` gives back
pub record ExitResult (A : Type 0) : Type 0 where
  pub symbol : Text
  pub entry_price : A
  pub exit_price : A
  pub quantity : ℕ
  pub pnl : A
  pub pnl_pct : A
  pub entry_date : Text
  pub exit_date : Text
  pub exit_reason : ExitReason
  pub atr_at_entry : A
  pub holding_days : ℤ

abbrev pub is_entered : TradingState → Bool
is_entered entered = true
is_entered _ = false

abbrev pub is_blank : Text → Bool
is_blank [] = true
is_blank (c ∷ s) = false

unfoldable pub new_machine : {A : Type 0} → TradingStateMachine A
new_machine = record { position = none; state = wait; last_exit_reason = none }

unfoldable pub has_position : {A : Type 0} → TradingStateMachine A → Bool
has_position m = is_some m.position && is_entered m.state

-- `strptime` gives the number of the day, or raises a ValueError.
unfoldable pub calculate_holding_days :
    {A : Type 0} → (Text → Option ℕ) → Option (MultidayPosition A) → Now → ℤ
calculate_holding_days strptime none now = pos 0
calculate_holding_days strptime (some p) now =
    if is_blank p.entry_date then pos 0 else elim (strptime p.entry_date) [
      | none ↦ pos 0
      | some day ↦ (pos now.day -ℤ pos day) +ℤ pos 1
    ]

unfoldable pub reset_to_wait : {A : Type 0} → TradingStateMachine A → TradingStateMachine A
reset_to_wait m = record m { state = wait; position = none }

unfoldable pub restore_position :
    {A : Type 0} → MultidayPosition A → TradingStateMachine A → TradingStateMachine A
restore_position p m = record m { position = some (record p { state = entered }); state = entered }

module _ {A : Type 0} ⦃f : Floats A⦄ where
  abbrev pub is_zero : A → Bool
  is_zero a = f.le a (f.of_nat 0) && f.le (f.of_nat 0) a

  abbrev pub is_positive : A → Bool
  is_positive a = f.lt (f.of_nat 0) a

  -- `__post_init__`
  unfoldable pub post_init : MultidayPosition A → Now → MultidayPosition A
  post_init p now = record p {
    entry_date = if is_blank p.entry_date then now.date_text else p.entry_date;
    entry_time = if is_blank p.entry_time then now.time_text else p.entry_time;
    highest_price =
        if is_zero p.highest_price && is_positive p.entry_price
        then p.entry_price
        else p.highest_price;
  }

  unfoldable pub update_highest_price : A → MultidayPosition A → MultidayPosition A × Bool
  update_highest_price price p =
      if f.lt p.highest_price price then (record p { highest_price = price }, true) else (p, false)

  unfoldable pub update_trailing_stop : A → MultidayPosition A → MultidayPosition A × Bool
  update_trailing_stop new_stop p =
      if f.lt p.trailing_stop new_stop
      then (record p { trailing_stop = new_stop }, true)
      else (p, false)

  unfoldable pub get_pnl : A → MultidayPosition A → A × A
  get_pnl price p =
      let gain = f.sub price p.entry_price in
      if f.le p.entry_price (f.of_nat 0)
      then (f.of_nat 0, f.of_nat 0)
      else (f.mul gain (f.of_nat p.quantity), f.mul (f.div gain p.entry_price) (f.of_nat 100))

  unfoldable pub get_distance_to_stop_loss : A → MultidayPosition A → A
  get_distance_to_stop_loss price p =
      let zero = f.of_nat 0 in
      let total = f.sub p.entry_price p.stop_loss in
      if f.le p.entry_price zero || f.le p.stop_loss zero
      then zero
      else if f.le total zero
      then f.of_nat 100
      else f.mul (f.div (f.sub p.entry_price price) total) (f.of_nat 100)

  unfoldable pub get_distance_to_take_profit : A → MultidayPosition A → A
  get_distance_to_take_profit price p =
      let zero = f.of_nat 0 in
      if f.le p.entry_price zero then zero else elim p.take_profit [
        | none ↦ zero
        | some target ↦
            let total = f.sub target p.entry_price in
            if f.le total zero
            then f.of_nat 100
            else f.mul (f.div (f.sub price p.entry_price) total) (f.of_nat 100)
      ]

  unfoldable pub opened_position : Text → A → ℕ → A → A → Option A → A → Now → MultidayPosition A
  opened_position symbol entry_price quantity atr stop_loss take_profit trailing now =
      post_init
        (record {
          symbol = symbol;
          position = codes "LONG";
          entry_price = entry_price;
          quantity = quantity;
          atr_at_entry = atr;
          stop_loss = stop_loss;
          take_profit = take_profit;
          trailing_stop = if is_positive trailing then trailing else stop_loss;
          highest_price = entry_price;
          entry_date = [];
          entry_time = [];
          state = entered;
        })
        now

  -- A ValueError is `none`.
  unfoldable pub enter_position :
      Text
      → A
      → ℕ
      → A
      → A
      → Option A
      → A
      → Now
      → TradingStateMachine A
      → TradingStateMachine A × Option (MultidayPosition A)
  enter_position symbol entry_price quantity atr stop_loss take_profit trailing now m =
      let p = opened_position symbol entry_price quantity atr stop_loss take_profit trailing now in
      if is_entered m.state
      then (m, none)
      else (record { position = some p; state = entered; last_exit_reason = none }, some p)

  unfoldable pub exit_result :
      (Text → Option ℕ) → ExitReason → A → Now → MultidayPosition A → ExitResult A
  exit_result strptime reason price now p =
      let (pnl, pnl_pct) = get_pnl price p in
      record {
        symbol = p.symbol;
        entry_price = p.entry_price;
        exit_price = price;
        quantity = p.quantity;
        pnl = pnl;
        pnl_pct = pnl_pct;
        entry_date = p.entry_date;
        exit_date = now.date_text;
        exit_reason = reason;
        atr_at_entry = p.atr_at_entry;
        holding_days = calculate_holding_days strptime (some p) now;
      }

  unfoldable pub exit_position :
      (Text → Option ℕ)
      → ExitReason
      → A
      → Now
      → TradingStateMachine A
      → TradingStateMachine A × Option (ExitResult A)
  exit_position strptime reason price now m = elim m.position [
    | none ↦ (m, none)
    | some p ↦
        if is_entered m.state
        then (
          record { position = none; state = exited; last_exit_reason = some reason },
          some (exit_result strptime reason price now p),
        )
        else (m, none)
  ]
