-- ===== src/Trading/Saving.antt =====
-- `to_dict` and `from_dict` of `MultidayPosition` (kis_trend_atr_trading/engine/trading_state.py). The
-- dict is a record of its twelve keys, each of which may be missing, with values of the right type.
use kis_api_trend_atr.Base.{ℕ, ◌≡◌, refl, ap, false, Option, none, some, [], if◌then◌else◌, arith}
use kis_api_trend_atr.Base.Eq.{◌==◌}
use kis_api_trend_atr.Base.Floats.{Floats}
use kis_api_trend_atr.Base.Text.{Text, codes, text_keyed, text_beq}
use kis_api_trend_atr.Trading.{
  TradingState, wait, entered, exited, MultidayPosition, Now, is_blank, post_init,
}

pub record PositionDict (A : Type 0) : Type 0 where
  pub symbol : Option Text
  pub position : Option Text
  pub entry_price : Option A
  pub quantity : Option ℕ
  pub atr_at_entry : Option A
  pub stop_loss : Option A
  -- the value may be None
  pub take_profit : Option (Option A)
  pub trailing_stop : Option A
  pub highest_price : Option A
  pub entry_date : Option Text
  pub entry_time : Option Text
  pub state : Option Text

unfoldable pub state_value : TradingState → Text
state_value wait = codes "WAIT"
state_value entered = codes "ENTERED"
state_value exited = codes "EXITED"

-- `TradingState(text)`, which raises a ValueError for another text
unfoldable pub parse_state : Text → Option TradingState
parse_state s =
    if s == codes "WAIT"
    then some wait
    else if s == codes "ENTERED"
    then some entered
    else if s == codes "EXITED"
    then some exited
    else none

pub parse-state_value : (s : TradingState) → parse_state (state_value s) ≡ some s
unfolding parse_state state_value text_beq
parse-state_value wait = refl
parse-state_value entered = refl
parse-state_value exited = refl

abbrev or_default {ℓ} : {B : Type ℓ} → B → Option B → B
or_default b none = b
or_default b (some x) = x

unfoldable pub to_dict : {A : Type 0} → MultidayPosition A → PositionDict A
to_dict p = record {
  symbol = some p.symbol;
  position = some p.position;
  entry_price = some p.entry_price;
  quantity = some p.quantity;
  atr_at_entry = some p.atr_at_entry;
  stop_loss = some p.stop_loss;
  take_profit = some p.take_profit;
  trailing_stop = some p.trailing_stop;
  highest_price = some p.highest_price;
  entry_date = some p.entry_date;
  entry_time = some p.entry_time;
  state = some (state_value p.state);
}

-- the state of a dict: WAIT if there is no such key
unfoldable pub state_of : Option Text → Option TradingState
state_of none = some wait
state_of (some s) = parse_state s

module _ {A : Type 0} ⦃f : Floats A⦄ where
  -- `cls(**saved)`; an exception is `none`.
  unfoldable pub built :
      PositionDict A → Now → Option Text → Option TradingState → Option (MultidayPosition A)
  built saved now none state = none
  built saved now (some symbol) none = none
  built saved now (some symbol) (some state) =
      let zero = f.of_nat 0 in
      some (
        post_init
          (record {
            symbol = symbol;
            position = or_default (codes "LONG") saved.position;
            entry_price = or_default zero saved.entry_price;
            quantity = or_default 0 saved.quantity;
            atr_at_entry = or_default zero saved.atr_at_entry;
            stop_loss = or_default zero saved.stop_loss;
            take_profit = or_default none saved.take_profit;
            trailing_stop = or_default zero saved.trailing_stop;
            highest_price = or_default zero saved.highest_price;
            entry_date = or_default [] saved.entry_date;
            entry_time = or_default [] saved.entry_time;
            state = state;
          })
          now)

  unfoldable pub from_dict : PositionDict A → Now → Option (MultidayPosition A)
  from_dict saved now = built saved now saved.symbol (state_of saved.state)

  post_init_again :
      (p : MultidayPosition A) (now later : Now)
      → is_blank now.date_text ≡ false
      → is_blank now.time_text ≡ false
      → post_init (post_init p now) later ≡ post_init p now
  unfolding post_init
  post_init_again p now later d t = ground (arith, f.lt_not_le (f.of_nat 0) p.entry_price)

  -- A position that `__post_init__` has completed, with a date and a time that are not empty, is read
  -- back as it was saved, whenever it is read.
  pub from_dict-to_dict :
      (p : MultidayPosition A) (now later : Now)
      → is_blank now.date_text ≡ false
      → is_blank now.time_text ≡ false
      → from_dict (to_dict (post_init p now)) later ≡ some (post_init p now)
  unfolding from_dict to_dict built state_of post_init
  from_dict-to_dict p now later d t =
      rw (parse-state_value p.state) (ap some (post_init_again p now later d t))
