-- ===== src/Virtual.antt =====
-- `VirtualAccount` of kis_trend_atr_trading/cbt/virtual_account.py, the account of paper runs. Amounts are
-- `Floats`; the clock is an argument, with the date's number, and `strptime` on the first word of a
-- date a parameter. The file is the state that was saved last. Order numbers, messages and the
-- summaries for reports are left out.
pub mod Trades
pub mod Balance
use kis_api_trend_atr.Base.{
  ℕ, ◌+◌, ◌&&◌, ◌||◌, not, Bool, true, false, Option, none, some, List, [], ◌∷◌, ◌++◌,
  if◌then◌else◌, last_items, is_some,
}
use kis_api_trend_atr.Base.Floats.{Floats}
use kis_api_trend_atr.Base.Int.{ℤ, pos, ◌+ℤ◌, ◌-ℤ◌}
use kis_api_trend_atr.Base.Text.{Text}
use kis_api_trend_atr.Trading.{is_zero, is_positive, is_blank}

pub record CbtPosition (A : Type 0) : Type 0 where
  pub stock_code : Text
  pub entry_price : A
  pub quantity : ℕ
  pub entry_date : Text
  pub stop_loss : A
  pub take_profit : A
  pub atr_at_entry : A
  pub highest_price : A
  pub trailing_stop : A

pub record EquitySnapshot (A : Type 0) : Type 0 where
  pub timestamp : Text
  pub cash : A
  pub position_value : A
  pub total_equity : A
  pub unrealized_pnl : A

pub record AccountState (A : Type 0) : Type 0 where
  pub initial_capital : A
  pub cash : A
  pub realized_pnl : A
  pub unrealized_pnl : A
  pub total_trades : ℕ
  pub winning_trades : ℕ
  pub losing_trades : ℕ
  pub position : Option (CbtPosition A)
  pub equity_curve : List (EquitySnapshot A)

pub record VirtualAccount (A : Type 0) : Type 0 where
  pub state : AccountState A
  pub file : Option (AccountState A)

-- `settings.CBT_COMMISSION_RATE` and those of the trailing stop
pub record CbtSettings (A : Type 0) : Type 0 where
  pub commission_rate : A
  pub enable_trailing_stop : Bool
  pub trailing_stop_atr_multiplier : A

pub record CbtNow : Type 0 where
  pub timestamp : Text
  pub day : ℕ

pub record BuyRequest (A : Type 0) : Type 0 where
  pub stock_code : Text
  pub price : A
  pub quantity : ℕ
  pub stop_loss : A
  pub take_profit : A
  pub atr : A
  -- empty for None
  pub entry_date : Text

pub data BuyReply (A : Type 0) : Type 0 where
  already_holding not_enough_cash : BuyReply A
  bought : A → BuyReply A

pub record SellResult (A : Type 0) : Type 0 where
  pub gross_pnl : A
  pub commission : A
  pub net_pnl : A
  pub return_pct : A
  pub holding_days : ℤ

pub data SellReply (A : Type 0) : Type 0 where
  nothing_held : SellReply A
  -- the date cannot be read, or the position cost nothing
  sell_raised : SellReply A
  sold : SellResult A → SellReply A

module _ {A : Type 0} ⦃f : Floats A⦄ where
  abbrev pub cost : A → ℕ → A
  cost price quantity = f.mul price (f.of_nat quantity)

  abbrev fresh_state : A → AccountState A
  fresh_state initial_capital = record {
    initial_capital = initial_capital;
    cash = initial_capital;
    realized_pnl = f.of_nat 0;
    unrealized_pnl = f.of_nat 0;
    total_trades = 0;
    winning_trades = 0;
    losing_trades = 0;
    position = none;
    equity_curve = [];
  }

  -- `__init__`, with `_load_state` where a file is there
  unfoldable pub new_account : A → Bool → Option (AccountState A) → VirtualAccount A
  new_account initial_capital load_existing file = record {
    state =
        if load_existing
        then elim file [ none ↦ fresh_state initial_capital | some saved ↦ saved ]
        else fresh_state initial_capital;
    file = file;
  }

  -- `_save_state`: the last 1000 points of the curve
  unfoldable pub save_state : VirtualAccount A → VirtualAccount A
  save_state v = record v {
    file = some (record v.state { equity_curve = last_items 1000 v.state.equity_curve });
  }

  held_value : A → Option (CbtPosition A) → A
  held_value price none = f.of_nat 0
  held_value price (some p) = if is_zero price then f.of_nat 0 else cost price p.quantity

  snapshot : CbtNow → A → AccountState A → EquitySnapshot A
  unfolding held_value
  snapshot now price s =
      let position_value = held_value price s.position in
      record {
        timestamp = now.timestamp;
        cash = s.cash;
        position_value = position_value;
        total_equity = f.add s.cash position_value;
        unrealized_pnl = s.unrealized_pnl;
      }

  -- `_record_equity_snapshot`
  record_equity_snapshot : CbtNow → A → VirtualAccount A → VirtualAccount A
  unfolding snapshot
  record_equity_snapshot now price v = record v {
    state = record v.state {
      equity_curve = v.state.equity_curve ++ (snapshot now price v.state ∷ []);
    };
  }

  unfoldable pub bought_position : CbtNow → BuyRequest A → CbtPosition A
  bought_position now b = record {
    stock_code = b.stock_code;
    entry_price = b.price;
    quantity = b.quantity;
    entry_date = if is_blank b.entry_date then now.timestamp else b.entry_date;
    stop_loss = b.stop_loss;
    take_profit = b.take_profit;
    atr_at_entry = b.atr;
    highest_price = b.price;
    trailing_stop = b.stop_loss;
  }

  -- the new state is saved, and then gets its point of the curve
  unfoldable pub finish : CbtNow → A → VirtualAccount A → VirtualAccount A
  unfolding record_equity_snapshot save_state
  finish now price v = record_equity_snapshot now price (save_state v)

  -- for the price, or the entry price
  unfoldable pub get_total_equity : Option A → AccountState A → A
  get_total_equity price s = elim s.position [
    | none ↦ s.cash
    | some p ↦
        f.add s.cash
          (elim price [ none ↦ cost p.entry_price p.quantity | some x ↦ cost x p.quantity ])
  ]

  unfoldable pub reset_account : VirtualAccount A → VirtualAccount A
  reset_account v = record { state = fresh_state v.state.initial_capital; file = none }
