-- ===== src/Saved/Daily.antt =====
-- `DailyTradeStore` of kis_trend_atr_trading/utils/position_store.py: the trades of each day, which the
-- daily limits count. A file that is not there or cannot be read is an empty one.
pub mod Streaks
use mathlib.Core.List.{reverse, reverse-append, append-nil, append_assoc}
use kis_api_trend_atr.Base.{
  ℕ, ◌+◌, ◌≡◌, refl, sym, ap, ◌∙◌, Bool, true, false, Option, none, some, List, [], ◌∷◌, ◌++◌,
  arith, if◌then◌else◌, leb, length, Bool-cases, Option-cases, inl, inr, foldl,
}
use kis_api_trend_atr.Base.Dict.{Dict, lookup, insert, erase, contains, lookup-insert}
use kis_api_trend_atr.Base.Floats.{Floats}
use kis_api_trend_atr.Base.Text.{Text, text_keyed, text_beq, text_beq_iff}

pub record DailyTrade (A : Type 0) : Type 0 where
  -- `trade.get("type") == "BUY"`
  pub is_buy : Bool
  pub entry_price : A
  pub quantity : ℕ
  pub pnl : A

pub record TradingDay (A : Type 0) : Type 0 where
  pub trades : List (DailyTrade A)
  pub total_pnl : A
  pub consecutive_losses : ℕ

pub record DailyTradeStore (A : Type 0) : Type 0 where
  pub file : Option (Dict Text (TradingDay A))
  pub writable : Bool

pub record DailyStats (A : Type 0) : Type 0 where
  pub trade_count : ℕ
  pub total_pnl : A
  pub total_pnl_pct : A
  pub consecutive_losses : ℕ
  pub trades : List (DailyTrade A)

pub data DailyLimit : Type 0 where
  loss_limit trade_limit losing_limit : DailyLimit

module _ {A : Type 0} where
  -- `_load_data`
  load_data : Option (Dict Text (TradingDay A)) → Dict Text (TradingDay A)
  load_data none = []
  load_data (some days) = days

  -- `_save_data`, or the exception
  save_data : Dict Text (TradingDay A) → DailyTradeStore A → DailyTradeStore A × Bool
  save_data days s = if s.writable then (record s { file = some days }, true) else (s, false)

  unfoldable pub clear_today : Text → DailyTradeStore A → DailyTradeStore A × Bool
  unfolding load_data save_data
  clear_today today s =
      let days = load_data s.file in
      if contains today days then save_data (erase today days) s else (s, true)

module _ {A : Type 0} ⦃f : Floats A⦄ where
  abbrev pub is_loss : DailyTrade A → Bool
  is_loss t = f.lt t.pnl (f.of_nat 0)

  abbrev pub new_day : TradingDay A
  new_day = record { trades = []; total_pnl = f.of_nat 0; consecutive_losses = 0 }

  abbrev pub day_or_new : Option (TradingDay A) → TradingDay A
  day_or_new none = new_day
  day_or_new (some d) = d

  -- a day with one trade more
  with_trade : DailyTrade A → TradingDay A → TradingDay A
  with_trade t d = record {
    trades = d.trades ++ (t ∷ []);
    total_pnl = f.add d.total_pnl t.pnl;
    consecutive_losses = if is_loss t then d.consecutive_losses + 1 else 0;
  }

  pub save_trade : Text → DailyTrade A → DailyTradeStore A → DailyTradeStore A × Bool
  unfolding load_data save_data with_trade
  save_trade today t s =
      let days = load_data s.file in
      save_data (insert today (with_trade t (day_or_new (lookup today days))) days) s

  bought : A → List (DailyTrade A) → A
  bought total [] = total
  bought total (t ∷ trades) =
      bought (if t.is_buy then f.add total (f.mul t.entry_price (f.of_nat t.quantity)) else total)
        trades

  pub get_daily_stats : Text → DailyTradeStore A → DailyStats A
  unfolding bought load_data
  get_daily_stats today s =
      let d = day_or_new (lookup today (load_data s.file)) in
      let total = bought (f.of_nat 0) d.trades in
      record {
        trade_count = length d.trades;
        total_pnl = d.total_pnl;
        total_pnl_pct =
            if f.lt (f.of_nat 0) total
            then f.mul (f.div d.total_pnl total) (f.of_nat 100)
            else f.of_nat 0;
        consecutive_losses = d.consecutive_losses;
        trades = d.trades;
      }

  pub is_daily_limit_reached : A → ℕ → ℕ → Text → DailyTradeStore A → Option DailyLimit
  unfolding get_daily_stats
  is_daily_limit_reached max_loss_pct max_trades max_consecutive_losses today s =
      let stats = get_daily_stats today s in
      if f.le stats.total_pnl_pct (f.sub (f.of_nat 0) max_loss_pct)
      then some loss_limit
      else if leb max_trades stats.trade_count
      then some trade_limit
      else if leb max_consecutive_losses stats.consecutive_losses
      then some losing_limit
      else none
