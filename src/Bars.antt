-- ===== src/Bars.antt =====
-- `MinuteBarAggregator` of kis_trend_atr_trading/adapters/kis_ws/bar_aggregator.py: one-minute bars from
-- ticks. A time stamp is in microseconds, in a time zone whose offset is whole minutes. Of a tick the
-- quotes and the time of receipt are left out, which the code does not read; the timeframe is `1m`.
pub mod Groups
pub mod Range
use kis_api_trend_atr.Base.{ℕ, ◌+◌, ◌-◌, ◌%◌, Option, none, some, if◌then◌else◌, []}
use kis_api_trend_atr.Base.Eq.{◌==◌, nat_keyed}
use kis_api_trend_atr.Base.Dict.{Dict, lookup, insert, erase}
use kis_api_trend_atr.Base.Floats.{Floats}
use kis_api_trend_atr.Base.Text.{Text, zfill, text_keyed}

pub record MarketTick (A : Type 0) : Type 0 where
  pub stock_code : Text
  pub price : A
  pub volume : A
  pub timestamp : ℕ

pub record OhlcvBar (A : Type 0) : Type 0 where
  pub stock_code : Text
  pub start_at : ℕ
  pub end_at : ℕ
  pub open_price : A
  pub high : A
  pub low : A
  pub close : A
  pub volume : A

abbrev pub one_minute : ℕ
one_minute = 60000000

unfoldable pub minute_floor : ℕ → ℕ
minute_floor ts = ts - ts % one_minute

abbrev pub Aggregator : Type 0 → Type 0
Aggregator A = Dict Text (OhlcvBar A)

module _ {A : Type 0} where
  unfoldable pub tick_code : MarketTick A → Text
  tick_code t = zfill 6 t.stock_code

  -- the bar of a tick alone
  unfoldable pub new_bar : MarketTick A → OhlcvBar A
  unfolding tick_code
  new_bar t = record {
    stock_code = tick_code t;
    start_at = minute_floor t.timestamp;
    end_at = minute_floor t.timestamp + one_minute;
    open_price = t.price;
    high = t.price;
    low = t.price;
    close = t.price;
    volume = t.volume;
  }

  unfoldable pub flush : Option Text → Aggregator A → Aggregator A × Option (OhlcvBar A)
  flush none d = (d, none)
  flush (some stock_code) d = let code = zfill 6 stock_code in (erase code d, lookup code d)

  unfoldable pub flush_all : Aggregator A → Aggregator A × Dict Text (OhlcvBar A)
  flush_all d = ([], d)

module _ {A : Type 0} ⦃f : Floats A⦄ where
  -- `max(a, b)` and `min(a, b)` keep `a` unless `b` is beyond it.
  unfoldable pub larger : A → A → A
  larger a b = if f.lt a b then b else a

  unfoldable pub smaller : A → A → A
  smaller a b = if f.lt b a then b else a

  -- a bar with one more tick of its minute
  unfoldable pub extend : OhlcvBar A → MarketTick A → OhlcvBar A
  extend b t = record b {
    high = larger b.high t.price;
    low = smaller b.low t.price;
    close = t.price;
    volume = f.add b.volume t.volume;
  }

  -- the bar that a tick leaves in the dict, and the one that it completes
  unfoldable pub next_bar : MarketTick A → Option (OhlcvBar A) → OhlcvBar A × Option (OhlcvBar A)
  next_bar t none = (new_bar t, none)
  next_bar t (some current) =
      if minute_floor t.timestamp == current.start_at
      then (extend current t, none)
      else (new_bar t, some current)

  unfoldable pub add_tick : MarketTick A → Aggregator A → Aggregator A × Option (OhlcvBar A)
  add_tick t d =
      let (bar, completed) = next_bar t (lookup (tick_code t) d) in
      (insert (tick_code t) bar d, completed)
