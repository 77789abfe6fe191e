-- ===== src/Executor/OrderPlan.antt =====
-- `_build_entry_order_plan` of MultidayExecutor (kis_trend_atr_trading/engine/multiday_executor.py): a market
-- order, or a limit some ticks above the best ask that may be too high. Prices and shares of a price are
-- exact decimals here, as in Prices; values below zero are zero. The type of the asset is an argument.
pub mod Limit
use kis_api_trend_atr.Base.{
  ℕ, ◌+◌, ◌*◌, ◌&&◌, ◌||◌, not, Bool, true, false, Option, none, some, if◌then◌else◌, ltb, eqb,
}
use kis_api_trend_atr.Base.Eq.{◌==◌}
use kis_api_trend_atr.Base.Int.{ℤ, at_least}
use kis_api_trend_atr.Base.Text.{Text, codes, strip, lower, text_keyed}
use kis_api_trend_atr.Prices.{Price, is_etf, get_tick_size, align_price_to_tick}

pub record PlanSettings : Type 0 where
  pub entry_order_style : Text
  pub protect_ticks_etf : ℤ
  pub protect_ticks_stock : ℤ
  pub enable_breakout_extension_cap : Bool
  pub max_breakout_extension_etf : Price
  pub max_breakout_extension_stock : Price
  pub max_slippage : Price

-- what the plan reads of the signal's `meta`, with zero for what is missing
pub record PlanMeta : Type 0 where
  pub asset_type : Text
  pub prev_high : Price
  pub entry_reference_price : Price
  pub max_allowed_pct : Price

pub record PlanQuote : Type 0 where
  pub current_price : Price
  -- `none` for one that is missing or zero
  pub best_ask : Option Price

pub record EntryPlan : Type 0 where
  pub blocked : Bool
  pub order_type : Text
  pub price : ℕ

abbrev pub is_none : Price → Bool
is_none p = eqb p.digits 0

abbrev pub or_price : Price → Price → Price
or_price p q = if is_none p then q else p

unfoldable pub is_protected_limit : PlanSettings → Bool
is_protected_limit s = lower (strip s.entry_order_style) == codes "protected_limit"

unfoldable pub protect_ticks : PlanSettings → Text → ℕ
protect_ticks s asset_type =
    at_least 0 (if is_etf asset_type then s.protect_ticks_etf else s.protect_ticks_stock)

abbrev pub base_price : PlanQuote → Price
base_price q = elim q.best_ask [ none ↦ q.current_price | some ask ↦ ask ]

-- the base price with so many ticks on top
unfoldable pub working_price : PlanSettings → Text → PlanQuote → Price
working_price s asset_type q =
    let base = base_price q in
    record base {
      digits =
          base.digits + get_tick_size base asset_type * protect_ticks s asset_type * base.scale;
    }

unfoldable pub limit_price : PlanSettings → Text → PlanQuote → ℕ
limit_price s asset_type q =
    align_price_to_tick (working_price s asset_type q) asset_type (codes "up")

unfoldable pub breakout_cap : PlanSettings → PlanMeta → Price
breakout_cap s m =
    if is_none m.max_allowed_pct && s.enable_breakout_extension_cap
    then (if is_etf m.asset_type
        then s.max_breakout_extension_etf
        else s.max_breakout_extension_stock)
    else m.max_allowed_pct

-- `compute_extension_pct(price, reference) > cap`, for a cap and a reference above zero
abbrev pub exceeds : ℕ → Price → Price → Bool
exceeds price reference cap =
    not (is_none cap)
    && not (is_none reference)
    && ltb (reference.digits * (cap.scale + cap.digits)) (price * (reference.scale * cap.scale))

unfoldable pub build_entry_order_plan : PlanSettings → PlanMeta → PlanQuote → EntryPlan
build_entry_order_plan s m q =
    let limit = limit_price s m.asset_type q in
    if is_protected_limit s
    then record {
      blocked =
          exceeds limit (or_price m.entry_reference_price m.prev_high) (breakout_cap s m)
          || exceeds limit q.current_price s.max_slippage;
      order_type = codes "00";
      price = limit;
    }
    else record { blocked = false; order_type = codes "01"; price = 0 }
