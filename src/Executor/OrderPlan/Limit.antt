-- ===== src/Executor/OrderPlan/Limit.antt =====
-- The limit of a protected order (kis_trend_atr_trading/engine/multiday_executor.py).
use kis_api_trend_atr.Base.{ℕ, ◌+◌, ◌*◌, ◌%◌, ◌≤◌, ◌<◌, ◌≡◌, refl, Bool, true, false, arith, ◌||◌}
use kis_api_trend_atr.Base.Text.{codes}
use kis_api_trend_atr.Prices.{Price, whole, get_tick_size}
use kis_api_trend_atr.Prices.Ticks.{align_price_to_tick_grid, align_up_near}
use kis_api_trend_atr.Executor.OrderPlan.{
  PlanSettings, PlanMeta, PlanQuote, base_price, protect_ticks, working_price, limit_price,
  is_protected_limit, build_entry_order_plan, exceeds, is_none, or_price, breakout_cap,
}

within_cap :
    (price : ℕ) (reference cap : Price)
    → exceeds price reference cap ≡ false
    → is_none cap ≡ false
    → is_none reference ≡ false
    → price * (reference.scale * cap.scale) ≤ reference.digits * (cap.scale + cap.digits)
within_cap price reference cap e c r = ground arith

||_off : (a b : Bool) → (a || b) ≡ false → (a ≡ false) × (b ≡ false)
||_off true b h = absurd (cc)
||_off false b h = (refl, h)

-- A protected limit order that the plan does not block has a price on the grid of its own tick size, not
-- lower than the base price (the best ask, or the current price where there is none) with the ticks on
-- top, and higher than that by less than a tick. Where there is a cap on the slippage and a current
-- price, it is not higher than that price with the cap's share added, and likewise for the cap on the
-- breakout and its reference price. The scale of the base price is not zero.
pub build_entry_order_plan_limit :
    (s : PlanSettings) (m : PlanMeta) (q : PlanQuote)
    → 0 < (base_price q).scale
    → is_protected_limit s ≡ true
    → (build_entry_order_plan s m q).blocked ≡ false
    → let price = (build_entry_order_plan s m q).price in
      let base = base_price q in
      let tick = get_tick_size base m.asset_type in
      let least = base.digits + tick * protect_ticks s m.asset_type * base.scale in
      (price % get_tick_size (whole price) m.asset_type ≡ 0)
      × (least ≤ price * base.scale)
      × (price * base.scale
          < least + get_tick_size (working_price s m.asset_type q) m.asset_type * base.scale)
      × (is_none s.max_slippage ≡ false
          → is_none q.current_price ≡ false
          → price * (q.current_price.scale * s.max_slippage.scale)
            ≤ q.current_price.digits * (s.max_slippage.scale + s.max_slippage.digits))
      × (is_none (breakout_cap s m) ≡ false
          → is_none (or_price m.entry_reference_price m.prev_high) ≡ false
          → price
              * ((or_price m.entry_reference_price m.prev_high).scale * (breakout_cap s m).scale)
            ≤ (or_price m.entry_reference_price m.prev_high).digits
              * ((breakout_cap s m).scale + (breakout_cap s m).digits))
unfolding build_entry_order_plan limit_price working_price
build_entry_order_plan_limit s m q pos_scale protected open_plan =
    let working = working_price s m.asset_type q in
    let price = limit_price s m.asset_type q in
    let near = align_up_near working m.asset_type pos_scale in
    let reference = or_price m.entry_reference_price m.prev_high in
    let free =
      ||_off (exceeds price reference (breakout_cap s m))
        (exceeds price q.current_price s.max_slippage) (rw protected at open_plan) in
    rw protected (
      align_price_to_tick_grid working m.asset_type (codes "up") pos_scale,
      near.0,
      near.1,
      λ cap current. within_cap price q.current_price s.max_slippage free.1 cap current,
      λ cap known. within_cap price reference (breakout_cap s m) free.0 cap known,
    )
