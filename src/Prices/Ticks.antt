-- ===== src/Prices/Ticks.antt =====
-- Aligned prices of kis_trend_atr_trading/utils/entry_utils.py are on the grid of their own tick size.
use native.Mathlib.Nat.{mul_comm}
use kis_api_trend_atr.Base.{
  ℕ, ◌+◌, ◌*◌, ◌%◌, ◌≤◌, ◌<◌, ◌≡◌, Bool, true, false, eqb, arith, inl, inr, Bool-cases,
}
use kis_api_trend_atr.Base.Text.{Text, codes, text_beq}
use kis_api_trend_atr.Prices.{
  Price, whole, tick_size, rounded, get_tick_size, is_etf, align_price_to_tick,
}

at_least_times : (c q s : ℕ) → c * s < q * s + s → c ≤ q
at_least_times c q s h = grind arith

at_most_times : (c q s : ℕ) → q * s < c * s + s → q ≤ c
at_most_times c q s h = grind arith

-- A number of ticks that is near to the price gives a price on the grid of its own tick size.
near_on_grid :
    (etf : Bool) (p : Price) (q : ℕ)
    → p.digits < tick_size etf p * (q * p.scale) + tick_size etf p * p.scale
    → tick_size etf p * (q * p.scale) < p.digits + tick_size etf p * p.scale
    → (q * tick_size etf p) % tick_size etf (whole (q * tick_size etf p)) ≡ 0
unfolding tick_size
near_on_grid true p q low high =
    ground (arith, at_least_times 400 q p.scale, at_most_times 2000 q p.scale)
near_on_grid false p q low high = ground (
  arith,
  at_least_times 400 q p.scale,
  at_least_times 500 q p.scale,
  at_most_times 1000 q p.scale,
  at_most_times 2000 q p.scale,
)

rounded_near :
    (down : Bool) (n d : ℕ)
    → 0 < d
    → (n < rounded down n d * d + d) × (rounded down n d * d < n + d)
unfolding rounded
rounded_near true n d h = (grind arith, grind arith)
rounded_near false n d h = (grind arith, grind arith)

tick_size_pos : (etf : Bool) (p : Price) → 0 < tick_size etf p
unfolding tick_size
tick_size_pos true p = ground arith
tick_size_pos false p = ground arith

mul_regroup : (q s t : ℕ) → q * (s * t) ≡ t * (q * s)
mul_regroup q s t = grind arith

mul_swap : (q t s : ℕ) → q * t * s ≡ t * (q * s)
mul_swap q t s = grind arith

rounded_on_grid :
    (etf down : Bool) (p : Price)
    → 0 < p.scale
    → let q = rounded down p.digits (p.scale * tick_size etf p) in
      (q * tick_size etf p) % tick_size etf (whole (q * tick_size etf p)) ≡ 0
rounded_on_grid etf down p h =
    let t = tick_size etf p in
    let pos_d : 0 < p.scale * t = grind (arith, tick_size_pos etf p) in
    let q = rounded down p.digits (p.scale * t) in
    let near = rounded_near down p.digits (p.scale * t) pos_d in
    near_on_grid etf p q (omega (arith, near.0, mul_regroup q p.scale t, mul_comm p.scale t))
      (omega (arith, near.1, mul_regroup q p.scale t, mul_comm p.scale t))

zero_on_grid : (t : ℕ) → 0 % t ≡ 0
zero_on_grid t = grind arith

-- An aligned price, rounded up or down, is a multiple of its own tick size, also where the rounding
-- takes it over a limit at which the tick size changes.
pub align_price_to_tick_grid :
    (p : Price) (asset_type direction : Text)
    → 0 < p.scale
    → let aligned = align_price_to_tick p asset_type direction in
      aligned % get_tick_size (whole aligned) asset_type ≡ 0
unfolding align_price_to_tick get_tick_size
align_price_to_tick_grid p asset_type direction h = elim (Bool-cases (eqb p.digits 0)) [
  | inl none_at_all ↦ rw none_at_all (zero_on_grid (tick_size (is_etf asset_type) (whole 0)))
  | inr some_price ↦
      rw some_price (rounded_on_grid (is_etf asset_type) (text_beq direction (codes "down")) p h)
]

covers : (n d : ℕ) → 0 < d → n ≤ rounded false n d * d
unfolding rounded
covers n d h = grind arith

-- A price that is aligned upwards is not lower, and higher by less than a tick.
pub align_up_near :
    (p : Price) (asset_type : Text)
    → 0 < p.scale
    → let aligned = align_price_to_tick p asset_type (codes "up") in
      (p.digits ≤ aligned * p.scale)
      × (aligned * p.scale < p.digits + get_tick_size p asset_type * p.scale)
unfolding align_price_to_tick get_tick_size text_beq
align_up_near p asset_type h =
    let t = tick_size (is_etf asset_type) p in
    let pos_t = tick_size_pos (is_etf asset_type) p in
    let pos_d : 0 < p.scale * t = grind (arith, pos_t) in
    let q = rounded false p.digits (p.scale * t) in
    let near = rounded_near false p.digits (p.scale * t) pos_d in
    elim (Bool-cases (eqb p.digits 0)) [
      | inl zero_price ↦ rw zero_price (grind (arith, zero_price, pos_t), grind (arith, pos_t))
      | inr some_price ↦ rw some_price (
        omega (
          arith,
          covers p.digits (p.scale * t) pos_d,
          mul_regroup q p.scale t,
          mul_swap q t p.scale,
        ),
        omega (arith, near.1, mul_regroup q p.scale t, mul_swap q t p.scale, mul_comm p.scale t),
      )
    ]
