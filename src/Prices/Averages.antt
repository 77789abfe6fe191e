-- ===== src/Prices/Averages.antt =====
-- kis_trend_atr_trading/utils/avg_price.py: average prices in hundredths, rounded half up. A
-- `Decimal` is an exact quotient of numbers from zero on: its context of 28 digits holds the sums
-- here, and a quotient that it cuts lies no nearer to a tie than the exact one. A text is given by what
-- it reads as; NaN and the infinite values are left out.
use kis_api_trend_atr.Base.{
  ℕ, zero, suc, ◌+◌, ◌-◌, ◌*◌, ◌/◌, ◌≤◌, ◌<◌, ◌≡◌, refl, if◌then◌else◌, ltb, arith, min, max,
}
use kis_api_trend_atr.Base.Int.{ℤ, pos, negsuc}
use kis_api_trend_atr.Prices.{Price}

pub data ValueError : Type 0 where
  invalid_price fill_qty_not_positive existing_qty_negative sell_qty_not_positive
        sell_qty_too_large :
      ValueError

pub data Result (A : Type 0) : Type 0 where
  ok : A → Result A
  err : ValueError → Result A

-- the whole number nearest to `n / d`, a tie upwards
half_up : ℕ → ℕ → ℕ
half_up n d = (2 * n + d) / (2 * d)

-- a price in hundredths
unfoldable pub quantize_price : Price → ℕ
unfolding half_up
quantize_price p = half_up (100 * p.digits) p.scale

-- a value that is given as a price, by what `Decimal` makes of it: missing, empty and wrong ones are alike
pub data PriceValue : Type 0 where
  unreadable : PriceValue
  decimal : Price → PriceValue

-- `quantize_price(_to_decimal(value))`
unfoldable pub quantized : PriceValue → Result ℕ
unfolding quantize_price
quantized unreadable = err invalid_price
quantized (decimal p) = ok (quantize_price p)

-- The weighted average of two prices in hundredths.
weighted : Result ℕ → ℕ → ℕ → ℕ → Result ℕ
unfolding half_up
weighted (err e) existing_qty fill_price fill_qty = err e
weighted (ok existing_avg) existing_qty fill_price fill_qty =
    ok (half_up (existing_avg * existing_qty + fill_price * fill_qty) (existing_qty + fill_qty))

-- past the tests of the quantities, with the fill's price
averaged : PriceValue → ℕ → Result ℕ → ℕ → Result ℕ
unfolding weighted
averaged existing_avg existing_qty (err e) fill_qty = err e
averaged existing_avg zero (ok fill_price) fill_qty = ok fill_price
averaged existing_avg (suc m) (ok fill_price) fill_qty =
    weighted (quantized existing_avg) (suc m) fill_price fill_qty

unfoldable pub calc_weighted_avg : PriceValue → ℤ → PriceValue → ℤ → Result ℕ
unfolding averaged
calc_weighted_avg existing_avg existing_qty fill_price (negsuc n) = err fill_qty_not_positive
calc_weighted_avg existing_avg existing_qty fill_price (pos zero) = err fill_qty_not_positive
calc_weighted_avg existing_avg (negsuc m) fill_price (pos (suc n)) = err existing_qty_negative
calc_weighted_avg existing_avg (pos m) fill_price (pos (suc n)) =
    averaged existing_avg m (quantized fill_price) (suc n)

unfoldable pub reduce_quantity_after_sell : ℤ → ℤ → Result ℕ
reduce_quantity_after_sell (negsuc m) sell_qty = err existing_qty_negative
reduce_quantity_after_sell (pos m) (negsuc n) = err sell_qty_not_positive
reduce_quantity_after_sell (pos m) (pos zero) = err sell_qty_not_positive
reduce_quantity_after_sell (pos m) (pos (suc n)) =
    if ltb m (suc n) then err sell_qty_too_large else ok (m - suc n)

-- `half_up` is within half a unit.
half_up_near :
    (n d : ℕ) → 0 < d → (2 * (half_up n d * d) ≤ 2 * n + d) × (2 * n < 2 * (half_up n d * d) + d)
unfolding half_up
half_up_near n d h = (grind arith, grind arith)

below_times : (q d high : ℕ) → 0 < d → 2 * (q * d) ≤ 2 * (high * d) + d → q ≤ high
below_times q d high h k = grind arith

above_times : (q d low : ℕ) → 0 < d → 2 * (low * d) < 2 * (q * d) + d → low ≤ q
above_times q d low h k = grind arith

half_up_between :
    (n d low high : ℕ)
    → 0 < d
    → low * d ≤ n
    → n ≤ high * d
    → (low ≤ half_up n d) × (half_up n d ≤ high)
half_up_between n d low high h l u =
    let (under, over) = half_up_near n d h in
    (
      above_times (half_up n d) d low h (omega arith),
      below_times (half_up n d) d high h (omega arith),
    )

mean_between :
    (a b m n : ℕ) → (min a b * (m + n) ≤ a * m + b * n) × (a * m + b * n ≤ max a b * (m + n))
mean_between a b m n = (grind arith, grind arith)

-- `r` is the whole number nearest to `n / d`, the higher one in a tie.
abbrev pub IsNearest : ℕ → ℕ → ℕ → Type 0
IsNearest n d r = (2 * (r * d) ≤ 2 * n + d) × (2 * n < 2 * (r * d) + d)

-- What is known of an average of two prices in hundredths.
abbrev pub IsMean : ℕ → ℕ → ℕ → ℕ → ℕ → Type 0
IsMean a m f n r = (min a f ≤ r) × (r ≤ max a f) × IsNearest (a * m + f * n) (m + n) r

averaged-IsMean :
    (p q : Price) (m n : ℕ)
    → 0 < n
    → (r : ℕ) × (averaged (decimal p) m (quantized (decimal q)) n ≡ ok r)
      × IsMean (quantize_price p) m (quantize_price q) n r
unfolding averaged weighted quantized
averaged-IsMean p q zero n h =
    (quantize_price q, refl, (omega arith, omega arith, (grind arith, grind arith)))
averaged-IsMean p q (suc m) n h =
    let a = quantize_price p in
    let f = quantize_price q in
    let mean = mean_between a f (suc m) n in
    let near = half_up_near (a * suc m + f * n) (suc m + n) (omega arith) in
    let inside =
      half_up_between (a * suc m + f * n) (suc m + n) (min a f) (max a f) (omega arith) mean.0
        mean.1 in
    (half_up (a * suc m + f * n) (suc m + n), refl, (inside.0, inside.1, near))

-- With prices that can be read, a positive `fill_qty` and no negative `existing_qty` the average is
-- given: each price is rounded to its nearest hundredth first, a tie upwards, and the result is the
-- hundredth that is nearest to the mean of the two rounded prices by their quantities, and never outside
-- of them. The scales of the prices are not zero.
pub calc_weighted_avg-IsMean :
    (existing_avg : Price) (m : ℕ) (fill_price : Price) (n : ℕ)
    → 0 < existing_avg.scale
    → 0 < fill_price.scale
    → 0 < n
    → (a : ℕ) × (f : ℕ) × (r : ℕ) × IsNearest (100 * existing_avg.digits) existing_avg.scale a
      × IsNearest (100 * fill_price.digits) fill_price.scale f
      × (calc_weighted_avg (decimal existing_avg) (pos m) (decimal fill_price) (pos n) ≡ ok r)
      × IsMean a m f n r
unfolding calc_weighted_avg quantize_price
calc_weighted_avg-IsMean p m q zero hp hq h = absurd (omega arith)
calc_weighted_avg-IsMean p m q (suc n) hp hq h =
    let (r, e, mean) = averaged-IsMean p q m (suc n) h in
    (
      quantize_price p,
      quantize_price q,
      r,
      half_up_near (100 * p.digits) p.scale hp,
      half_up_near (100 * q.digits) q.scale hq,
      e,
      mean,
    )
