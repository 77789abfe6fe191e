-- ===== src/Tests/PricesExamples.antt =====
-- The theorems on prices at concrete prices.
use kis_api_trend_atr.Base.{ℕ, ◌*◌, ◌≡◌, arith}
use kis_api_trend_atr.Base.Int.{pos}
use kis_api_trend_atr.Prices.{Price}
use kis_api_trend_atr.Prices.Averages.{
  calc_weighted_avg, ok, decimal, IsNearest, IsMean, calc_weighted_avg-IsMean,
}

-- 700.005 and 710.01
abbrev kept_price : Price
kept_price = record { digits = 700005; scale = 1000 }

abbrev new_price : Price
new_price = record { digits = 71001; scale = 100 }

-- 10 at the one and 5 at the other
calc_weighted_avg-IsMean_example :
    (a : ℕ) × (f : ℕ) × (r : ℕ) × IsNearest (100 * 700005) 1000 a
    × IsNearest (100 * 71001) 100 f
    × (calc_weighted_avg (decimal kept_price) (pos 10) (decimal new_price) (pos 5) ≡ ok r)
    × IsMean a 10 f 5 r
calc_weighted_avg-IsMean_example =
    calc_weighted_avg-IsMean kept_price 10 new_price 5 (omega arith) (omega arith) (omega arith)
