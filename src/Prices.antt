-- ===== src/Prices.antt =====
-- Tick sizes and the alignment of prices of kis_trend_atr_trading/utils/entry_utils.py. A price is an
-- exact decimal: the number `digits` over `scale`, a power of ten; negative prices are those of zero.
pub mod Ticks
pub mod Averages
use kis_api_trend_atr.Base.{
  ℕ, ◌+◌, ◌-◌, ◌*◌, ◌/◌, Bool, true, false, if◌then◌else◌, ltb, eqb, [], ◌∷◌,
}
use kis_api_trend_atr.Base.Eq.{◌==◌}
use kis_api_trend_atr.Base.Text.{Text, codes, upper, text_keyed}

pub record Price : Type 0 where
  pub digits : ℕ
  pub scale : ℕ

-- a whole price
abbrev pub whole : ℕ → Price
whole n = record { digits = n; scale = 1 }

-- `px < limit`
abbrev pub is_below : Price → ℕ → Bool
is_below p limit = ltb p.digits (limit * p.scale)

-- `str(asset_type or "STOCK").upper() == "ETF"`
unfoldable pub is_etf : Text → Bool
is_etf asset_type = upper asset_type == codes "ETF"

unfoldable pub tick_size : Bool → Price → ℕ
tick_size true p = if is_below p 2000 then 1 else 5
tick_size false p =
    if is_below p 2000
    then 1
    else if is_below p 5000
    then 5
    else if is_below p 20000
    then 10
    else if is_below p 50000
    then 50
    else if is_below p 200000
    then 100
    else if is_below p 500000
    then 500
    else 1000

unfoldable pub get_tick_size : Price → Text → ℕ
unfolding tick_size is_etf
get_tick_size p asset_type = tick_size (is_etf asset_type) p

-- how many ticks the aligned price has: the quotient rounded down or up
unfoldable pub rounded : Bool → ℕ → ℕ → ℕ
rounded down n d = if down then n / d else (n + (d - 1)) / d

-- `tick <= 0` does not happen.
unfoldable pub align_price_to_tick : Price → Text → Text → ℕ
align_price_to_tick p asset_type direction =
    let tick = get_tick_size p asset_type in
    if eqb p.digits 0
    then 0
    else rounded (direction == codes "down") p.digits (p.scale * tick) * tick
