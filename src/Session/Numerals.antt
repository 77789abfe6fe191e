-- ===== src/Session/Numerals.antt =====
-- Python's `int(text)` and `text.split(sep, 1)`, as kis_trend_atr_trading/utils/market_hours.py
-- uses them on window texts.
use kis_api_trend_atr.Base.{
  ℕ, ◌+◌, ◌-◌, ◌*◌, Bool, true, false, ◌&&◌, Option, none, some, [], ◌∷◌, if◌then◌else◌, leb, eqb,
}
use kis_api_trend_atr.Base.Int.{ℤ, pos, sub_ℕ}
use kis_api_trend_atr.Base.Text.{Text, strip}

abbrev pub is_digit : ℕ → Bool
is_digit c = leb 48 c && leb c 57

-- Digits, with single underscores between them; the flag says that a digit stands before.
digits : Bool → ℕ → Text → Option ℕ
digits true acc [] = some acc
digits false acc [] = none
digits after_digit acc (c ∷ s) =
    let next = digits true (acc * 10 + (c - 48)) s in
    let skip = digits false acc s in
    if is_digit c then next else if eqb c b'_' && after_digit then skip else none

signed : Text → Option ℤ
unfolding digits
signed [] = none
signed (c ∷ s) =
    if eqb c b'-'
    then elim (digits false 0 s) [ none ↦ none | some n ↦ some (sub_ℕ 0 n) ]
    else if eqb c b'+'
    then elim (digits false 0 s) [ none ↦ none | some n ↦ some (pos n) ]
    else elim (digits false 0 (c ∷ s)) [ none ↦ none | some n ↦ some (pos n) ]

-- `none` is the `ValueError`; the digits are those of ASCII.
unfoldable pub parse_int : Text → Option ℤ
unfolding signed
parse_int s = signed (strip s)

-- The two sides of the first separator; `none` where there is no separator.
unfoldable pub split_once : ℕ → Text → Option (Text × Text)
split_once sep [] = none
split_once sep (c ∷ s) =
    let rest = split_once sep s in
    if eqb c sep
    then some ([], s)
    else elim rest [ none ↦ none | some (before, after) ↦ some (c ∷ before, after) ]
