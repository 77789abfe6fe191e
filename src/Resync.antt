-- ===== src/Resync.antt =====
-- PositionResynchronizer of kis_trend_atr_trading/engine/order_synchronizer.py: which holdings the
-- account has, which of them is this program's, and the position that is built from it. An average
-- price is a number of hundredths, as `quantize_price` leaves it; the file's prices are `Floats`, and
-- `round2` is Python's `round(x, 2)`. The holdings have no current price: `_extract_active_holdings`
-- drops it, so that the code that asks for one takes its default.
pub mod Holdings
pub mod Account
pub mod Target
pub mod Database
pub mod Startup
use kis_api_trend_atr.Base.{
  ℕ, ◌+◌, Bool, true, false, Option, none, some, List, [], ◌∷◌, if◌then◌else◌, eqb, ltb,
}
use kis_api_trend_atr.Base.Dict.{Dict, lookup, insert}
use kis_api_trend_atr.Base.Eq.{◌==◌}
use kis_api_trend_atr.Base.Int.{ℤ, pos, negsuc}
use kis_api_trend_atr.Base.Floats.{Floats}
use kis_api_trend_atr.Base.Text.{Text, codes, strip, text_keyed}
use kis_api_trend_atr.Trading.{Now, is_blank, is_positive}
use kis_api_trend_atr.Prices.{Price}
use kis_api_trend_atr.Prices.Averages.{
  PriceValue, decimal, quantize_price, calc_weighted_avg, ok, err,
}
use kis_api_trend_atr.Saved.{StoredPosition, post_init_stored}

-- a value that `int()` takes, or one at which it raises
pub data Cell : Type 0 where
  not_int : Cell
  int : ℤ → Cell

-- A row of the account's balance. `none` is a key that is not there; `stock_code` is `str` of the value,
-- empty without the key, and `avg_price` the value as `_safe_decimal` reads it, zero if it is below.
pub record RawHolding : Type 0 where
  pub stock_code : Text
  pub qty : Option Cell
  pub quantity : Option Cell
  pub avg_price : Price
  pub stock_name : Option Text

pub data RawRow : Type 0 where
  not_a_dict : RawRow
  row : RawHolding → RawRow

-- what `_extract_active_holdings` is given
pub data Payload : Type 0 where
  rows : List RawRow → Payload
  balance_dict : Option (List RawRow) → Payload
  something_else : Payload

pub record Holding : Type 0 where
  pub qty : ℕ
  pub avg_price : ℕ
  pub stock_name : Option Text

safe_int : Option Cell → ℤ
safe_int (some (int n)) = n
safe_int _ = pos 0

-- `raw_holding.get("qty", raw_holding.get("quantity"))`
raw_qty : RawHolding → ℤ
unfolding safe_int
raw_qty h = elim h.qty [ none ↦ safe_int h.quantity | some c ↦ safe_int (some c) ]

-- a quantity above zero
pub positive : ℤ → Option ℕ
positive (negsuc n) = none
positive (pos n) = if eqb n 0 then none else some n

is_named : Option Text → Bool
is_named none = false
is_named (some s) = if is_blank s then false else true

-- a price in hundredths, as the `Decimal` that it is
abbrev hundredths : ℕ → PriceValue
hundredths n = decimal (record { digits = n; scale = 100 })

-- the mean of `calc_weighted_avg`, which does not raise at these quantities
blended : ℕ → ℕ → ℕ → ℕ → ℕ
blended prev_avg prev_qty avg_price qty =
    elim (calc_weighted_avg (hundredths prev_avg) (pos prev_qty) (hundredths avg_price) (pos qty)) [
      | ok average ↦ average
      | err _ ↦ avg_price
    ]

-- one more row of a code
pub merged : Option Holding → ℕ → ℕ → Option Text → Holding
unfolding blended is_named
merged none qty avg_price name = record { qty = qty; avg_price = avg_price; stock_name = name }
merged (some h) qty avg_price name = record {
  qty = h.qty + qty;
  avg_price = blended h.avg_price h.qty avg_price qty;
  stock_name =
      if is_named h.stock_name then h.stock_name else if is_named name then name else h.stock_name;
}

-- a row with a quantity above zero
put_row : Text → ℕ → Option Text → Option ℕ → Dict Text Holding → Dict Text Holding
unfolding merged
put_row stock_code avg_price name none aggregated = aggregated
put_row stock_code avg_price name (some qty) aggregated =
    insert stock_code (merged (lookup stock_code aggregated) qty avg_price name) aggregated

add_row : RawRow → Dict Text Holding → Dict Text Holding
unfolding put_row positive raw_qty
add_row not_a_dict aggregated = aggregated
add_row (row h) aggregated =
    if is_blank (strip h.stock_code)
    then aggregated
    else put_row (strip h.stock_code) (quantize_price h.avg_price) h.stock_name
        (positive (raw_qty h)) aggregated

add_rows : Dict Text Holding → List RawRow → Dict Text Holding
unfolding add_row
add_rows aggregated [] = aggregated
add_rows aggregated (r ∷ rest) = add_rows (add_row r aggregated) rest

unfoldable pub payload_rows : Payload → List RawRow
payload_rows (rows l) = l
payload_rows (balance_dict (some l)) = l
payload_rows _ = []

unfoldable pub extract_active_holdings : Payload → Dict Text Holding
unfolding add_rows payload_rows
extract_active_holdings payload = add_rows [] (payload_rows payload)

-- the only entry of a dict, if it has one only
only_entry : Dict Text Holding → Option (Text × Holding)
only_entry (entry ∷ []) = some entry
only_entry _ = none

named : Text → Option Holding → Option (Text × Holding)
named symbol none = none
named symbol (some h) = some (symbol, h)

entry_at : Text → Dict Text Holding → Option (Text × Holding)
unfolding named
entry_at symbol holdings = named symbol (lookup symbol holdings)

or_only : Dict Text Holding → Option (Text × Holding) → Option (Text × Holding)
unfolding only_entry
or_only holdings none = only_entry holdings
or_only holdings (some entry) = some entry

-- without a target: the stored position's code, or else the only holding
untargeted : Dict Text Holding → Option Text → Option (Text × Holding)
unfolding or_only entry_at
untargeted holdings none = or_only holdings none
untargeted holdings (some code) =
    or_only holdings (if is_blank (strip code) then none else entry_at (strip code) holdings)

-- for `target_symbol` and the stored position's code
unfoldable pub resolve_target_holding :
    Text → Dict Text Holding → Option Text → Option (Text × Holding)
unfolding untargeted
resolve_target_holding target holdings stored_code =
    if is_blank target then untargeted holdings stored_code else entry_at target holdings

module _ {A : Type 0} ⦃f : Floats A⦄ where
  -- `float` of a number of hundredths
  abbrev pub of_cents : ℕ → A
  of_cents n = f.div (f.of_nat n) (f.of_nat 100)

  -- Python's `max(a, b)`
  abbrev pub max_of : A → A → A
  max_of a b = if f.lt a b then b else a

  abbrev pub base_price : Holding → A
  base_price h = if eqb h.avg_price 0 then f.of_nat 1 else of_cents h.avg_price

  -- a term of the stored position, if it is above zero
  abbrev pub or_else : A → A → A
  or_else a default = if f.le a (f.of_nat 0) then default else a

  -- the position before the defaults: that of `base_position` if it is of this symbol
  base_terms : Text → Option (StoredPosition A) → Now → StoredPosition A
  base_terms symbol base now =
      let fresh : StoredPosition A = record {
        stock_code = symbol;
        entry_price = f.of_nat 0;
        quantity = 0;
        stop_loss = f.of_nat 0;
        take_profit = none;
        entry_date = now.date_text;
        atr_at_entry = f.of_nat 0;
        position = codes "LONG";
        trailing_stop = f.of_nat 0;
        highest_price = f.of_nat 0;
        entry_time = now.time_text;
        state = codes "ENTERED";
        saved_at = [];
      } in
      elim base [
        | none ↦ fresh
        | some b ↦
            if b.stock_code == symbol
            then record fresh {
              stop_loss = b.stop_loss;
              take_profit = b.take_profit;
              entry_date = if is_blank b.entry_date then now.date_text else b.entry_date;
              atr_at_entry = b.atr_at_entry;
              trailing_stop = b.trailing_stop;
              highest_price = b.highest_price;
              entry_time = if is_blank b.entry_time then now.time_text else b.entry_time;
              state = b.state;
            }
            else fresh
      ]

  -- `none` where there is nothing to hold
  unfoldable pub build_stored_position_from_holding :
      (A → A) → Now → Text → Text → Holding → Option (StoredPosition A) → Option (StoredPosition A)
  unfolding base_terms
  build_stored_position_from_holding round2 now iso symbol h base =
      let price = base_price h in
      let terms = base_terms symbol base now in
      let stop_loss =
        or_else terms.stop_loss (round2 (f.mul price (f.div (f.of_nat 95) (f.of_nat 100)))) in
      if eqb h.qty 0
      then none
      else some (
          post_init_stored now iso (record terms {
            entry_price = price;
            quantity = h.qty;
            atr_at_entry =
                or_else terms.atr_at_entry
                  (max_of (f.mul price (f.div (f.of_nat 1) (f.of_nat 100))) (f.of_nat 1));
            stop_loss = stop_loss;
            trailing_stop = or_else terms.trailing_stop stop_loss;
            highest_price = or_else terms.highest_price (max_of price (f.of_nat 0));
          }))
