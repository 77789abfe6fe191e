-- ===== src/Resync/Holdings.antt =====
-- The holdings that `_extract_active_holdings` gives (kis_trend_atr_trading/engine/order_synchronizer.py),
-- against the rows of the account.
use native.Mathlib.Nat.{zero-add}
use kis_api_trend_atr.Base.{
  ℕ, ◌+◌, ◌≡◌, ◌<◌, ◌↔◌, refl, ap, ◌∙◌, ◌&&◌, not, Option, none, some, List, [], ◌∷◌, if◌then◌else◌,
  arith, Bool-cases, Option-cases, inl, inr,
}
use kis_api_trend_atr.Base.Dict.{Dict, lookup, lookup-insert}
use kis_api_trend_atr.Base.Eq.{◌==◌}
use kis_api_trend_atr.Base.Int.{ℤ, pos, negsuc}
use kis_api_trend_atr.Base.Text.{Text, strip, text_keyed, text_beq, text_beq_iff}
use kis_api_trend_atr.Trading.{is_blank}
use kis_api_trend_atr.Prices.Averages.{quantize_price}
use kis_api_trend_atr.Resync.{
  RawRow, not_a_dict, row, Payload, Holding, raw_qty, positive, merged, put_row, add_row, add_rows,
  payload_rows, extract_active_holdings,
}

abbrev or_zero : Option ℕ → ℕ
or_zero none = 0
or_zero (some n) = n

-- what a row holds of a code
row_qty : Text → RawRow → ℕ
row_qty code not_a_dict = 0
row_qty code (row h) =
    if not (is_blank (strip h.stock_code)) && strip h.stock_code == code
    then or_zero (positive (raw_qty h))
    else 0

-- what the rows hold of a code, together
pub total_qty : Text → List RawRow → ℕ
unfolding row_qty
total_qty code [] = 0
total_qty code (r ∷ rest) = row_qty code r + total_qty code rest

abbrev pub qty_of : Option Holding → ℕ
qty_of none = 0
qty_of (some h) = h.qty

-- Each holding of the dict has a positive quantity.
abbrev IsActive : Option Holding → Type 0
IsActive none = Unit {0}
IsActive (some h) = 0 < h.qty

pub positive-pos : (z : ℤ) (n : ℕ) → positive z ≡ some n → 0 < n
unfolding positive
positive-pos (negsuc m) n e = cc
positive-pos (pos m) n e = ground arith

pub merged-qty :
    (old : Option Holding) (qty avg_price : ℕ) (name : Option Text)
    → (merged old qty avg_price name).qty ≡ qty_of old + qty
unfolding merged
merged-qty none qty avg_price name = omega arith
merged-qty (some h) qty avg_price name = refl

qty-put_row :
    (code symbol : Text) (avg_price : ℕ) (name : Option Text) (q : Option ℕ) (d : Dict Text Holding)
    → qty_of (lookup code (put_row symbol avg_price name q d))
      ≡ qty_of (lookup code d) + (if symbol == code then or_zero q else 0)
unfolding put_row
qty-put_row code symbol avg_price name none d = ground arith
qty-put_row code symbol avg_price name (some n) d =
    let h = merged (lookup symbol d) n avg_price name in
    elim (Bool-cases (text_beq symbol code)) [
      | inl same ↦
          let one : symbol ≡ code = (text_beq_iff symbol code).0 same in
          ap qty_of (lookup-insert symbol code h d)
          ∙ rw same (
              merged-qty (lookup symbol d) n avg_price name ∙ ap (λ c. qty_of (lookup c d) + n) one)
      | inr other ↦ ap qty_of (lookup-insert symbol code h d) ∙ rw other (omega arith)
    ]

qty-add_row :
    (code : Text) (r : RawRow) (d : Dict Text Holding)
    → qty_of (lookup code (add_row r d)) ≡ qty_of (lookup code d) + row_qty code r
unfolding add_row row_qty
qty-add_row code not_a_dict d = omega arith
qty-add_row code (row h) d = elim (Bool-cases (is_blank (strip h.stock_code))) [
  | inl e ↦ rw e (omega arith)
  | inr e ↦ rw e (
      qty-put_row code (strip h.stock_code) (quantize_price h.avg_price) h.stock_name
        (positive (raw_qty h)) d)
]

qty-add_rows :
    (code : Text) (l : List RawRow) (d : Dict Text Holding)
    → qty_of (lookup code (add_rows d l)) ≡ qty_of (lookup code d) + total_qty code l
unfolding add_rows total_qty
qty-add_rows code [] d = omega arith
qty-add_rows code (r ∷ rest) d =
    omega (arith, qty-add_rows code rest (add_row r d), qty-add_row code r d)

put_row-IsActive :
    (code symbol : Text) (avg_price : ℕ) (name : Option Text) (z : ℤ) (d : Dict Text Holding)
    → IsActive (lookup code d)
    → IsActive (lookup code (put_row symbol avg_price name (positive z) d))
unfolding put_row
put_row-IsActive code symbol avg_price name z d h = elim (Option-cases (positive z)) [
  | inl e ↦ rw e h
  | inr (n, e) ↦
      let new = merged (lookup symbol d) n avg_price name in
      let active : IsActive (some new) =
        omega (arith, positive-pos z n e, merged-qty (lookup symbol d) n avg_price name) in
      rw e (
        rw (lookup-insert symbol code new d) (elim (Bool-cases (text_beq symbol code)) [
          | inl same ↦ rw same active
          | inr other ↦ rw other h
        ]))
]

add_rows-IsActive :
    (code : Text) (l : List RawRow) (d : Dict Text Holding)
    → IsActive (lookup code d)
    → IsActive (lookup code (add_rows d l))
unfolding add_rows add_row
add_rows-IsActive code [] d h = h
add_rows-IsActive code (not_a_dict ∷ rest) d h = add_rows-IsActive code rest d h
add_rows-IsActive code (row r ∷ rest) d h = elim (Bool-cases (is_blank (strip r.stock_code))) [
  | inl e ↦ rw e (add_rows-IsActive code rest d h)
  | inr e ↦ rw e (
      add_rows-IsActive code rest _ (
        put_row-IsActive code (strip r.stock_code) (quantize_price r.avg_price) r.stock_name
          (raw_qty r) d h))
]

absent_iff : (o : Option Holding) (n : ℕ) → IsActive o → qty_of o ≡ n → (o ≡ none) ↔ (n ≡ 0)
absent_iff none n h e = ground arith
absent_iff (some holding) n h e = ground arith

-- The dict of holdings has a code exactly with the sum of the quantities above zero that the account's
-- rows give for it, after their codes are stripped: no row is lost, and what is not held is not there.
pub extract_active_holdings-total :
    (payload : Payload) (code : Text)
    → (qty_of (lookup code (extract_active_holdings payload))
        ≡ total_qty code (payload_rows payload))
      × ((lookup code (extract_active_holdings payload) ≡ none)
          ↔ (total_qty code (payload_rows payload) ≡ 0))
unfolding extract_active_holdings lookup
extract_active_holdings-total payload code =
    let total = qty-add_rows code (payload_rows payload) [] in
    let active = add_rows-IsActive code (payload_rows payload) [] tt in
    let exact = total ∙ zero-add (total_qty code (payload_rows payload)) in
    (exact, absent_iff _ _ active exact)
