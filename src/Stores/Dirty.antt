-- ===== src/Stores/Dirty.antt =====
-- What a drain of DirtySymbolSet (kis_trend_atr_trading/engine/pullback_pipeline_stores.py) gives out.
use kis_api_trend_atr.Base.{
  ℕ, zero, suc, ◌≤◌, ◌≡◌, refl, false, not, ◌&&◌, ◌||◌, some, List, [], ◌∷◌, arith, take, length,
  length-take,
}
use kis_api_trend_atr.Base.Eq.{◌==◌}
use kis_api_trend_atr.Base.Int.{ℤ, at_least}
use kis_api_trend_atr.Base.Text.{Text, text_keyed, text_beq_iff}
use kis_api_trend_atr.Stores.{DirtySymbolSet, is_dirty, insert_code, sort_codes, discard_all, drain}

is_dirty-insert_code :
    (k code : Text) (s : List Text) → is_dirty k (insert_code code s) ≡ (code == k || is_dirty k s)
unfolding insert_code is_dirty
is_dirty-insert_code k code [] = refl
is_dirty-insert_code k code (j ∷ s) = ground (arith, is_dirty-insert_code k code s)

is_dirty-sort_codes : (k : Text) (s : List Text) → is_dirty k (sort_codes s) ≡ is_dirty k s
unfolding sort_codes is_dirty
is_dirty-sort_codes k [] = refl
is_dirty-sort_codes k (j ∷ s) =
    ground (arith, is_dirty-insert_code k j (sort_codes s), is_dirty-sort_codes k s)

is_dirty-take :
    (n : ℕ) (k : Text) (s : List Text) → is_dirty k s ≡ false → is_dirty k (take n s) ≡ false
unfolding is_dirty
is_dirty-take zero k s h = refl
is_dirty-take (suc n) k [] h = refl
is_dirty-take (suc n) k (j ∷ s) h = ground (arith, is_dirty-take n k s)

is_dirty-discard_all :
    (k : Text) (drained s : List Text)
    → is_dirty k (discard_all drained s) ≡ (is_dirty k s && not (is_dirty k drained))
unfolding discard_all is_dirty
is_dirty-discard_all k drained [] = refl
is_dirty-discard_all k drained (j ∷ s) =
    ground (arith, is_dirty-discard_all k drained s, text_beq_iff j k)

-- A drain gives out at most as many codes as it is asked for, only dirty ones, and leaves exactly the
-- dirty codes that it did not give out: none is lost, and none is given out and kept.
pub drain_splits :
    (n : ℤ) (s : DirtySymbolSet) (k : Text)
    → let (rest, drained) = drain (some n) s in
      (length drained ≤ at_least 0 n)
      × ((is_dirty k rest || is_dirty k drained) ≡ is_dirty k s)
      × ((is_dirty k rest && is_dirty k drained) ≡ false)
unfolding drain
drain_splits n s k =
    let sorted = sort_codes s in
    let drained = take (at_least 0 n) sorted in
    let none_else = is_dirty-take (at_least 0 n) k sorted in
    let left = is_dirty-discard_all k drained s in
    (
      omega (arith, length-take (at_least 0 n) sorted),
      ground (arith, left, is_dirty-sort_codes k s, none_else),
      ground (arith, left),
    )
