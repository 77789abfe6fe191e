-- ===== src/Positions/Trailing.antt =====
-- What updates with prices change: the trailing stop only rises.
use mathlib.Core.Path.{subst}
use kis_api_trend_atr.Base.{
  ℕ, ◌≡◌, refl, sym, ◌∙◌, ◌⊎◌, true, ◌&&◌, some, List, [], ◌∷◌, arith, inl, inr, Bool-cases,
}
use kis_api_trend_atr.Base.Floats.{Floats}
use kis_api_trend_atr.Base.Dict.{lookup, lookup-insert_same}
use kis_api_trend_atr.Base.Text.{Text, text_keyed}
use kis_api_trend_atr.Positions.{
  PositionManager, ManagedPosition, is_zero, update_unrealized, update_trailing_stop,
  update_position,
}

-- The position `q` after prices on `p`: the terms of the entry stay, the trailing stop and the
-- highest price stay or rise.
pub record Follows {A : Type 0} ⦃f : Floats A⦄ (p q : ManagedPosition A) : Type 0 where
  pub entry : q.entry_price ≡ p.entry_price
  pub atr : q.atr_at_entry ≡ p.atr_at_entry
  pub stop : q.stop_loss ≡ p.stop_loss
  pub target : q.take_profit ≡ p.take_profit
  pub held : q.quantity ≡ p.quantity
  pub trailing : (q.trailing_stop ≡ p.trailing_stop) ⊎ (f.lt p.trailing_stop q.trailing_stop ≡ true)
  pub highest : (q.highest_price ≡ p.highest_price) ⊎ (f.lt p.highest_price q.highest_price ≡ true)

module _ {A : Type 0} ⦃f : Floats A⦄ where
  rises_trans :
      (a b c : A)
      → (b ≡ a) ⊎ (f.lt a b ≡ true)
      → (c ≡ b) ⊎ (f.lt b c ≡ true)
      → (c ≡ a) ⊎ (f.lt a c ≡ true)
  rises_trans a b c (inl e) (inl e') = inl (e' ∙ e)
  rises_trans a b c (inl e) (inr h) = inr (subst (λ x. f.lt x c ≡ true) e h)
  rises_trans a b c (inr h) (inl e') = inr (subst (λ x. f.lt a x ≡ true) (sym e') h)
  rises_trans a b c (inr h) (inr h') = inr (f.lt_of_lt_le a b c h (f.le_of_lt b c h'))

  pub Follows-refl : (p : ManagedPosition A) → Follows p p
  Follows-refl p = record {
    entry = refl;
    atr = refl;
    stop = refl;
    target = refl;
    held = refl;
    trailing = inl refl;
    highest = inl refl;
  }

  pub Follows-trans : (p q r : ManagedPosition A) → Follows p q → Follows q r → Follows p r
  Follows-trans p q r h k = record {
    entry = k.entry ∙ h.entry;
    atr = k.atr ∙ h.atr;
    stop = k.stop ∙ h.stop;
    target = k.target ∙ h.target;
    held = k.held ∙ h.held;
    trailing = rises_trans p.trailing_stop q.trailing_stop r.trailing_stop h.trailing k.trailing;
    highest = rises_trans p.highest_price q.highest_price r.highest_price h.highest k.highest;
  }

  update_unrealized-Follows :
      (p : ManagedPosition A) (price : A) (today : ℕ) → Follows p (update_unrealized p price today)
  unfolding update_unrealized
  update_unrealized-Follows p price today = record {
    entry = refl;
    atr = refl;
    stop = refl;
    target = refl;
    held = refl;
    trailing = inl refl;
    highest = ground arith;
  }

  update_trailing_stop-Follows :
      (m : PositionManager A) (p : ManagedPosition A) (price : A)
      → Follows p (update_trailing_stop m p price)
  unfolding update_trailing_stop
  update_trailing_stop-Follows m p price = record {
    entry = ground arith;
    atr = ground arith;
    stop = ground arith;
    target = ground arith;
    held = ground arith;
    trailing = ground arith;
    highest = ground arith;
  }

  update_position-Follows :
      (m : PositionManager A) (code : Text) (price : A) (today : ℕ) (p : ManagedPosition A)
      → lookup code m.positions ≡ some p
      → (q : ManagedPosition A) × (lookup code (update_position m code price today).0.positions
          ≡ some q)
        × Follows p q
  unfolding update_position
  update_position-Follows m code price today p e =
      let p1 = update_unrealized p price today in
      let p2 = update_trailing_stop m p1 price in
      let h1 = update_unrealized-Follows p price today in
      let h2 = Follows-trans p p1 p2 h1 (update_trailing_stop-Follows m p1 price) in
      rw (e, update_position)
        elim (Bool-cases (m.enable_trailing && is_zero p.entry_price)) [
          | inl z ↦ rw z (p1, lookup-insert_same code p1 m.positions, h1)
          | inr z ↦ rw z elim (Bool-cases m.enable_trailing) [
            | inl t ↦ rw t (p2, lookup-insert_same code p2 m.positions, h2)
            | inr t ↦ rw t (p1, lookup-insert_same code p1 m.positions, h1)
          ]
        ]

  -- `update_position` for each price of a list, with its day; an exception does not end the list
  unfoldable pub update_all : PositionManager A → Text → List (A × ℕ) → PositionManager A
  update_all m code [] = m
  update_all m code ((price, today) ∷ prices) =
      update_all (update_position m code price today).0 code prices

  -- Over any sequence of prices, a held position stays held, its entry price, ATR, stop, target and
  -- quantity are those of the entry, and its trailing stop and highest price never fall.
  pub update_all-Follows :
      (m : PositionManager A) (code : Text) (prices : List (A × ℕ)) (p : ManagedPosition A)
      → lookup code m.positions ≡ some p
      → (q : ManagedPosition A) × (lookup code (update_all m code prices).positions ≡ some q)
        × Follows p q
  unfolding update_all
  update_all-Follows m code [] p e = (p, e, Follows-refl p)
  update_all-Follows m code ((price, today) ∷ prices) p e =
      let (q, e', h) = update_position-Follows m code price today p e in
      let (r, e'', k) =
        update_all-Follows (update_position m code price today).0 code prices q e' in
      (r, e'', Follows-trans p q r h k)
