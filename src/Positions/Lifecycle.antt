-- ===== src/Positions/Lifecycle.antt =====
-- Opening and closing positions.
use kis_api_trend_atr.Base.{
  ℕ, ◌≡◌, ◌≤◌, ◌<◌, refl, ◌↔◌, true, false, ◌&&◌, none, some, [], ◌∷◌, ◌++◌, arith, if◌then◌else◌,
  inl, inr, Option-cases, Bool-cases, is_some, length,
}
use kis_api_trend_atr.Base.Floats.{Floats}
use kis_api_trend_atr.Base.Eq.{◌==◌}
use kis_api_trend_atr.Base.Dict.{
  lookup, insert, contains, lookup-insert, lookup-insert_same, lookup-erase, length-insert,
  length-erase,
}
use kis_api_trend_atr.Base.Text.{Text, text_keyed}
use kis_api_trend_atr.Positions.{
  PositionManager, ManagedPosition, Moment, ExitReason, done, zero_division, exited, is_zero,
  new_position, open_position, close_position, update_position,
}

module _ {A : Type 0} ⦃f : Floats A⦄ where
  -- A position is opened exactly when the code is not held and fewer than `max_positions` are. The
  -- new position is found under its code and the others as before; a refusal changes nothing.
  pub open_position_iff :
      (m : PositionManager A) (code : Text) (price : A) (quantity : ℕ) (stop target atr : A)
      (name order_no : Text) (now : Moment)
      → let (m', r) = open_position m code price quantity stop target atr name order_no now in
        ((is_some r ≡ true)
          ↔ ((contains code m.positions ≡ false) × (length m.positions < m.max_positions)))
        × (r ≡ none → m' ≡ m)
        × ((k : Text)
            → lookup k m'.positions ≡ (if is_some r && code == k then r else lookup k m.positions))
  unfolding open_position
  open_position_iff m code price quantity stop target atr name order_no now = (
    ground arith,
    ground arith,
    λ k. ground (
      arith,
      lookup-insert code k (new_position code price quantity stop target atr name order_no now)
          m.positions,
    ),
  )

  -- at most `max_positions` positions
  unfoldable pub IsWithin : PositionManager A → Type 0
  IsWithin m = length m.positions ≤ m.max_positions

  insert-IsWithin :
      (m : PositionManager A) (code : Text) (p q : ManagedPosition A)
      → lookup code m.positions ≡ some p
      → IsWithin m
      → length (insert code q m.positions) ≤ m.max_positions
  unfolding IsWithin
  insert-IsWithin m code p q e h = ground (arith, e, h, length-insert code q m.positions)

  close_position-IsWithin :
      (m : PositionManager A)
      → IsWithin m
      → (code : Text) (price : A) (reason : ExitReason) (order_no : Text) (commission : A)
        (now : Moment)
      → IsWithin (close_position m code price reason order_no commission now).0
  unfolding IsWithin close_position
  close_position-IsWithin m h code price reason order_no commission now =
      elim (Option-cases (lookup code m.positions)) [
        | inl e ↦ rw (e, close_position) h
        | inr (p, e) ↦ elim (Bool-cases (is_zero p.entry_price)) [
          | inl z ↦ rw (e, close_position, z) (insert-IsWithin m code p _ e h)
          | inr z ↦ rw (e, close_position, z) (omega (arith, length-erase code m.positions, h))
        ]
      ]

  update_position-IsWithin :
      (m : PositionManager A)
      → IsWithin m
      → (code : Text) (price : A) (today : ℕ) → IsWithin (update_position m code price today).0
  unfolding IsWithin update_position
  update_position-IsWithin m h code price today = elim (Option-cases (lookup code m.positions)) [
    | inl e ↦ rw (e, update_position) h
    | inr (p, e) ↦ elim (Bool-cases (m.enable_trailing && is_zero p.entry_price)) [
      | inl z ↦ rw (e, update_position, z) (insert-IsWithin m code p _ e h)
      | inr z ↦ rw (e, update_position, z) (insert-IsWithin m code p _ e h)
    ]
  ]

  -- No operation makes the manager hold more than `max_positions` positions: opening, closing and
  -- updating keep the bound, also when they raise.
  pub IsWithin-stays :
      (m : PositionManager A)
      → IsWithin m
      → ((code : Text) (price : A) (quantity : ℕ) (stop target atr : A) (name order_no : Text)
            (now : Moment)
          → IsWithin (open_position m code price quantity stop target atr name order_no now).0)
        × ((code : Text) (price : A) (reason : ExitReason) (order_no : Text) (commission : A)
              (now : Moment)
            → IsWithin (close_position m code price reason order_no commission now).0)
        × ((code : Text) (price : A) (today : ℕ) → IsWithin (update_position m code price today).0)
  unfolding IsWithin open_position
  IsWithin-stays m h = (
    λ code price quantity stop target atr name order_no now. ground (
      arith,
      h,
      length-insert code (new_position code price quantity stop target atr name order_no now)
          m.positions,
    ),
    close_position-IsWithin m h,
    update_position-IsWithin m h,
  )

  -- Closing a held position, whose entry price is not zero, takes it, and no other, from the held
  -- ones, appends it to the history of its code as EXITED, writes both to the file, and
  -- leaves its `holding_days` as the last update set it.
  pub close_position-moves :
      (m : PositionManager A) (code : Text) (price : A) (reason : ExitReason) (order_no : Text)
      (commission : A) (now : Moment) (p : ManagedPosition A)
      → lookup code m.positions ≡ some p
      → is_zero p.entry_price ≡ false
      → let (m', r) = close_position m code price reason order_no commission now in
        ((k : Text) → lookup k m'.positions ≡ (if code == k then none else lookup k m.positions))
        × (m'.file ≡ (m'.positions, m'.closed_positions))
        × ((p' : ManagedPosition A) × (r ≡ done (some p'))
            × (p'.state ≡ exited)
            × (p'.exit.exit_reason ≡ reason)
            × (p'.holding_days ≡ p.holding_days)
            × (lookup code m'.closed_positions
                ≡ some (
                    (elim (lookup code m.closed_positions) [ none ↦ [] | some ps ↦ ps ])
                    ++ (p' ∷ []))))
  unfolding close_position
  close_position-moves m code price reason order_no commission now p e nonzero =
      rw (e, close_position, nonzero)
        (
          λ k. lookup-erase code k m.positions,
          refl,
          (_, refl, refl, refl, refl, lookup-insert_same code _ m.closed_positions),
        )

  -- Closing a held position whose entry price is zero raises half-way: the position, EXITED by
  -- then, stays among the held ones, and neither history nor file learns of it.
  pub close_position_of_zero :
      (m : PositionManager A) (code : Text) (price : A) (reason : ExitReason) (order_no : Text)
      (commission : A) (now : Moment) (p : ManagedPosition A)
      → lookup code m.positions ≡ some p
      → is_zero p.entry_price ≡ true
      → let (m', r) = close_position m code price reason order_no commission now in
        (r ≡ zero_division)
        × (m'.closed_positions ≡ m.closed_positions)
        × (m'.file ≡ m.file)
        × ((p' : ManagedPosition A) × (lookup code m'.positions ≡ some p') × (p'.state ≡ exited))
  unfolding close_position
  close_position_of_zero m code price reason order_no commission now p e is_free =
      rw (e, close_position, is_free)
        (refl, refl, refl, (_, lookup-insert_same code _ m.positions, refl))
