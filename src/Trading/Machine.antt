-- ===== src/Trading/Machine.antt =====
-- What holds of `TradingStateMachine` (kis_trend_atr_trading/engine/trading_state.py) whatever is called.
use kis_api_trend_atr.Base.{
  ℕ, ◌≡◌, ◌↔◌, refl, Bool, true, false, Option, none, some, List, [], ◌∷◌, arith, is_some, All,
}
use kis_api_trend_atr.Base.Floats.{Floats, lt_trans_not}
use kis_api_trend_atr.Base.Int.{pos, ◌+ℤ◌, ◌-ℤ◌}
use kis_api_trend_atr.Base.Text.{Text}
use kis_api_trend_atr.Trading.{
  entered, exited, ExitReason, MultidayPosition, Now, TradingStateMachine, ExitResult, is_entered,
  new_machine, has_position, reset_to_wait, restore_position, post_init, update_highest_price,
  update_trailing_stop, enter_position, exit_position, exit_result, calculate_holding_days,
  opened_position, is_blank,
}

-- The calls of the machine, and those of the position that it hands out.
pub data Op (A : Type 0) : Type 0 where
  enter : Text → A → ℕ → A → A → Option A → A → Now → Op A
  exit : ExitReason → A → Now → Op A
  reset : Op A
  restore : MultidayPosition A → Op A
  highest : A → Op A
  trail : A → Op A

-- the calls that do not end or replace a position
abbrev pub keeps_position : {A : Type 0} → Op A → Bool
keeps_position (exit reason price now) = false
keeps_position reset = false
keeps_position (restore p) = false
keeps_position _ = true

-- A position is held exactly while the state is ENTERED, and says so itself.
unfoldable pub IsCoherent : {A : Type 0} → TradingStateMachine A → Type 0
IsCoherent m = elim m.position [
  | none ↦ is_entered m.state ≡ false
  | some p ↦ (m.state ≡ entered) × (p.state ≡ entered)
]

module _ {A : Type 0} ⦃f : Floats A⦄ where
  -- What was fixed at the entry is as it was, and neither the trailing stop nor the highest price is
  -- lower.
  pub record IsFrozen (p q : MultidayPosition A) : Type 0 where
    pub atr : q.atr_at_entry ≡ p.atr_at_entry
    pub stop : q.stop_loss ≡ p.stop_loss
    pub target : q.take_profit ≡ p.take_profit
    pub price : q.entry_price ≡ p.entry_price
    pub quantity : q.quantity ≡ p.quantity
    pub trailing : f.lt q.trailing_stop p.trailing_stop ≡ false
    pub highest : f.lt q.highest_price p.highest_price ≡ false

module _ {A : Type 0} ⦃f : Floats A⦄ (strptime : Text → Option ℕ) where
  -- the position is the machine's own object
  on_position :
      (MultidayPosition A → MultidayPosition A) → TradingStateMachine A → TradingStateMachine A
  on_position g m = record m { position = elim m.position [ none ↦ none | some p ↦ some (g p) ] }

  unfoldable pub perform : Op A → TradingStateMachine A → TradingStateMachine A
  unfolding on_position
  perform (enter symbol price quantity atr stop target trailing now) m =
      (enter_position symbol price quantity atr stop target trailing now m).0
  perform (exit reason price now) m = (exit_position strptime reason price now m).0
  perform reset m = reset_to_wait m
  perform (restore p) m = restore_position p m
  perform (highest price) m = on_position (λ p. (update_highest_price price p).0) m
  perform (trail stop) m = on_position (λ p. (update_trailing_stop stop p).0) m

  unfoldable pub run : List (Op A) → TradingStateMachine A → TradingStateMachine A
  run [] m = m
  run (o ∷ ops) m = run ops (perform o m)

  perform-IsCoherent :
      (o : Op A) (m : TradingStateMachine A) → IsCoherent m → IsCoherent (perform o m)
  unfolding perform IsCoherent enter_position exit_position reset_to_wait restore_position
      update_highest_price update_trailing_stop opened_position post_init
  perform-IsCoherent o m v = ground (arith, v)

  run_from-IsCoherent :
      (ops : List (Op A)) (m : TradingStateMachine A) → IsCoherent m → IsCoherent (run ops m)
  unfolding run
  run_from-IsCoherent [] m v = v
  run_from-IsCoherent (o ∷ ops) m v =
      run_from-IsCoherent ops (perform o m) (perform-IsCoherent o m v)

  -- From the start on, a position is held exactly while the state is ENTERED, whatever is called, and
  -- a held position has that state itself.
  pub run-IsCoherent : (ops : List (Op A)) → IsCoherent (run ops new_machine)
  unfolding IsCoherent new_machine
  run-IsCoherent ops = run_from-IsCoherent ops new_machine refl

  unfoldable pub Holds : MultidayPosition A → TradingStateMachine A → Type 0
  Holds p m = (q : MultidayPosition A) × (m.state ≡ entered) × (m.position ≡ some q) × IsFrozen p q

  higher-IsFrozen :
      (price : A) (p q : MultidayPosition A)
      → IsFrozen p q
      → IsFrozen p (update_highest_price price q).0
  unfolding update_highest_price
  higher-IsFrozen price p q v =
      ground (arith, v, lt_trans_not q.highest_price price p.highest_price)

  trail-IsFrozen :
      (stop : A) (p q : MultidayPosition A)
      → IsFrozen p q
      → IsFrozen p (update_trailing_stop stop q).0
  unfolding update_trailing_stop
  trail-IsFrozen stop p q v = ground (arith, v, lt_trans_not q.trailing_stop stop p.trailing_stop)

  entered_again :
      (symbol : Text) (price : A) (quantity : ℕ) (atr stop : A) (target : Option A) (trailing : A)
      (now : Now) (m : TradingStateMachine A)
      → m.state ≡ entered
      → (enter_position symbol price quantity atr stop target trailing now m).0 ≡ m
  unfolding enter_position
  entered_again symbol price quantity atr stop target trailing now m e = ground arith

  perform-Holds :
      (p : MultidayPosition A) (o : Op A) (m : TradingStateMachine A)
      → keeps_position o ≡ true
      → Holds p m
      → Holds p (perform o m)
  unfolding perform Holds
  perform-Holds p (enter symbol price quantity atr stop target trailing now) m k (q, e, h, v) =
      let same : (enter_position symbol price quantity atr stop target trailing now m).0 ≡ m =
        entered_again symbol price quantity atr stop target trailing now m e in
      rw same (q, e, h, v)
  perform-Holds p (exit reason price now) m k v = ground arith
  perform-Holds p reset m k v = ground arith
  perform-Holds p (restore r) m k v = ground arith
  perform-Holds p (highest price) m k (q, e, h, v) =
      ((update_highest_price price q).0, e, ground (arith, h), higher-IsFrozen price p q v)
  perform-Holds p (trail stop) m k (q, e, h, v) =
      ((update_trailing_stop stop q).0, e, ground (arith, h), trail-IsFrozen stop p q v)

  run_from-Holds :
      (p : MultidayPosition A) (ops : List (Op A)) (m : TradingStateMachine A)
      → All (λ o. keeps_position o ≡ true) ops
      → Holds p m
      → Holds p (run ops m)
  unfolding run
  run_from-Holds p [] m k v = v
  run_from-Holds p (o ∷ ops) m k v =
      run_from-Holds p ops (perform o m) k.1 (perform-Holds p o m k.0 v)

  -- From an entry until an exit, a reset or a restoration, prices and new stops leave the ATR, the
  -- stop loss, the target, the entry price and the quantity as they were at the entry, and never
  -- lower the trailing stop or the highest price; a second entry is refused.
  pub run-IsFrozen :
      (m : TradingStateMachine A) (p : MultidayPosition A) (ops : List (Op A))
      → m.state ≡ entered
      → m.position ≡ some p
      → All (λ o. keeps_position o ≡ true) ops
      → (q : MultidayPosition A) × ((run ops m).state ≡ entered)
        × ((run ops m).position ≡ some q)
        × IsFrozen p q
  unfolding Holds
  run-IsFrozen m p ops e h k = run_from-Holds p ops m k (
    p,
    e,
    h,
    record {
      atr = refl;
      stop = refl;
      target = refl;
      price = refl;
      quantity = refl;
      trailing = f.lt_irrefl p.trailing_stop;
      highest = f.lt_irrefl p.highest_price;
    },
  )

  -- In a machine that holds a position exactly while it is ENTERED: an entry is refused exactly when a position is held, an exit exactly when none is; a refusal
  -- changes nothing. An exit leaves EXITED and its reason, and no position.
  pub enter_exit_iff :
      (m : TradingStateMachine A)
      → IsCoherent m
      → (symbol : Text) (price : A) (quantity : ℕ) (atr stop : A) (target : Option A) (trailing : A)
        (reason : ExitReason) (now : Now)
      → let (entering, opened) =
          enter_position symbol price quantity atr stop target trailing now m in
        let (leaving, closed) = exit_position strptime reason price now m in
        ((is_some opened ≡ true) ↔ (has_position m ≡ false))
        × ((is_some closed ≡ true) ↔ (has_position m ≡ true))
        × (opened ≡ none → entering ≡ m)
        × (closed ≡ none → leaving ≡ m)
        × (is_some closed ≡ true
            → (leaving.state ≡ exited)
              × (leaving.position ≡ none)
              × (leaving.last_exit_reason ≡ some reason))
  unfolding IsCoherent enter_position exit_position has_position
  enter_exit_iff m v symbol price quantity atr stop target trailing reason now = (
    ground (arith, v),
    ground (arith, v),
    ground (arith, v),
    ground (arith, v),
    ground (arith, v),
  )

  -- A position that is entered on one day and left on another by the next call, is
  -- reported with the symbol, the entry price, the quantity and the ATR of its entry, and was held
  -- for the days from the one to the other, both counted.
  pub exit_reports_entry :
      (m : TradingStateMachine A) (symbol : Text) (price : A) (quantity : ℕ) (atr stop : A)
      (target : Option A) (trailing : A) (reason : ExitReason) (exit_price : A)
      (opening closing : Now)
      → is_entered m.state ≡ false
      → is_blank opening.date_text ≡ false
      → strptime opening.date_text ≡ some opening.day
      → let held = (enter_position symbol price quantity atr stop target trailing opening m).0 in
        (r : ExitResult A) × ((exit_position strptime reason exit_price closing held).1 ≡ some r)
        × (r.symbol ≡ symbol)
        × (r.entry_price ≡ price)
        × (r.quantity ≡ quantity)
        × (r.atr_at_entry ≡ atr)
        × (r.entry_date ≡ opening.date_text)
        × (r.holding_days ≡ (pos closing.day -ℤ pos opening.day) +ℤ pos 1)
  unfolding enter_position exit_position exit_result calculate_holding_days opened_position
      post_init
  exit_reports_entry m symbol price quantity atr stop target trailing reason exit_price opening
        closing e b day =
      let p = opened_position symbol price quantity atr stop target trailing opening in
      (
        exit_result strptime reason exit_price closing p,
        ground (arith, e),
        refl,
        refl,
        refl,
        refl,
        refl,
        ground (arith, b, day),
      )
