-- ===== src/Tests/PositionsExamples.antt =====
-- Examples of the positions, with whole numbers for prices.
use kis_api_trend_atr.Base.{Bool, ℕ, ◌≡◌, refl, true, false, none, some, List, [], ◌∷◌}
use kis_api_trend_atr.Base.Int.{ℤ}
use kis_api_trend_atr.Base.Floats.{int_floats}
use kis_api_trend_atr.Base.Dict.{lookup, insert}
use kis_api_trend_atr.Base.Text.{Text, codes, text_keyed, text_beq}
use kis_api_trend_atr.Positions.{ManagedPosition, PositionManager, entered, other}
use kis_api_trend_atr.Positions.Trailing.{Follows, update_all, update_all-Follows}
use kis_api_trend_atr.Positions.Restore.{api_stocks, restore_from_api, restore_from_api-agreed}

abbrev samsung : Text
samsung = codes "005930"

abbrev priced : ℤ → ManagedPosition ℤ
priced price = record {
  stock_code = samsung;
  stock_name = [];
  state = entered;
  entry_price = price;
  quantity = 10;
  entry_date = 5;
  entry_time = 0;
  entry_order_no = [];
  atr_at_entry = ℤ.pos 15;
  stop_loss = ℤ.pos 680;
  take_profit = ℤ.pos 800;
  trailing_stop = ℤ.pos 680;
  highest_price = price;
  current_price = price;
  unrealized_pnl = ℤ.pos 0;
  unrealized_pnl_pct = ℤ.pos 0;
  exit = record {
    exit_price = ℤ.pos 0;
    exit_date = none;
    exit_time = none;
    exit_reason = other;
    exit_order_no = [];
    realized_pnl = ℤ.pos 0;
    realized_pnl_pct = ℤ.pos 0;
    commission = ℤ.pos 0;
  };
  holding_days = ℤ.pos 3;
}

abbrev holding : ℤ → PositionManager ℤ
holding price = record {
  max_positions = 2;
  enable_trailing = true;
  trailing_atr_multiplier = ℤ.pos 2;
  trailing_activation_pct = ℤ.pos 1;
  enable_gap_protection = true;
  max_gap_loss_pct = ℤ.pos 3;
  positions = (samsung, priced price) ∷ [];
  closed_positions = [];
  file = ([], []);
}

abbrev prices : List (ℤ × ℕ)
prices = (ℤ.pos 750, 6) ∷ (ℤ.pos 700, 7) ∷ []

update_all-Follows_example :
    (q : ManagedPosition ℤ) × (lookup samsung
        (update_all (holding (ℤ.pos 700)) samsung prices).positions
      ≡ some q)
    × Follows (priced (ℤ.pos 700)) q
unfolding lookup text_beq
update_all-Follows_example =
    update_all-Follows (holding (ℤ.pos 700)) samsung prices (priced (ℤ.pos 700)) refl

abbrev holdings : List (Text × ℕ)
holdings = (samsung, 7) ∷ (codes "000660", 3) ∷ []

restore_from_api-agreed_example :
    let m = holding (ℤ.pos 700) in
    let m' = (restore_from_api m (some holdings) true).0 in
    (lookup samsung m'.positions ≡ some (record (priced (ℤ.pos 700)) { quantity = 7 }))
    × (m'.file ≡ (m'.positions, m'.closed_positions))
    × ((restore_from_api m (some holdings) false).0.positions ≡ m.positions)
    × ((auto_sync : Bool) → (restore_from_api m none auto_sync).0 ≡ m)
unfolding lookup insert text_beq api_stocks
restore_from_api-agreed_example = restore_from_api-agreed (holding (ℤ.pos 700)) holdings samsung
