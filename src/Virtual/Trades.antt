-- ===== src/Virtual/Trades.antt =====
-- `execute_buy`, `execute_sell` and `update_position_price` of VirtualAccount
-- (kis_trend_atr_trading/cbt/virtual_account.py).
use kis_api_trend_atr.Base.{ℕ, ◌+◌, ◌&&◌, Option, none, some, if◌then◌else◌}
use kis_api_trend_atr.Base.Floats.{Floats}
use kis_api_trend_atr.Base.Int.{pos, ◌+ℤ◌, ◌-ℤ◌}
use kis_api_trend_atr.Base.Text.{Text}
use kis_api_trend_atr.Trading.{is_zero, is_positive}
use kis_api_trend_atr.Virtual.{
  CbtPosition, AccountState, VirtualAccount, CbtSettings, CbtNow, BuyRequest, BuyReply,
  already_holding, not_enough_cash, bought, SellResult, SellReply, nothing_held, sell_raised, sold,
  cost, bought_position, finish,
}

module _ {A : Type 0} ⦃f : Floats A⦄ (settings : CbtSettings A) where
  abbrev pub fee : A → A
  fee amount = f.mul amount settings.commission_rate

  unfoldable pub buy :
      CbtNow
      → BuyRequest A
      → VirtualAccount A
      → Option (CbtPosition A)
      → VirtualAccount A × BuyReply A
  unfolding finish bought_position
  buy now b v (some p) = (v, already_holding)
  buy now b v none =
      let total_cost = cost b.price b.quantity in
      let required_cash = f.add total_cost (fee total_cost) in
      if f.lt v.state.cash required_cash then (v, not_enough_cash) else (
        finish now b.price (record v {
          state = record v.state {
            cash = f.sub v.state.cash required_cash;
            position = some (bought_position now b);
          };
        }),
        bought (fee total_cost),
      )

  unfoldable pub execute_buy :
      CbtNow → BuyRequest A → VirtualAccount A → VirtualAccount A × BuyReply A
  unfolding buy
  execute_buy now b v = buy now b v v.state.position

  -- the result of a sale, and `none` for the exceptions
  unfoldable pub sale : (Text → Option ℕ) → CbtNow → A → CbtPosition A → Option (SellResult A)
  sale strptime now price p =
      let total_proceeds = cost price p.quantity in
      let entry_cost = cost p.entry_price p.quantity in
      let gross_pnl = f.sub total_proceeds entry_cost in
      let total_commission = f.add (fee entry_cost) (fee total_proceeds) in
      let net_pnl = f.sub gross_pnl total_commission in
      if is_zero entry_cost then none else elim (strptime p.entry_date) [
        | none ↦ none
        | some day ↦ some (record {
          gross_pnl = gross_pnl;
          commission = total_commission;
          net_pnl = net_pnl;
          return_pct = f.mul (f.div net_pnl entry_cost) (f.of_nat 100);
          holding_days = (pos now.day -ℤ pos day) +ℤ pos 1;
        })
      ]

  unfoldable pub sold_state : A → CbtPosition A → SellResult A → AccountState A → AccountState A
  sold_state price p r s =
      let total_proceeds = cost price p.quantity in
      record s {
        cash = f.add s.cash (f.sub total_proceeds (fee total_proceeds));
        realized_pnl = f.add s.realized_pnl r.net_pnl;
        unrealized_pnl = f.of_nat 0;
        total_trades = s.total_trades + 1;
        winning_trades = if is_positive r.net_pnl then s.winning_trades + 1 else s.winning_trades;
        losing_trades = if is_positive r.net_pnl then s.losing_trades else s.losing_trades + 1;
        position = none;
      }

  unfoldable pub sell :
      CbtNow
      → A
      → VirtualAccount A
      → CbtPosition A
      → Option (SellResult A)
      → VirtualAccount A × SellReply A
  unfolding finish sold_state
  sell now price v p none = (v, sell_raised)
  sell now price v p (some r) =
      (finish now price (record v { state = sold_state price p r v.state }), sold r)

  unfoldable pub sell_held :
      (Text → Option ℕ)
      → CbtNow
      → A
      → VirtualAccount A
      → Option (CbtPosition A)
      → VirtualAccount A × SellReply A
  unfolding sell sale
  sell_held strptime now price v none = (v, nothing_held)
  sell_held strptime now price v (some p) = sell now price v p (sale strptime now price p)

  unfoldable pub execute_sell :
      (Text → Option ℕ) → CbtNow → A → VirtualAccount A → VirtualAccount A × SellReply A
  unfolding sell_held
  execute_sell strptime now price v = sell_held strptime now price v v.state.position

  -- a new highest price, and the trailing stop behind it
  unfoldable pub trailed : A → CbtPosition A → CbtPosition A
  trailed price p =
      let new_trailing = f.sub price (f.mul p.atr_at_entry settings.trailing_stop_atr_multiplier) in
      let stop =
        if settings.enable_trailing_stop && f.lt p.trailing_stop new_trailing
        then new_trailing
        else p.trailing_stop in
      if f.lt p.highest_price price
      then record p { highest_price = price; trailing_stop = stop }
      else p

  unfoldable pub priced : A → AccountState A → Option (CbtPosition A) → AccountState A
  unfolding trailed
  priced price s none = record s { unrealized_pnl = f.of_nat 0 }
  priced price s (some p) =
      let position_value = cost price p.quantity in
      record s {
        unrealized_pnl =
            f.sub (f.sub position_value (cost p.entry_price p.quantity)) (fee position_value);
        position = some (trailed price p);
      }

  unfoldable pub update_position_price : A → VirtualAccount A → VirtualAccount A
  unfolding priced
  update_position_price price v = record v { state = priced price v.state v.state.position }
