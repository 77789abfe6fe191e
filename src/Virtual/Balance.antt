-- ===== src/Virtual/Balance.antt =====
-- The books of the paper account (kis_trend_atr_trading/cbt/virtual_account.py): no amount is lost or made,
-- where sums and differences are exact.
use kis_api_trend_atr.Base.{
  ℕ, ◌+◌, ◌≡◌, refl, ap, sym, ◌∙◌, true, Option, none, some, List, [], ◌∷◌, arith, Bool-cases,
  Option-cases, inl, inr,
}
use kis_api_trend_atr.Base.Floats.{Floats}
use kis_api_trend_atr.Base.Int.{ℤ, pos, ◌+ℤ◌, ◌-ℤ◌, int_laws, pos_part, neg_part}
use kis_api_trend_atr.Base.Text.{Text}
use kis_api_trend_atr.Virtual.Trades.{
  fee, execute_buy, execute_sell, update_position_price, buy, sell, sell_held, sale, sold_state,
  trailed, priced,
}
use kis_api_trend_atr.Virtual.{
  CbtPosition, AccountState, VirtualAccount, CbtSettings, CbtNow, BuyRequest, SellResult, cost,
  new_account, reset_account, finish, bought_position, fresh_state, save_state,
  record_equity_snapshot,
}

-- Amounts in whole units of some size, with exact sums; a product may be rounded in any way.
pub record IsExact (f : Floats ℤ) : Type 0 where
  pub add_exact : (a b : ℤ) → f.add a b ≡ a +ℤ b
  pub sub_exact : (a b : ℤ) → f.sub a b ≡ a -ℤ b
  pub zero_exact : f.of_nat 0 ≡ pos 0

module _ ⦃f : Floats ℤ⦄ (settings : CbtSettings ℤ) where
  -- what the position has cost, its commission included
  abbrev pub tied : Option (CbtPosition ℤ) → ℤ
  tied none = pos 0
  tied (some p) = cost p.entry_price p.quantity +ℤ fee settings (cost p.entry_price p.quantity)

  -- The cash and what the position has cost are the capital and the realized profit; each trade was won
  -- or lost.
  pub record IsBalanced (s : AccountState ℤ) : Type 0 where
    pub balance : s.cash +ℤ tied s.position ≡ s.initial_capital +ℤ s.realized_pnl
    pub counts : s.total_trades ≡ s.winning_trades + s.losing_trades

  abbrev pub FileBalanced : Option (AccountState ℤ) → Type 0
  FileBalanced none = Unit {0}
  FileBalanced (some s) = IsBalanced s

  pub record BothBalanced (v : VirtualAccount ℤ) : Type 0 where
    pub state : IsBalanced v.state
    pub file : FileBalanced v.file

  finish-BothBalanced :
      (now : CbtNow) (price : ℤ) (s : AccountState ℤ) (file : Option (AccountState ℤ))
      → IsBalanced s
      → BothBalanced (finish now price (record { state = s; file = file }))
  unfolding finish record_equity_snapshot save_state
  finish-BothBalanced now price s file b = record {
    state = record { balance = b.balance; counts = b.counts };
    file = record { balance = b.balance; counts = b.counts };
  }

  sale-net :
      (strptime : Text → Option ℕ) (now : CbtNow) (price : ℤ) (p : CbtPosition ℤ) (r : SellResult ℤ)
      → sale settings strptime now price p ≡ some r
      → let proceeds = cost price p.quantity in
        let entry_cost = cost p.entry_price p.quantity in
        r.net_pnl
        ≡ f.sub
            (f.sub proceeds entry_cost)
            (f.add (fee settings entry_cost) (fee settings proceeds))
  unfolding sale
  sale-net strptime now price p r e = ground arith

  tied-trailed :
      (price : ℤ) (p : CbtPosition ℤ) → tied (some (trailed settings price p)) ≡ tied (some p)
  unfolding trailed
  tied-trailed price p = elim (Bool-cases (f.lt p.highest_price price)) [
    | inl e ↦ rw e refl
    | inr e ↦ rw e refl
  ]

  module _ (exact : IsExact f) where
    fresh-IsBalanced : (capital : ℤ) → IsBalanced (fresh_state capital)
    fresh-IsBalanced capital = record { balance = rw (exact.zero_exact) refl; counts = refl }

    paid_balance :
        (cash e c total : ℤ) → cash +ℤ pos 0 ≡ total → (cash -ℤ (e +ℤ c)) +ℤ (e +ℤ c) ≡ total
    paid_balance cash e c total h = omega (int_laws, ap pos_part h, ap neg_part h)

    buy-BothBalanced :
        (now : CbtNow) (b : BuyRequest ℤ) (v : VirtualAccount ℤ) (o : Option (CbtPosition ℤ))
        → v.state.position ≡ o
        → BothBalanced v
        → BothBalanced (buy settings now b v o).0
    unfolding buy bought_position
    buy-BothBalanced now b v (some p) e h = h
    buy-BothBalanced now b v none e h =
        let total = cost b.price b.quantity in
        let before : v.state.cash +ℤ pos 0 ≡ v.state.initial_capital +ℤ v.state.realized_pnl =
          ap (λ o. v.state.cash +ℤ tied o) (sym e) ∙ h.state.balance in
        let left : f.sub v.state.cash (f.add total (fee settings total))
            ≡ v.state.cash -ℤ (total +ℤ fee settings total) =
          exact.sub_exact v.state.cash (f.add total (fee settings total))
          ∙ ap (λ x. v.state.cash -ℤ x) (exact.add_exact total (fee settings total)) in
        elim (Bool-cases (f.lt v.state.cash (f.add total (fee settings total)))) [
          | inl poor ↦ rw poor h
          | inr enough ↦ rw enough (
              finish-BothBalanced now b.price _ v.file (record {
                balance = rw left (
                    paid_balance v.state.cash total (fee settings total)
                      (v.state.initial_capital +ℤ v.state.realized_pnl) before);
                counts = h.state.counts;
              }))
        ]

    exact_sums : (e c p d : ℤ) → f.sub (f.sub p e) (f.add c d) ≡ (p -ℤ e) -ℤ (c +ℤ d)
    exact_sums e c p d = rw (exact.sub_exact _ _, exact.sub_exact p e, exact.add_exact c d) refl

    sold_balance :
        (cash e c p d initial realized : ℤ)
        → cash +ℤ (e +ℤ c) ≡ initial +ℤ realized
        → (cash +ℤ (p -ℤ d)) +ℤ pos 0 ≡ initial +ℤ (realized +ℤ ((p -ℤ e) -ℤ (c +ℤ d)))
    sold_balance cash e c p d initial realized h = omega (int_laws, ap pos_part h, ap neg_part h)

    sell-BothBalanced :
        (strptime : Text → Option ℕ) (now : CbtNow) (price : ℤ) (v : VirtualAccount ℤ)
        (o : Option (CbtPosition ℤ))
        → v.state.position ≡ o
        → BothBalanced v
        → BothBalanced (sell_held settings strptime now price v o).0
    unfolding sell_held sell sold_state
    sell-BothBalanced strptime now price v none e h = h
    sell-BothBalanced strptime now price v (some p) e h =
        elim (Option-cases (sale settings strptime now price p)) [
          | inl raised ↦ rw raised h
          | inr (r, done) ↦
              let proceeds = cost price p.quantity in
              let entry_cost = cost p.entry_price p.quantity in
              let before : v.state.cash +ℤ (entry_cost +ℤ fee settings entry_cost)
                  ≡ v.state.initial_capital +ℤ v.state.realized_pnl =
                ap (λ o. v.state.cash +ℤ tied o) (sym e) ∙ h.state.balance in
              rw done (
                finish-BothBalanced now price _ v.file (record {
                  balance =
                      rw
                        (
                          sale-net strptime now price p r done,
                          exact_sums entry_cost (fee settings entry_cost) proceeds
                              (fee settings proceeds),
                          exact.add_exact v.state.cash _,
                          exact.add_exact v.state.realized_pnl _,
                          exact.sub_exact proceeds (fee settings proceeds),
                        )
                        (sold_balance v.state.cash entry_cost (fee settings entry_cost) proceeds
                          (fee settings proceeds) v.state.initial_capital v.state.realized_pnl
                          before);
                  counts = ground (arith, h.state.counts);
                }))
        ]

    update-BothBalanced :
        (price : ℤ) (v : VirtualAccount ℤ) (o : Option (CbtPosition ℤ))
        → v.state.position ≡ o
        → BothBalanced v
        → IsBalanced (priced settings price v.state o)
    unfolding priced
    update-BothBalanced price v none e h = record {
      balance = h.state.balance;
      counts = h.state.counts;
    }
    update-BothBalanced price v (some p) e h = record {
      balance =
          ap (λ c. v.state.cash +ℤ c) (tied-trailed price p)
          ∙ ap (λ o. v.state.cash +ℤ tied o) (sym e)
          ∙ h.state.balance;
      counts = h.state.counts;
    }

-- calls of the account, a restart among them
pub data Call : Type 0 where
  buys : CbtNow → BuyRequest ℤ → Call
  sells : CbtNow → ℤ → Call
  prices : ℤ → Call
  resets : Call
  restarts : ℤ → Call

module _ ⦃f : Floats ℤ⦄ (settings : CbtSettings ℤ) (strptime : Text → Option ℕ) where
  pub perform : Call → VirtualAccount ℤ → VirtualAccount ℤ
  perform (buys now b) v = (execute_buy settings now b v).0
  perform (sells now price) v = (execute_sell settings strptime now price v).0
  perform (prices price) v = update_position_price settings price v
  perform resets v = reset_account v
  perform (restarts capital) v = new_account capital true v.file

  pub run : List Call → VirtualAccount ℤ → VirtualAccount ℤ
  run [] v = v
  run (c ∷ calls) v = run calls (perform c v)

  module _ (exact : IsExact f) where
    restart-IsBalanced :
        (capital : ℤ) (file : Option (AccountState ℤ))
        → FileBalanced settings file
        → BothBalanced settings (new_account capital true file)
    unfolding new_account
    restart-IsBalanced capital none h = record {
      state = fresh-IsBalanced settings exact capital;
      file = h;
    }
    restart-IsBalanced capital (some s) h = record { state = h; file = h }

    perform-BothBalanced :
        (c : Call) (v : VirtualAccount ℤ)
        → BothBalanced settings v
        → BothBalanced settings (perform c v)
    unfolding perform execute_buy execute_sell update_position_price reset_account
    perform-BothBalanced (buys now b) v h =
        buy-BothBalanced settings exact now b v v.state.position refl h
    perform-BothBalanced (sells now price) v h =
        sell-BothBalanced settings exact strptime now price v v.state.position refl h
    perform-BothBalanced (prices price) v h = record {
      state = update-BothBalanced settings exact price v v.state.position refl h;
      file = h.file;
    }
    perform-BothBalanced resets v h = record {
      state = fresh-IsBalanced settings exact v.state.initial_capital;
      file = tt;
    }
    perform-BothBalanced (restarts capital) v h = restart-IsBalanced capital v.file h.file

    run-from :
        (calls : List Call) (v : VirtualAccount ℤ)
        → BothBalanced settings v
        → BothBalanced settings (run calls v)
    unfolding run
    run-from [] v h = h
    run-from (c ∷ calls) v h = run-from calls (perform c v) (perform-BothBalanced c v h)

    -- With exact sums, and products rounded in any way, no call of a new account loses or makes money,
    -- restarts from its file among them: the cash and what an open position has cost with its
    -- commission are always the capital and the realized profit, in memory and in the file, and every
    -- trade is counted as won or as lost.
    pub run-BothBalanced :
        (calls : List Call) (capital : ℤ)
        → BothBalanced settings (run calls (new_account capital true none))
    run-BothBalanced calls capital =
        run-from calls (new_account capital true none) (restart-IsBalanced capital none tt)
