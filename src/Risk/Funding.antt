-- ===== src/Risk/Funding.antt =====
-- What a manager does without starting capital.
use kis_api_trend_atr.Base.{ℕ, ◌≡◌, Bool, true, false, List, [], ◌∷◌, arith, All}
use kis_api_trend_atr.Base.Floats.{Floats}
use kis_api_trend_atr.Risk.{RiskManager}
use kis_api_trend_atr.Risk.Orders.{Op, Call, perform, run, set_capital, set_max_loss}

abbrev pub sets_terms : {A : Type 0} → Op A → Bool
sets_terms (set_capital a) = true
sets_terms (set_max_loss a) = true
sets_terms _ = false

-- A manager without starting capital, whose limit is positive, below the limit.
pub record Unfunded {A : Type 0} ⦃f : Floats A⦄ (m : RiskManager A) : Type 0 where
  pub no_capital : f.le m.daily_pnl.starting_capital (f.of_nat 0) ≡ true
  pub positive_limit : f.le (f.of_nat 0) (f.sub (f.of_nat 0) m.daily_max_loss_percent) ≡ false
  pub below : m.daily_limit_reached ≡ false

module _ {A : Type 0} ⦃f : Floats A⦄ where
  Unfunded-perform :
      (m : RiskManager A) (today now : ℕ) (op : Op A)
      → sets_terms op ≡ false
      → Unfunded m
      → Unfunded (perform m today now op)
  unfolding perform
  Unfunded-perform m today now op unset h = record {
    no_capital = ground (arith, unset, h.no_capital);
    positive_limit = ground (arith, unset, h.positive_limit);
    below = ground (arith, h.no_capital, h.positive_limit, h.below);
  }

  -- Without starting capital (0.0, the default, or less) the loss limit is off: if it is positive and
  -- not reached, then no calls but those that set the capital or the limit, whatever losses they
  -- record, ever reach it.
  pub run-Unfunded :
      (m : RiskManager A) (cs : List (Call A))
      → All (λ c. sets_terms c.op ≡ false) cs
      → Unfunded m
      → Unfunded (run m cs)
  unfolding run
  run-Unfunded m [] unset h = h
  run-Unfunded m (c ∷ cs) (here, rest) h =
      run-Unfunded (perform m c.today c.now c.op) cs rest
        (Unfunded-perform m c.today c.now c.op here h)
