-- ===== src/Tests/VirtualExamples.antt =====
-- The books of the paper account over a concrete run.
use kis_api_trend_atr.Base.{ℕ, refl, true, false, Option, none, some, List, [], ◌∷◌}
use kis_api_trend_atr.Base.Floats.{int_floats}
use kis_api_trend_atr.Base.Int.{ℤ, pos}
use kis_api_trend_atr.Base.Text.{Text, codes}
use kis_api_trend_atr.Virtual.{CbtSettings, CbtNow, new_account}
use kis_api_trend_atr.Virtual.Balance.{
  IsExact, BothBalanced, Call, buys, sells, prices, restarts, run, run-BothBalanced,
}

abbrev settings : CbtSettings ℤ
settings = record {
  commission_rate = pos 1;
  enable_trailing_stop = false;
  trailing_stop_atr_multiplier = pos 2;
}

int_floats-IsExact : IsExact int_floats
int_floats-IsExact = record { add_exact = λ a b. refl; sub_exact = λ a b. refl; zero_exact = refl }

abbrev now : CbtNow
now = record { timestamp = codes "2025-03-10 09:10:00"; day = 739320 }

abbrev calls : List Call
calls =
    buys now (record {
      stock_code = codes "005930";
      price = pos 700;
      quantity = 10;
      stop_loss = pos 670;
      take_profit = pos 750;
      atr = pos 15;
      entry_date = [];
    })
    ∷ prices (pos 710)
    ∷ restarts (pos 5)
    ∷ sells now (pos 720)
    ∷ []

abbrev read_day : Text → Option ℕ
read_day s = some 739320

run-BothBalanced_example :
    BothBalanced settings (run settings read_day calls (new_account (pos 100000) true none))
run-BothBalanced_example = run-BothBalanced settings read_day int_floats-IsExact calls (pos 100000)
