-- ===== src/Tests/TradingExamples.antt =====
-- Examples for the modules under Trading and Bars.
use kis_api_trend_atr.Base.{◌≡◌, refl, Option, none, some, List, [], ◌∷◌, ◌++◌, ℕ, map, ◌*◌}
use kis_api_trend_atr.Base.Int.{ℤ, pos}
use kis_api_trend_atr.Base.Floats.{int_floats}
use kis_api_trend_atr.Base.Text.{Text, codes, zfill}
use kis_api_trend_atr.Trading.{
  TradingStateMachine, MultidayPosition, Now, entered, new_machine, post_init,
}
use kis_api_trend_atr.Trading.Machine.{
  Op, highest, trail, run, IsCoherent, run-IsCoherent, IsFrozen, run-IsFrozen,
}
use kis_api_trend_atr.Trading.Saving.{from_dict, to_dict, from_dict-to_dict}
use kis_api_trend_atr.Bars.{MarketTick, flush}
use kis_api_trend_atr.Bars.Groups.{
  returned, feed, to_list, bar_of, groups_of, ticks_of, returned-groups,
}

abbrev monday : Now
monday = record { date_text = codes "2025-03-10"; time_text = codes "10:00:00"; day = 739320 }

abbrev friday : Now
friday = record { date_text = codes "2025-03-14"; time_text = codes "10:00:00"; day = 739324 }

-- a stand-in that knows one date
abbrev strptime : Text → Option ℕ
strptime s = some 739320

abbrev code : Text
code = codes "005930"

abbrev held : MultidayPosition ℤ
held = record {
  symbol = code;
  position = codes "LONG";
  entry_price = pos 100;
  quantity = 10;
  atr_at_entry = pos 5;
  stop_loss = pos 90;
  take_profit = none;
  trailing_stop = pos 90;
  highest_price = pos 100;
  entry_date = codes "2025-03-10";
  entry_time = codes "10:00:00";
  state = entered;
}

abbrev holding : TradingStateMachine ℤ
holding = record { position = some held; state = entered; last_exit_reason = none }

abbrev moves : List (Op ℤ)
moves = highest (pos 120) ∷ trail (pos 110) ∷ trail (pos 95) ∷ []

run-IsCoherent_example : IsCoherent (run strptime moves new_machine)
run-IsCoherent_example = run-IsCoherent strptime moves

run-IsFrozen_example :
    (q : MultidayPosition ℤ) × ((run strptime moves holding).state ≡ entered)
    × ((run strptime moves holding).position ≡ some q)
    × IsFrozen held q
run-IsFrozen_example = run-IsFrozen strptime holding held moves refl refl (refl, (refl, (refl, tt)))

from_dict-to_dict_example :
    from_dict (to_dict (post_init held monday)) friday ≡ some (post_init held monday)
from_dict-to_dict_example = from_dict-to_dict held monday friday refl refl

abbrev tick : Text → ℕ → ℕ → MarketTick ℤ
tick stock_code seconds price = record {
  stock_code = stock_code;
  price = pos price;
  volume = pos 1;
  timestamp = seconds * 1000000;
}

-- two codes in turn, one of them over three minutes
abbrev ticks : List (MarketTick ℤ)
ticks =
    tick code 1 100
    ∷ tick (codes "660") 2 50
    ∷ tick code 30 104
    ∷ tick code 61 103
    ∷ tick (codes "660") 62 51
    ∷ tick code 125 99
    ∷ []

returned-groups_example :
    returned (zfill 6 code) ticks [] ++ to_list (flush (some code) (feed ticks [])).1
    ≡ map bar_of (groups_of (ticks_of (zfill 6 code) ticks))
returned-groups_example = returned-groups code ticks
