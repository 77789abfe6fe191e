-- ===== src/Tests/IntentsExamples.antt =====
-- Examples of the intent queue.
use kis_api_trend_atr.Base.{◌≤◌, refl, true, some, [], ◌∷◌, length}
use kis_api_trend_atr.Base.Int.{ℤ}
use kis_api_trend_atr.Base.Text.{Text, codes, strip, zfill, text_beq}
use kis_api_trend_atr.Intents.{
  Intent, IntentQueue, init, admit, at_cap, reserve, put_nowait, symbol_count, entry_of,
  inc_symbol_count, strategy_rank,
}
use kis_api_trend_atr.Intents.Put.{Phase, first_try, entered, Putting, advance}
use kis_api_trend_atr.Base.Dict.{lookup, insert}
use kis_api_trend_atr.Intents.Counts.{has_key}
use kis_api_trend_atr.Intents.Invariant.{held}
use kis_api_trend_atr.Intents.Admission.{
  System, Step, begin, go_on, Reach, here, next, empty, reserved, held_once,
}

-- two intents of one moment, whose strategies have different ranks
abbrev trend : Intent
trend = record { strategy_tag = codes "trend_atr"; symbol = codes "005930"; created_at = some 1 }

abbrev pullback : Intent
pullback = record {
  strategy_tag = codes "pullback_rebreakout";
  symbol = codes "000660";
  created_at = some 1;
}

abbrev start : System
start = empty (ℤ.pos 2) true [] (ℤ.pos 1)

abbrev one_reserved : IntentQueue
one_reserved = reserve start.queue trend

abbrev both_reserved : IntentQueue
both_reserved = reserve one_reserved pullback

abbrev one_queued : IntentQueue
one_queued = record both_reserved { queue = entry_of 1 trend ∷ []; unfinished = 1 }

abbrev both_queued : IntentQueue
both_queued = record both_reserved {
  queue = entry_of 2 pullback ∷ entry_of 1 trend ∷ [];
  unfinished = 2;
}

abbrev putting_trend : Phase → Putting
putting_trend phase = record { intent = trend; seq = 1; phase = phase }

abbrev putting_pullback : Phase → Putting
putting_pullback phase = record { intent = pullback; seq = 2; phase = phase }

-- the calls begin before either goes on
abbrev begun : System
begun = record { queue = one_reserved; putting = putting_trend first_try ∷ []; taken = [] }

abbrev both_begun : System
both_begun = record {
  queue = both_reserved;
  putting = putting_pullback first_try ∷ putting_trend first_try ∷ [];
  taken = [];
}

abbrev one_in : System
one_in = record {
  queue = one_queued;
  putting = putting_pullback first_try ∷ putting_trend entered ∷ [];
  taken = [];
}

abbrev both_in : System
both_in = record {
  queue = both_queued;
  putting = putting_pullback entered ∷ putting_trend entered ∷ [];
  taken = [];
}

begin_trend : Step start begun
unfolding init admit at_cap reserve symbol_count lookup
begin_trend = begin start trend 1 one_reserved refl

begin_pullback : Step begun both_begun
unfolding init admit at_cap reserve symbol_count lookup inc_symbol_count insert text_beq zfill
begin_pullback = begin begun pullback 2 both_reserved refl

put_trend : Step both_begun one_in
unfolding init reserve advance put_nowait
put_trend =
    go_on both_reserved (putting_pullback first_try ∷ []) (putting_trend first_try) [] [] one_queued
      entered refl

put_pullback : Step one_in both_in
unfolding init reserve advance put_nowait entry_of strategy_rank text_beq strip
put_pullback =
    go_on one_queued [] (putting_pullback first_try) (putting_trend entered ∷ []) [] both_queued
      entered refl

two_puts : Reach start both_in
two_puts = next (next (next (next here begin_trend) begin_pullback) put_trend) put_pullback

held_once_example :
    ((k : Text) → held (has_key k) both_in.queue (reserved both_in.putting both_in.taken) ≤ 1)
    × (length both_in.queue.queue ≤ both_in.queue.maxsize)
held_once_example = held_once (ℤ.pos 2) true [] (ℤ.pos 1) two_puts

abbrev trend_left : IntentQueue
trend_left = record both_queued { queue = entry_of 1 trend ∷ [] }
