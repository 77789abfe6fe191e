-- ===== src/Tests/LockExamples.antt =====
-- The theorems on the lock at concrete runs.
use kis_api_trend_atr.Base.{ℕ, ◌≡◌, refl, true, false, some}
use kis_api_trend_atr.Base.Text.{decimal}
use kis_api_trend_atr.Lock.{IsoFormat, World, empty_world, acquire}
use kis_api_trend_atr.Lock.Info.{parse_pid}
use kis_api_trend_atr.Lock.Info.Reading.{decimal-IsWord, decimal_pos}
use kis_api_trend_atr.Lock.Exclusion.{IsPlain, Holds, refused_then_admitted}
use kis_api_trend_atr.Lock.Runs.{spawn, Reach, here, next, starts, acquires, at_most_one}

-- instants printed as numbers
abbrev numbered : IsoFormat
numbered = record { isoformat = decimal; fromisoformat = λ s. parse_pid (some s) }

numbered-IsPlain : IsPlain numbered
numbered-IsPlain = record { is_word = decimal-IsWord; is_some = decimal_pos }

-- process 7 runs and has the lock
abbrev one_running : World
one_running = (acquire numbered 7 100 (spawn 7 empty_world)).0

one_running-Reach : Reach numbered one_running
unfolding acquire spawn
one_running-Reach =
    next (next here (starts 7 empty_world refl)) (acquires 7 100 (spawn 7 empty_world) refl refl)

at_most_one_example : ◌≡◌ {A = ℕ} 7 7
unfolding acquire spawn
at_most_one_example = at_most_one numbered numbered-IsPlain one_running-Reach 7 7 refl refl

one_running-Holds : Holds numbered 7 one_running
unfolding acquire spawn
one_running-Holds = record {
  inode = 0;
  started = 100;
  named = refl;
  locked = refl;
  object = refl;
  says = refl;
  alive = refl;
}

refused_then_admitted_example :
    let (w1, first) = acquire numbered 8 200 one_running in
    let (w2, second) = acquire numbered 9 300 w1 in
    (first ≡ false)
    × (second ≡ true)
    × ((w2.locks 7).acquired ≡ true)
    × ((w2.locks 9).acquired ≡ true)
unfolding acquire spawn
refused_then_admitted_example =
    refused_then_admitted numbered numbered-IsPlain 7 8 9 200 300 one_running one_running-Holds refl
      refl
