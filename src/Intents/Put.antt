-- ===== src/Intents/Put.antt =====
-- `put_if_absent` of EntryIntentQueue (kis_trend_atr_trading/engine/pullback_pipeline_stores.py) by its
-- critical sections, between which the lock is free.
use kis_api_trend_atr.Base.{ℕ, Bool, true, false, Option, none, some, if◌then◌else◌}
use kis_api_trend_atr.Intents.{
  Intent, IntentQueue, nothing, entry_of, put_nowait, drop_oldest, give_back,
}

-- where a call stands, past the first critical section
pub data Phase : Type 0 where
  first_try found_full second_try still_full entered : Phase

-- a call under way, with the number that its intent was given
pub record Putting : Type 0 where
  pub intent : Intent
  pub seq : ℕ
  pub phase : Phase

pub data Progress : Type 0 where
  goes_on : Phase → Progress
  returns : Bool → Progress

-- `put_nowait` of the call's entry, with where the call stands if the queue is full
unfoldable pub try_put : Phase → IntentQueue → Option IntentQueue → IntentQueue × Progress
try_put if_full q none = (q, goes_on if_full)
try_put if_full q (some q') = (q', goes_on entered)

-- The next access of a call to the shared state.
unfoldable pub advance : Phase → Intent → ℕ → IntentQueue → IntentQueue × Progress
unfolding try_put entry_of
advance first_try i seq q = try_put found_full q (put_nowait q (entry_of seq i))
advance found_full i seq q =
    let (dropped, ok) = drop_oldest q in
    if ok then (dropped, goes_on second_try) else (give_back q i, returns false)
advance second_try i seq q = try_put still_full q (put_nowait q (entry_of seq i))
advance still_full i seq q = (give_back q i, returns false)
advance entered i seq q = (record q { last_reject_reason = nothing }, returns true)
