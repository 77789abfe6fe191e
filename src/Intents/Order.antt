-- ===== src/Intents/Order.antt =====
-- The queue hands out the earliest intent (kis_trend_atr_trading/engine/pullback_pipeline_stores.py).
use kis_api_trend_atr.Base.{◌≡◌, ◌∷◌, All}
use kis_api_trend_atr.Base.Text.{Text, text_keyed}
use kis_api_trend_atr.Intents.{Intent, Entry, IntentQueue}
use kis_api_trend_atr.Intents.Precedence.{IsSorted, IsMade, Precedes}

-- What holds of the list at every time.
pub record IsInOrder (q : IntentQueue) : Type 0 where
  pub sorted : IsSorted q.queue
  pub made : All IsMade q.queue

-- What `get` returns is in front of the queue, and comes before all that stays in it.
pub record IsEarliest (q q' : IntentQueue) (i : Intent) : Type 0 where
  pub front : Entry
  pub is_front : q.queue ≡ front ∷ q'.queue
  pub intent : front.intent ≡ i
  pub before_all : All (λ (f : Entry). Precedes i front.seq f.intent f.seq) q'.queue
