-- ===== src/Intents.antt =====
-- `EntryIntentQueue` of kis_trend_atr_trading/engine/pullback_pipeline_stores.py: the queue of entry
-- intents between the strategies' threads and the order thread. Each critical section is one function:
-- `put_if_absent` is `admit` and then, in Intents.Put, `advance`. The standard library's PriorityQueue is a
-- sorted list; the sequence numbers make all priorities different. A `set` is a list in which a key stands
-- once.
pub mod Put
pub mod Counts
pub mod Invariant
pub mod Admission
pub mod Numbers
pub mod Precedence
pub mod Order
use kis_api_trend_atr.Base.{
  ℕ, zero, suc, ◌+◌, ◌-◌, ◌≤◌, Bool, true, false, not, ◌&&◌, ◌||◌, Option, none, some, List, [],
  ◌∷◌, ◌++◌, map, if◌then◌else◌, ltb, leb, eqb, length,
}
use kis_api_trend_atr.Base.Eq.{◌==◌}
use kis_api_trend_atr.Base.Int.{ℤ, at_least}
use kis_api_trend_atr.Base.Dict.{Dict, lookup, insert, erase}
use kis_api_trend_atr.Base.Text.{Text, codes, strip, lower, zfill, text_keyed}

-- An intent: `created_at` is `none` where it is no datetime.
pub record Intent : Type 0 where
  pub strategy_tag : Text
  pub symbol : Text
  pub created_at : Option ℕ

-- `f"{strategy_tag}:{symbol}"`
abbrev pub intent_key : Intent → Text
intent_key i = i.strategy_tag ++ b':' ∷ i.symbol

abbrev pub code_of : Text → Text
code_of symbol = zfill 6 symbol

-- `((created_at, rank), seq, intent)`
pub record Entry : Type 0 where
  pub created_at : Option ℕ
  pub rank : ℕ
  pub seq : ℕ
  pub intent : Intent

pub data RejectReason : Type 0 where
  nothing duplicate pending_symbol_cap queue_full : RejectReason

pub record IntentQueue : Type 0 where
  pub maxsize : ℕ
  pub authoritative : Bool
  pub drops_oldest : Bool
  pub max_pending_per_symbol : ℕ
  pub queue : List Entry
  pub unfinished : ℕ
  pub active_keys : List Text
  pub active_symbol_counts : Dict Text ℕ
  pub enqueue_seq : ℕ
  pub mixed_strategy_tiebreak_count : ℕ
  pub dropped_count : ℕ
  pub last_reject_reason : RejectReason

-- `__init__`; of the drop policies the code tests for "drop_oldest" alone
unfoldable pub init : ℤ → Bool → Text → ℤ → IntentQueue
init maxsize authoritative drop_policy max_pending = record {
  maxsize = at_least 1 maxsize;
  authoritative = authoritative;
  drops_oldest = lower (strip drop_policy) == codes "drop_oldest";
  max_pending_per_symbol = at_least 0 max_pending;
  queue = [];
  unfinished = 0;
  active_keys = [];
  active_symbol_counts = [];
  enqueue_seq = 0;
  mixed_strategy_tiebreak_count = 0;
  dropped_count = 0;
  last_reject_reason = nothing;
}

unfoldable pub strategy_rank : Text → ℕ
strategy_rank tag =
    let t = strip tag in
    if t == codes "pullback_rebreakout"
    then 0
    else if t == codes "trend_atr"
    then 1
    else if t == codes "opening_range_breakout"
    then 2
    else 99

-- `none` is `datetime.max`
abbrev pub is_before : Option ℕ → Option ℕ → Bool
is_before none _ = false
is_before (some a) none = true
is_before (some a) (some b) = ltb a b

-- the order of the tuples
pub comes_first : Entry → Entry → Bool
comes_first e f =
    is_before e.created_at f.created_at
    || (not (is_before f.created_at e.created_at)
        && (ltb e.rank f.rank || (eqb e.rank f.rank && ltb e.seq f.seq)))

pub enqueue : Entry → List Entry → List Entry
unfolding comes_first
enqueue e [] = e ∷ []
enqueue e (f ∷ q) = if comes_first e f then e ∷ f ∷ q else f ∷ enqueue e q

abbrev pub is_member : Text → List Text → Bool
is_member k [] = false
is_member k (j ∷ ks) = j == k || is_member k ks

pub discard : Text → List Text → List Text
discard k [] = []
discard k (j ∷ ks) = let rest = discard k ks in if j == k then rest else j ∷ rest

-- `key.partition(":")`, without the separator
pub partition : Text → Text × Text
partition [] = ([], [])
partition (c ∷ s) =
    let (before, after) = partition s in if eqb c b':' then ([], s) else (c ∷ before, after)

pub has_other_strategy : List Text → Text → Text → Bool
unfolding partition
has_other_strategy [] symbol tag = false
has_other_strategy (k ∷ ks) symbol tag =
    let (active_tag, active_symbol) = partition k in
    (active_symbol == code_of symbol && not (active_tag == strip tag))
    || has_other_strategy ks symbol tag

unfoldable pub symbol_count : Dict Text ℕ → Text → ℕ
symbol_count counts symbol = elim (lookup (code_of symbol) counts) [ none ↦ 0 | some n ↦ n ]

unfoldable pub inc_symbol_count : Dict Text ℕ → Text → Dict Text ℕ
unfolding symbol_count
inc_symbol_count counts symbol =
    insert (code_of symbol) (symbol_count counts (code_of symbol) + 1) counts

pub dec_symbol_count : Dict Text ℕ → Text → Dict Text ℕ
unfolding symbol_count
dec_symbol_count counts symbol =
    let count = symbol_count counts (code_of symbol) - 1 in
    if eqb count 0 then erase (code_of symbol) counts else insert (code_of symbol) count counts

-- `_remove_active_intent_locked`
pub remove_active : IntentQueue → Intent → IntentQueue
unfolding discard
remove_active q i = record q {
  active_keys = discard (intent_key i) q.active_keys;
  active_symbol_counts = dec_symbol_count q.active_symbol_counts i.symbol;
}

-- `_drop_oldest_locked`; with `task_done` for the dropped entry
pub drop_oldest : IntentQueue → IntentQueue × Bool
unfolding remove_active
drop_oldest q = elim (q.authoritative || not q.drops_oldest) [
  | true ↦ (q, false)
  | false ↦ elim q.queue [
    | [] ↦ (q, false)
    | e ∷ rest ↦ (
      record (remove_active q e.intent) {
        queue = rest;
        unfinished = q.unfinished - 1;
        dropped_count = q.dropped_count + 1;
      },
      true,
    )
  ]
]

-- `put_nowait`: `none` is `queue.Full`
unfoldable pub put_nowait : IntentQueue → Entry → Option IntentQueue
unfolding enqueue
put_nowait q e =
    if leb q.maxsize (length q.queue)
    then none
    else some (record q { queue = enqueue e q.queue; unfinished = q.unfinished + 1 })

-- The first critical section, past the two refusals: the key is reserved.
unfoldable pub reserve : IntentQueue → Intent → IntentQueue
unfolding has_other_strategy
reserve q i = record q {
  mixed_strategy_tiebreak_count =
      if has_other_strategy q.active_keys i.symbol i.strategy_tag
      then q.mixed_strategy_tiebreak_count + 1
      else q.mixed_strategy_tiebreak_count;
  active_keys = intent_key i ∷ q.active_keys;
  active_symbol_counts = inc_symbol_count q.active_symbol_counts i.symbol;
  enqueue_seq = q.enqueue_seq + 1;
}

-- the reservation is given back
pub give_back : IntentQueue → Intent → IntentQueue
unfolding remove_active
give_back q i = record (remove_active q i) { last_reject_reason = queue_full }

unfoldable pub entry_of : ℕ → Intent → Entry
entry_of seq i = record {
  created_at = i.created_at;
  rank = strategy_rank i.strategy_tag;
  seq = seq;
  intent = i;
}

-- the cap on one symbol's intents is reached
unfoldable pub at_cap : IntentQueue → Intent → Bool
at_cap q i =
    ltb 0 q.max_pending_per_symbol
    && leb q.max_pending_per_symbol (symbol_count q.active_symbol_counts i.symbol)

-- The first critical section: a refusal, or the number under which the intent goes into the queue.
unfoldable pub admit : IntentQueue → Intent → IntentQueue × Option ℕ
admit q i =
    if is_member (intent_key i) q.active_keys
    then (record q { last_reject_reason = duplicate }, none)
    else if at_cap q i
    then (record q { last_reject_reason = pending_symbol_cap }, none)
    else (reserve q i, some (reserve q i).enqueue_seq)

-- `get`, where an entry is there; the wait with its timeout is the caller's
unfoldable pub get : IntentQueue → Option (Intent × IntentQueue)
get q = elim q.queue [ [] ↦ none | e ∷ rest ↦ some (e.intent, record q { queue = rest }) ]

-- `task_done`; at no unfinished entry it raises a ValueError, which the flag reports
pub task_done : IntentQueue → IntentQueue × Bool
task_done q =
    if eqb q.unfinished 0 then (q, true) else (record q { unfinished = q.unfinished - 1 }, false)

-- `complete`: a critical section, and `task_done` after it
pub complete : IntentQueue → Intent → IntentQueue × Bool
unfolding task_done
complete q i = task_done (remove_active q i)
