-- ===== src/Orders/Guard.antt =====
-- The pending-order guard of kis_trend_atr_trading/engine/order_synchronizer.py: a cache for the whole
-- process, in front of the table `order_state`. Times are readings of the monotonic clock, each passed
-- in where the code takes it; a time to live of zero stands for those of zero or less.
pub mod Answers
use kis_api_trend_atr.Base.{
  ℕ, ◌+◌, Bool, true, false, ◌||◌, not, Option, none, some, List, [], ◌∷◌, map, if◌then◌else◌, ltb,
  leb,
}
use kis_api_trend_atr.Base.Eq.{◌==◌, pair_keyed}
use kis_api_trend_atr.Base.Dict.{Dict, lookup, insert, erase}
use kis_api_trend_atr.Base.Text.{Text, codes, strip, upper, zfill, text_keyed}
use kis_api_trend_atr.Orders.{
  OrderStatus, clear_status, no_db_memory_only, unknown_status, is_open, GuardState, open_state,
  clear_state, unknown_state, allow, block, unknown_block, shared_memory, unknown_source, db_source,
  PendingOrderGuardSnapshot, should_block_entry, PendingEntry, GuardKey, GuardStore, GuardReply,
  GuardTimes, query_failed, answered, Database,
}

unfoldable pub normalize_guard_symbol : Text → Text
normalize_guard_symbol stock_code = zfill 6 (strip stock_code)

unfoldable pub normalize_guard_side : Text → Text
normalize_guard_side side = upper (strip side)

-- `_guard_state_key`, without the database and the mode
unfoldable pub guard_state_key : Text → Text → GuardKey
guard_state_key stock_code side = (normalize_guard_symbol stock_code, normalize_guard_side side)

abbrev pub is_empty : Text → Bool
is_empty [] = true
is_empty (c ∷ s) = false

-- `_update_shared_pending_state`, with the entry but for its expiry
unfoldable pub update_shared_pending_state :
    Text → Text → OrderStatus → GuardState → Bool → Option ℕ → Text → ℕ → GuardStore → GuardStore
update_shared_pending_state stock_code side status state has_open_order ttl error now st =
    let symbol = normalize_guard_symbol stock_code in
    if is_empty symbol then st else record st {
      entries =
          insert (guard_state_key symbol (normalize_guard_side side))
            (record {
              state = state;
              has_open_order = has_open_order;
              status = status;
              expires_at = elim ttl [
                | none ↦ none
                | some t ↦ if ltb 0 t then some (now + t) else none
              ];
              error = error;
            })
            st.entries;
    }

-- An entry with no time to live never expires: the clock does not matter.
unfoldable pub apply_shared_pending_status : Text → Text → OrderStatus → GuardStore → GuardStore
apply_shared_pending_status stock_code side status st =
    update_shared_pending_state stock_code side status
      (if is_open status then open_state else clear_state) (is_open status) none [] 0 st

unfoldable pub is_expired : ℕ → PendingEntry → Bool
is_expired now e = elim e.expires_at [ none ↦ false | some t ↦ leb t now ]

-- The loop over the keys: an expired entry is dropped, the first open one is returned at once.
unfoldable pub scan :
    ℕ
    → List GuardKey
    → Dict GuardKey PendingEntry
    → Option PendingEntry
    → Dict GuardKey PendingEntry × Option PendingEntry
scan now [] d latest_closed = (d, latest_closed)
scan now (k ∷ keys) d latest_closed = elim (lookup k d) [
  | none ↦ scan now keys d latest_closed
  | some e ↦ elim (is_expired now e) [
    | true ↦ scan now keys (erase k d) latest_closed
    | false ↦ elim e.has_open_order [ true ↦ (d, some e) | false ↦ scan now keys d (some e) ]
  ]
]

-- the keys of a symbol, of any side
unfoldable pub keys_of_symbol : Text → Dict GuardKey PendingEntry → List GuardKey
keys_of_symbol symbol [] = []
keys_of_symbol symbol ((k, e) ∷ d) =
    let rest = keys_of_symbol symbol d in if k.0 == symbol then k ∷ rest else rest

unfoldable pub get_cached_pending_state :
    Text → Text → ℕ → GuardStore → GuardStore × Option PendingEntry
get_cached_pending_state stock_code side now st =
    let symbol = normalize_guard_symbol stock_code in
    let normalized_side = normalize_guard_side side in
    if is_empty symbol
    then (st, none)
    else let keys =
        if is_empty normalized_side
        then keys_of_symbol symbol st.entries
        else guard_state_key symbol normalized_side ∷ [] in
      let (d, found) = scan now keys st.entries none in (record st { entries = d }, found)

unfoldable pub record_pending_guard_unknown : Text → GuardStore → GuardStore
record_pending_guard_unknown error st = record st {
  unknown_count = st.unknown_count + 1;
  db_error_count = if is_empty error then st.db_error_count else st.db_error_count + 1;
  blocked_due_to_unknown = st.blocked_due_to_unknown + 1;
}

-- the answer from an entry of the cache
unfoldable pub cached_snapshot : Text → Text → PendingEntry → PendingOrderGuardSnapshot
cached_snapshot symbol side e = record {
  symbol = symbol;
  side = side;
  state = e.state;
  source = elim e.state [ unknown_state ↦ unknown_source | _ ↦ shared_memory ];
  decision = elim e.state [
    | unknown_state ↦ unknown_block
    | _ ↦ if e.has_open_order then block else allow
  ];
  status = e.status;
  error = e.error;
  cache_hit = true;
}

unfoldable pub count_if_unknown : PendingEntry → GuardStore → GuardStore
unfolding record_pending_guard_unknown
count_if_unknown e st = elim e.state [ unknown_state ↦ record_pending_guard_unknown [] st | _ ↦ st ]

-- the answer of the database, cached for a while
unfoldable pub from_database :
    GuardTimes → Text → Text → GuardReply → ℕ → GuardStore → GuardStore × PendingOrderGuardSnapshot
from_database times symbol side (query_failed error) now st = (
  record_pending_guard_unknown error (
      update_shared_pending_state symbol side unknown_status unknown_state false
        (some times.error_backoff) error now st),
  record {
    symbol = symbol;
    side = side;
    state = unknown_state;
    source = unknown_source;
    decision = unknown_block;
    status = unknown_status;
    error = error;
    cache_hit = false;
  },
)
from_database times symbol side (answered row) now st =
    let has_open_order : Bool = elim row [ none ↦ false | some s ↦ true ] in
    let status : OrderStatus = elim row [ none ↦ clear_status | some s ↦ s ] in
    let state = if has_open_order then open_state else clear_state in
    (
      update_shared_pending_state symbol side status state has_open_order (some times.db_ttl) [] now
          st,
      record {
        symbol = symbol;
        side = side;
        state = state;
        source = db_source;
        decision = if has_open_order then block else allow;
        status = status;
        error = [];
        cache_hit = false;
      },
    )

unfoldable pub memory_only : Text → Text → PendingOrderGuardSnapshot
memory_only symbol side = record {
  symbol = symbol;
  side = side;
  state = clear_state;
  source = shared_memory;
  decision = allow;
  status = no_db_memory_only;
  error = [];
  cache_hit = true;
}

-- The answer for what the cache gave; `later` is the clock when the database has answered.
unfoldable pub answer_from :
    {D : Type 0}
    → Database D
    → D
    → GuardTimes
    → Text
    → Text
    → ℕ
    → GuardStore × Option PendingEntry
    → GuardStore × PendingOrderGuardSnapshot
answer_from db d times symbol side later (st, some e) =
    (count_if_unknown e st, cached_snapshot symbol side e)
answer_from db d times symbol side later (st, none) =
    if not db.present || not db.enabled
    then (st, memory_only symbol side)
    else from_database times symbol side (db.open_status symbol side d) later st

unfoldable pub get_pending_order_guard_state :
    {D : Type 0}
    → Database D
    → D
    → GuardTimes
    → Text
    → Text
    → ℕ
    → ℕ
    → GuardStore
    → GuardStore × PendingOrderGuardSnapshot
get_pending_order_guard_state db d times stock_code side now later st =
    let symbol = normalize_guard_symbol stock_code in
    let normalized_side = normalize_guard_side side in
    answer_from db d times symbol normalized_side later
      (get_cached_pending_state symbol normalized_side now st)

unfoldable pub has_open_order_for_symbol :
    {D : Type 0}
    → Database D
    → D
    → GuardTimes
    → Text
    → Text
    → ℕ
    → ℕ
    → GuardStore
    → GuardStore × Bool
has_open_order_for_symbol db d times stock_code side now later st =
    let (st', snapshot) = get_pending_order_guard_state db d times stock_code side now later st in
    (st', should_block_entry snapshot)
