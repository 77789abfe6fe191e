-- ===== src/Tests/OrdersExamples.antt =====
-- Examples and tests of the modules under Orders: a broker that fills each buy and loses each sale, a
-- table as a dict, and SHA-256 replaced by the text itself.
use kis_api_trend_atr.Base.{
  ℕ, suc, ◌≡◌, ◌↔◌, ◌≢◌, refl, true, false, ◌&&◌, none, some, List, [], ◌∷◌, ◌⊎◌, if◌then◌else◌,
  arith,
}
use kis_api_trend_atr.Base.Eq.{◌==◌, pair_keyed}
use kis_api_trend_atr.Base.Dict.{Dict, lookup, insert, lookup-insert}
use kis_api_trend_atr.Base.Int.{ℤ, pos, pos_part}
use kis_api_trend_atr.Base.Floats.{int_floats}
use kis_api_trend_atr.Base.Text.{Text, codes, strip, upper, zfill, decimal, text_keyed, text_beq}
use kis_api_trend_atr.Session.{clock}
use kis_api_trend_atr.Orders.{
  filled, partial, is_open, OrderRow, Database, query_failed, answered, PendingEntry, unknown_state,
  place_raised, accepted, Broker, exec_filled, wait_raised, replied, should_block_entry,
  success_result, SynchronizedOrderResult, returned, Synchronizer, Service, BuyOrder, SellOrder,
  Clocks,
}
use kis_api_trend_atr.Orders.Guard.{
  normalize_guard_symbol, normalize_guard_side, guard_state_key, get_pending_order_guard_state,
  scan, get_cached_pending_state, answer_from, from_database, memory_only,
}
use kis_api_trend_atr.Orders.Guard.Answers.{IsSpelled, live, guard_blocks_iff}
use kis_api_trend_atr.Orders.Steps.{
  upsert_order_state, get_order_state, note_reply, send, get_holding_snapshot, raw_key,
}
use kis_api_trend_atr.Orders.Execute.{
  wait_request, buy_order, sell_order, executed, conclude, after_wait, after_sent, run_order,
  unless_taken, run_once, execute_buy_order, execute_sell_order, recover_pending_orders,
}
use kis_api_trend_atr.Orders.Execute.Calls.{Call, buy, sell, recover, run}
use kis_api_trend_atr.Orders.Execute.Ahead.{IsWrittenAhead, run-IsWrittenAhead}
use kis_api_trend_atr.Orders.Execute.Once.{IsTable, status_of, times_placed, filled_once}
use kis_api_trend_atr.Orders.Execute.Outcome.{outcome}
use kis_api_trend_atr.Orders.Execute.After.{bought_once, open_buy_blocks}
use kis_api_trend_atr.Orders.Execute.Sends.{buy_sends, is_free, admits_buy}
use kis_api_trend_atr.Orders.Execute.Retry.{market_admits, sale_sends}
use kis_api_trend_atr.Orders.Execute.Recovered.{recovered_blocked}

abbrev code : Text
code = codes "005930"

abbrev Table : Type 0
Table = Dict Text OrderRow

open_rows_of : Table → List OrderRow
open_rows_of [] = []
open_rows_of ((k, row) ∷ d) =
    let rest = open_rows_of d in if is_open row.status then row ∷ rest else rest

abbrev dict_table : Database Table
dict_table = record {
  present = true;
  enabled = true;
  upsert = λ row d. insert row.idempotency_key row d;
  find = λ k d. lookup k d;
  open_status = λ symbol side d. answered none;
  close_stale = λ d. d;
  open_rows = open_rows_of;
}

dict_table-upserted :
    (row : OrderRow) (d : Table) (k : Text)
    → status_of (lookup k (insert row.idempotency_key row d))
      ≡ (if row.idempotency_key == k then some row.status else status_of (lookup k d))
dict_table-upserted row d k = ground (arith, lookup-insert row.idempotency_key k row d)

dict_table-IsTable : IsTable dict_table
dict_table-IsTable = record { in_use = refl; upserted = dict_table-upserted; cleaned = λ d k e. e }

-- a table whose queries fail
abbrev broken_table : Database Table
broken_table = record dict_table { open_status = λ symbol side d. query_failed (codes "timeout") }

abbrev filling : Broker ℤ ℕ
filling = record {
  place_buy_order = λ r w. (suc w, accepted (codes "1") []);
  place_sell_order = λ r w. (suc w, place_raised);
  wait_for_execution = λ r w. (
    w,
    replied (record {
      status = exec_filled;
      exec_qty = r.expected_qty;
      exec_price = pos 70000;
      fills = [];
    }),
  );
  get_holdings = λ w. (w, some []);
}

abbrev hanging : Broker ℤ ℕ
hanging = record filling { wait_for_execution = λ r w. (w, wait_raised) }

abbrev service_of : Broker ℤ ℕ → Database Table → Service ℤ Table ℕ
service_of broker table = record {
  broker = broker;
  database = table;
  digest = λ t. t;
  round_price = pos_part;
  mode = codes "PAPER";
  execution_timeout = 30;
  times = record { db_ttl = 5; error_backoff = 10 };
}

abbrev service : Service ℤ Table ℕ
service = service_of filling dict_table

abbrev start : Synchronizer Table ℕ
start = record {
  store = record {
    entries = [];
    unknown_count = 0;
    db_error_count = 0;
    blocked_due_to_unknown = 0;
  };
  db = [];
  world = 0;
  events = [];
}

abbrev monday : Clocks
monday = record {
  check_time = record { date = 739314; time = clock 10 0 };
  asked_at = 100;
  answered_at = 101;
  minute_stamp = codes "202503101000";
}

abbrev ten : BuyOrder ℤ
ten = record {
  stock_code = code;
  quantity = 10;
  signal_id = codes "s1";
  skip_market_check = true;
  price = pos 0;
  order_type = codes "01";
}

abbrev sale : SellOrder
sale = record {
  stock_code = code;
  quantity = 10;
  signal_id = codes "s2";
  skip_market_check = true;
  is_emergency = false;
}

code-IsSpelled : IsSpelled code (codes "BUY")
unfolding normalize_guard_symbol normalize_guard_side strip upper zfill
code-IsSpelled = record { code_kept = refl; side_kept = refl; has_side = refl }

abbrev calls : List (Call ℤ)
calls = buy ten monday ∷ sell sale monday ∷ recover ∷ []

run-IsWrittenAhead_example : IsWrittenAhead (run service calls start).events
unfolding IsWrittenAhead
run-IsWrittenAhead_example = run-IsWrittenAhead service dict_table-IsTable calls start tt

buy_sends_example :
    let k = (buy_order service ten monday).idempotency_key in
    let s' = (execute_buy_order service ten monday start).0 in
    (admits_buy service ten monday start ≡ true
      → times_placed k s'.events ≡ suc (times_placed k start.events))
    × (admits_buy service ten monday start ≡ false
        → (s'.events ≡ start.events) × (s'.db ≡ start.db) × (s'.world ≡ start.world))
buy_sends_example = buy_sends service ten monday start

sale_sends_example :
    let k = (sell_order service sale monday).idempotency_key in
    let s' = (execute_sell_order service sale monday start).0 in
    let admitted = market_admits sale monday && is_free service k start in
    (admitted ≡ true → times_placed k s'.events ≡ suc (times_placed k start.events))
    × (admitted ≡ false
        → (s'.events ≡ start.events) × (s'.db ≡ start.db) × (s'.world ≡ start.world))
sale_sends_example = sale_sends service sale monday start

abbrev bought : SynchronizedOrderResult ℤ
bought = record {
  success = true;
  result_type = success_result;
  order_no = codes "1";
  exec_qty = 10;
  exec_price = pos 70000;
  fills = [];
}

ten-bought : (execute_buy_order service ten monday start).1 ≡ returned bought
unfolding execute_buy_order get_pending_order_guard_state answer_from from_database memory_only
    get_cached_pending_state scan normalize_guard_symbol normalize_guard_side guard_state_key zfill
    strip upper run_once unless_taken run_order after_sent after_wait conclude executed send
    note_reply get_order_state get_holding_snapshot upsert_order_state lookup wait_request buy_order
ten-bought = refl

bought_once_example :
    let k = (buy_order service ten monday).idempotency_key in
    let s' = (execute_buy_order service ten monday start).0 in
    times_placed k (run service calls s').events ≡ times_placed k s'.events
bought_once_example =
    bought_once service ten monday start calls bought dict_table-IsTable ten-bought refl

abbrev filled_row : OrderRow
filled_row = record {
  idempotency_key = codes "k";
  signal_id = codes "s1";
  symbol = code;
  side = codes "BUY";
  requested_qty = 10;
  filled_qty = 10;
  remaining_qty = 0;
  order_no = codes "1";
  status = filled;
}

abbrev with_row : OrderRow → Synchronizer Table ℕ
with_row row = record start { db = (row.idempotency_key, row) ∷ [] }

filled_once_example :
    (status_of (lookup (codes "k") (run service calls (with_row filled_row)).db) ≡ some filled)
    × (times_placed (codes "k") (run service calls (with_row filled_row)).events
        ≡ times_placed (codes "k") (with_row filled_row).events)
unfolding lookup text_beq
filled_once_example =
    filled_once service dict_table-IsTable calls (codes "k") (with_row filled_row) refl

abbrev hung : Synchronizer Table ℕ
hung = (execute_buy_order (service_of hanging dict_table) ten monday start).0

ten-hung :
    is_open (outcome (execute_buy_order (service_of hanging dict_table) ten monday start).1) ≡ true
unfolding outcome execute_buy_order get_pending_order_guard_state answer_from from_database
    memory_only get_cached_pending_state scan normalize_guard_symbol normalize_guard_side
    guard_state_key zfill strip upper run_once unless_taken run_order after_sent after_wait conclude
    executed send note_reply get_order_state get_holding_snapshot upsert_order_state lookup raw_key
    decimal
ten-hung = refl

open_buy_blocks_example :
    let s'' =
      (execute_buy_order
        (service_of hanging dict_table)
        (record ten { quantity = 3 })
        monday
        hung).0 in
    (s''.events ≡ hung.events) × (s''.db ≡ hung.db) × (s''.world ≡ hung.world)
open_buy_blocks_example =
    open_buy_blocks (service_of hanging dict_table) ten (record ten { quantity = 3 }) monday monday
      start code-IsSpelled.code_kept refl ten-hung

guard_blocks_iff_example :
    let times = service.times in
    (should_block_entry
        (get_pending_order_guard_state broken_table [] times code
          (codes "BUY")
          100
          101
          start.store).1
      ≡ true)
    ↔ (((e : PendingEntry) × (live 100 (code, codes "BUY") start.store ≡ some e)
          × ((e.state ≡ unknown_state) ⊎ (e.has_open_order ≡ true)))
        ⊎ ((live 100 (code, codes "BUY") start.store ≡ none)
            × ((broken_table.present && broken_table.enabled) ≡ true)
            × (broken_table.open_status code (codes "BUY") [] ≢ answered none)))
guard_blocks_iff_example =
    guard_blocks_iff code-IsSpelled broken_table [] service.times 100 101 start.store

abbrev open_row : OrderRow
open_row = record filled_row { status = partial }

recovered_blocked_example :
    should_block_entry
      (get_pending_order_guard_state dict_table [] service.times code
        (codes "BUY")
        100
        101
        (recover_pending_orders service (with_row open_row)).0.store).1
    ≡ true
unfolding recover_pending_orders open_rows_of
recovered_blocked_example =
    recovered_blocked service (with_row open_row) [] open_row [] [] service.times 100 101 refl
      (record { spelled = code-IsSpelled; still_open = refl }, tt)
