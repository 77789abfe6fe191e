-- ===== src/Tests/BuyExamples.antt =====
-- The theorems on a buy of the executor at a concrete call: a pullback buy in REAL mode, whose snapshots
-- are fetched.
use kis_api_trend_atr.Base.{
  ℕ, ◌+◌, ◌*◌, ◌%◌, ◌≤◌, ◌<◌, ◌≡◌, refl, true, false, none, some, [], arith,
}
use kis_api_trend_atr.Base.Floats.{int_floats}
use kis_api_trend_atr.Base.Int.{ℤ, pos, pos_part}
use kis_api_trend_atr.Base.Text.{Text, codes, strip, lower, upper, text_beq}
use kis_api_trend_atr.Session.{clock}
use kis_api_trend_atr.Prices.{
  Price, whole, get_tick_size, tick_size, align_price_to_tick, is_etf, rounded,
}
use kis_api_trend_atr.Risk.{RiskManager, absent}
use kis_api_trend_atr.Orders.{answered, refused, wait_raised, Service}
use kis_api_trend_atr.Executor.OrderPlan.{
  PlanSettings, PlanMeta, PlanQuote, EntryPlan, build_entry_order_plan, is_protected_limit,
  limit_price, base_price, protect_ticks, working_price, breakout_cap, or_price, is_none,
}
use kis_api_trend_atr.Executor.OrderPlan.Limit.{build_entry_order_plan_limit}
use kis_api_trend_atr.Executor.Validation.{neutral}
use kis_api_trend_atr.Executor.Buy.{BuySettings, BuySignal, BuyReads, Buyer}

abbrev samsung : Text
samsung = codes "005930"

abbrev none_at_all : Price
none_at_all = whole 0

-- two ticks on top of the ask, and at most one per cent above the price
abbrev plan_settings : PlanSettings
plan_settings = record {
  entry_order_style = codes "protected_limit";
  protect_ticks_etf = pos 1;
  protect_ticks_stock = pos 2;
  enable_breakout_extension_cap = true;
  max_breakout_extension_etf = none_at_all;
  max_breakout_extension_stock = record { digits = 5; scale = 100 };
  max_slippage = record { digits = 1; scale = 100 };
}

abbrev meta : PlanMeta
meta = record {
  asset_type = codes "STOCK";
  prev_high = whole 69000;
  entry_reference_price = none_at_all;
  max_allowed_pct = none_at_all;
}

abbrev prices : PlanQuote
prices = record { current_price = whole 69950; best_ask = some (whole 70000) }

build_entry_order_plan_limit_example :
    let price = (build_entry_order_plan plan_settings meta prices).price in
    let base = base_price prices in
    let tick = get_tick_size base meta.asset_type in
    let least = base.digits + tick * protect_ticks plan_settings meta.asset_type * base.scale in
    (price % get_tick_size (whole price) meta.asset_type ≡ 0)
    × (least ≤ price * base.scale)
    × (price * base.scale
        < least
          + get_tick_size (working_price plan_settings meta.asset_type prices) meta.asset_type
            * base.scale)
    × (is_none plan_settings.max_slippage ≡ false
        → is_none prices.current_price ≡ false
        → price * (prices.current_price.scale * plan_settings.max_slippage.scale)
          ≤ prices.current_price.digits
            * (plan_settings.max_slippage.scale + plan_settings.max_slippage.digits))
    × (is_none (breakout_cap plan_settings meta) ≡ false
        → is_none (or_price meta.entry_reference_price meta.prev_high) ≡ false
        → price
            * ((or_price meta.entry_reference_price meta.prev_high).scale
                * (breakout_cap plan_settings meta).scale)
          ≤ (or_price meta.entry_reference_price meta.prev_high).digits
            * ((breakout_cap plan_settings meta).scale + (breakout_cap plan_settings meta).digits))
unfolding build_entry_order_plan is_protected_limit limit_price working_price align_price_to_tick
    get_tick_size tick_size is_etf protect_ticks breakout_cap rounded text_beq strip lower upper
build_entry_order_plan_limit_example =
    build_entry_order_plan_limit plan_settings meta prices (omega arith) refl refl

abbrev manager : RiskManager ℤ
manager = record {
  enabled = false;
  daily_max_loss_percent = pos 3;
  daily_pnl = record {
    date = 7;
    starting_capital = pos 1000000;
    realized_pnl = pos 0;
    trades_count = 0;
  };
  daily_limit_reached = false;
  max_api_errors = 2;
  api_error_reset = 600;
  api_error_count = 0;
  last_api_error_time = none;
  api_error_reasons = [];
  kill_switch_file = absent;
  alerts = [];
}

-- a table that keeps nothing and a broker that refuses
abbrev service : Service ℤ ℕ ℕ
service = record {
  broker = record {
    place_buy_order = λ r w. (w, refused);
    place_sell_order = λ r w. (w, refused);
    wait_for_execution = λ r w. (w, wait_raised);
    get_holdings = λ w. (w, some []);
  };
  database = record {
    present = true;
    enabled = true;
    upsert = λ row d. d;
    find = λ k d. none;
    open_status = λ symbol side d. answered none;
    close_stale = λ d. d;
    open_rows = λ d. [];
  };
  digest = λ t. t;
  round_price = pos_part;
  mode = codes "REAL";
  execution_timeout = 30;
  times = record { db_ttl = 5; error_backoff = 10 };
}

abbrev settings : BuySettings ℤ
settings = record {
  stock_code = samsung;
  order_quantity = 10;
  trading_mode = codes "REAL";
  pullback_block_if_pending_order = true;
  enable_stale_quote_guard = true;
  quote_max_age_sec = pos 3;
  validation = record {
    report_mode = codes "REAL";
    risk_snapshot_enabled = true;
    final_validation_mode = codes "light";
    account_ttl = 60;
    holdings_ttl = 30;
  };
  regime = record {
    filter_enabled = true;
    fail_open = false;
    bad_blocks = true;
    neutral_allows = true;
  };
  plan = plan_settings;
}

abbrev signal : BuySignal ℤ
signal = record {
  strategy_tag = codes "pullback_rebreakout";
  price = pos 69950;
  meta = meta;
  signal_id = codes "s1";
}

abbrev reads : BuyReads ℤ
reads = record {
  today = 7;
  guard_asked_at = 100;
  guard_answered_at = 101;
  api = record {
    now = 1000;
    account_now = 1001;
    holdings_at = 1000;
    account_at = 1001;
    holdings = some [];
    balance = some (record {
      success = true;
      total_eval = some (pos 900000);
      total_equity = none;
      cash_balance = some (pos 800000);
      cash = none;
      total_pnl = none;
    });
  };
  regime = some (record { regime = neutral; is_stale = false });
  quote = some (record {
    age = record {
      data_feed = codes "ws";
      source = codes "ws_tick";
      ws_connected = true;
      age_sec = some (pos 1);
    };
    prices = prices;
  });
  clocks = record {
    check_time = record { date = 739314; time = clock 10 0 };
    asked_at = 102;
    answered_at = 103;
    minute_stamp = codes "202503101000";
  };
}

abbrev buyer : Buyer ℤ ℕ ℕ
buyer = record {
  risk = manager;
  has_position = false;
  snapshots = none;
  synchronizer = record {
    store = record {
      entries = [];
      unknown_count = 0;
      db_error_count = 0;
      blocked_due_to_unknown = 0;
    };
    db = 0;
    world = 0;
    events = [];
  };
}

abbrev plan : EntryPlan
plan = record { blocked = false; order_type = codes "00"; price = 70200 }
