-- ===== src/Executor.antt =====
-- Parts of MultidayExecutor (kis_trend_atr_trading/engine/multiday_executor.py): the exit that waits for
-- another try, the permission of new entries, and a buy up to its order.
pub mod PendingExit
pub mod Entry
pub mod OrderPlan
pub mod Validation
pub mod Buy
