-- ===== src/Tests.antt =====
-- Examples: each theorem with a hypothesis, applied where the hypotheses hold.
mod RuntimeExamples
mod SessionExamples
mod IntentsExamples
mod RiskExamples
mod PositionsExamples
mod HealthExamples
mod OrdersExamples
mod TradingExamples
mod SchedulerExamples
mod StoresExamples
mod LockExamples
mod VirtualExamples
mod ResyncExamples
mod SavedExamples
mod PricesExamples
mod ExecutorExamples
mod BuyExamples
