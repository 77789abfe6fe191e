-- ===== src/Tests/HealthExamples.antt =====
-- Examples of the workers' health and the degraded mode.
use kis_api_trend_atr.Base.Floats.{int_floats}
