-- ===== src/Analytics.antt =====
-- The executive analytics of src/services/executive_analytics: EVM metrics, the signals derived
-- from them, and the baselines and snapshots that they are computed from.
pub mod Decimal
pub mod Metrics
pub mod Signals
pub mod Performance
