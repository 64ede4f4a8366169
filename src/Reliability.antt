-- ===== src/Reliability.antt =====
-- services/gateway/reliability: circuit breakers, the retry budget, the classification of errors,
-- and failover over ranked workers.
pub mod Breaker
pub mod Budget
pub mod Classify
pub mod Failover
pub mod Samples
