-- ===== src/Scheduler.antt =====
-- services/scheduler: which workers may serve a request, and in which order.
pub mod Types
pub mod Models
pub mod Filters
pub mod Chain
pub mod Snapshot
pub mod Affinity
pub mod Scorers
pub mod Configured
pub mod Latency
