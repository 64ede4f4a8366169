-- ===== src/Routing.antt =====
-- services/routing: the in-flight counters, the holders of the latest snapshot and policy, and the
-- publisher and the subscribers.
pub mod Inflight
pub mod Holder
pub mod Snapshot
pub mod Policy
pub mod Capabilities
pub mod Publisher
pub mod Subscriber
