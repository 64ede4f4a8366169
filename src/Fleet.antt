-- ===== src/Fleet.antt =====
-- services/fleet: how many replicas of a model run.
pub mod Hysteresis
pub mod Policy
pub mod Manager
pub mod Scale
pub mod Reconcile
pub mod Lifecycle
