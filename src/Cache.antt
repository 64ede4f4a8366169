-- ===== src/Cache.antt =====
-- services/cacheregistry: which workers hold which blocks of a prompt in their caches.
mod Runes
pub mod Blocks
pub mod Index
pub mod Service
