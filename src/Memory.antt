-- ===== src/Memory.antt =====
-- The memory layer (wallet-sdk/src/memory): entries, their order, and the local activity log.
pub mod Entry
pub mod Sort
pub mod ActivityLog
