-- ===== src/Rebuild.antt =====
-- Rebuilding the vector index of a collection: shim/src/lib.rs, from `HnswIdMap` to
-- `format_swap_activation_error`.
pub mod Swap
pub mod Retry
pub mod TempDir
pub mod IdMap
pub mod Reindex
pub mod Host
pub mod Run
pub mod Endpoint
