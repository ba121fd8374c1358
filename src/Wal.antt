-- ===== src/Wal.antt =====
-- Pruning of the write-ahead log (the `embeddings_queue` table): shim/src/lib.rs, the
-- `WalPrune...` types and the `wal_prune_...` and `run_explicit_wal_prune` functions.
pub mod Policy
pub mod Prefix
pub mod Prune
pub mod Run
pub mod Targets
pub mod Endpoint
