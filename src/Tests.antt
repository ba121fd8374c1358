-- ===== src/Tests.antt =====
-- The theorems at concrete inputs, on small stores and file systems.
mod Prefixes
mod Pruning
mod Compacting
mod Listing
mod PruningAll
mod Swapping
mod Rebuilding
mod RebuildRun
mod Interface
