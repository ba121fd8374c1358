-- ===== src/Lib.antt =====
-- The Rust shim of chroma-go-local (shim/src/lib.rs): the C interface through which the Go and Java
-- bindings run a Chroma server or an embedded Chroma, and the maintenance work behind it.
--
-- Parts and files. Every path is shim/src/lib.rs, every name the function's or type's own.
--
-- - Wal: explicit pruning of the write-ahead log. Wal.Policy has WalPrunePolicyPayload and
--   WalPruneExecutionOptions with their validation, Wal.Prefix the wal_prune_prefix functions,
--   which say how many of the oldest rows go, Wal.Prune the queries, Wal.Prune.Target one round of
--   the loop of run_explicit_wal_prune for one target, and Wal.Run the whole function: lookups,
--   migration of max_seq_id, auto purge setting, loop, VACUUM and response. Wal.Targets has
--   list_wal_prune_targets, and Wal.Endpoint chroma_embedded_prune_wal_collection and _all. Laws
--   are in Wal.Policy.Validity, Wal.Prefix.Age, Bytes and Count, Wal.Prune.Rows, Rounds, Targets
--   and Loop, Wal.Run.Safety and Reports, Wal.Targets.Pages, Kept and Complete, and
--   Wal.Endpoint.Safety and Complete.
-- - Compact: explicit compaction. Compact has run_explicit_compaction, the round of its loop for
--   one target included, and Compact.Endpoints the endpoints for one collection and for all of a
--   tenant, which list the targets with the loops of Wal.Targets. Laws: Compact.Rounds, Loop,
--   FailFast and Endpoints.Safety.
-- - Rebuild: rebuilding a vector index. Rebuild.IdMap has HnswIdMap, Rebuild.Reindex the copy loop
--   of run_rebuild_collection, Rebuild.Swap swap_rebuilt_index_dir_with_ops over the trait
--   SwapFsOps, Rebuild.Retry run_with_windows_fs_retry, Rebuild.TempDir TempRebuildDirGuard,
--   Rebuild.Host the response, the file helpers and StdSwapFsOps, Rebuild.Run the whole of
--   run_rebuild_collection, and Rebuild.Endpoint chroma_embedded_rebuild_collection. Laws:
--   Rebuild.IdMap.Bijection, Rebuild.IdMap.Loadable, Rebuild.Reindex.Rounds, Labels, Success,
--   Counted, Order and Valid, Rebuild.Swap.Contents, the modules of Rebuild.Run (Precheck reads
--   only, Counts the response, Building, Paths, Kept, Ending and Outcome the fate of the old
--   index), and Rebuild.Endpoint.Safety.
-- - Ffi: the interface. Ffi.LastError has the error slot, Ffi.Boundary with_ffi_panic_boundary and
--   the conversions of strings and JSON, Ffi.Server the server's start, readers and stop,
--   Ffi.EmbeddedHandle the start of embedded mode and chroma_get_last_error, Ffi.Embedded the
--   bodies that the chroma_embedded functions share, and Ffi.Names, Requests, Tenants, Databases,
--   Collections, CreateCollection, RecordEndpoints, Counting, Records and Status those functions
--   with their payloads. Laws: Ffi.Server.Config and Lifecycle, Ffi.Embedded.Locking and Held,
--   Ffi.Records, Ffi.Counting, and Ffi.Embedded.Session, an abstract machine that the endpoints
--   with a request and one of the two shared bodies implement.
-- - Base: numbers, texts, lists, maps and the monads; Tests: the theorems at concrete inputs.
--
-- State. An async function of the maintenance code is an Action (Base.Actions): it takes the world
-- and gives a result and the world after it, also when it fails. The world is the parameter State
-- (Fs for the swap) of a record that holds the foreign calls: WalStore and WalHost for SQLite, the
-- log, the catalogue, the registry and the clock, Catalogue for the listings of the frontend,
-- Compactor for the compaction manager, RebuildHost for all that a rebuild calls, SwapFsOps for the
-- file system, HnswIndexes for the two indexes, Launcher for tokio and figment, whose spawn of the
-- server task may change the world. What is relied on of them is a record of laws: StoreLaws (ids
-- are i64, the candidate query filters by its cutoff), Keeps and HostKeeps (what a property of the
-- world survives), Lists and Compacts (the same for the listings and the compaction manager),
-- RebuildLaws (which calls of a rebuild leave which directories alone), FsLaws (what a rename and a
-- removal touch). A body of the interface is an Ffi: it may return early or panic, over a World
-- that has the error slot, the poison flag of the frontend's mutex and the frontend's state. A
-- handle or pointer argument is NULL or what it points to; the slot's mutex ignores its poisoning
-- in the source, so it is a plain value.
--
-- Numbers. u64, u32 and i64 are natural numbers or integers with the saturation, the clamps and the
-- checked additions of the source written out (Base.Words, Base.Int). The rounded product of a
-- count with a float is a parameter. Text is a list of code points. Loops over a list need no fuel.
-- The two page loops of list_wal_prune_targets, which the compaction of a tenant has too, run on
-- fuel: one more than the entries listed is enough. The decimal digits of a number are bounded by
-- twenty for a u64 and by thirty-nine for a u128, which is enough.
--
-- Not modelled: the attribute walk of the retry on Windows, which is file I/O; the closing of index
-- handles and the unwinding of a panic through the guard of a temporary directory; the freeing of
-- handles and strings, which is memory management; chroma_version, a static string; macros, logging
-- and the lines printed to stderr. The bindings, tests and benchmarks are outside.
pub mod Base
pub mod Wal
pub mod Compact
pub mod Rebuild
pub mod Ffi
pub mod Tests
