-- ===== src/Ffi/Server/Config.antt =====
-- What the resolution of the storage paths does to a configuration.
use chroma_go_local.Base.{◌≡◌, none, some, arith, unwrap_or}
use chroma_go_local.Ffi.Server.{
  FrontendServerConfig, SqliteDbConfig, LocalSegmentManagerConfig, resolve_storage_paths,
  get_or_insert, join_path, fill_paths,
}

-- A second resolution changes nothing. The first one fills in the paths only where both the
-- SQLite and the segment section are there, keeps every path that was given, and touches nothing
-- else: no other field, and nothing else of the two sections.
pub resolve_storage_paths_lem :
    {A B C : Type 0} (c : FrontendServerConfig A B C)
    → let d = resolve_storage_paths c in
      (resolve_storage_paths d ≡ d)
      × (d.port ≡ c.port)
      × (d.listen_address ≡ c.listen_address)
      × (d.persist_path ≡ c.persist_path)
      × (d.sqlite_filename ≡ c.sqlite_filename)
      × (d.rest ≡ c.rest)
      × ((sql : SqliteDbConfig A) (seg : LocalSegmentManagerConfig B)
          → c.sqlitedb ≡ some sql
          → c.segment_manager ≡ some seg
          → (d.sqlitedb
              ≡ some (record {
                url = some (unwrap_or sql.url (join_path c.persist_path c.sqlite_filename));
                rest = sql.rest;
              }))
            × (d.segment_manager
                ≡ some (record {
                  persist_path = some (unwrap_or seg.persist_path c.persist_path);
                  rest = seg.rest;
                })))
      × (c.sqlitedb ≡ none → d ≡ c)
      × (c.segment_manager ≡ none → d ≡ c)
unfolding resolve_storage_paths fill_paths get_or_insert
resolve_storage_paths_lem c = (
  ground arith,
  ground arith,
  ground arith,
  ground arith,
  ground arith,
  ground arith,
  λ sql seg a b. (ground arith, ground arith),
  λ e. ground arith,
  λ e. ground arith,
)
