-- ===== src/Ffi.antt =====
-- The C interface of the shim: error slot, panic boundary, server handle and embedded endpoints of
-- shim/src/lib.rs.
pub mod LastError
pub mod Boundary
pub mod Server
pub mod Embedded
pub mod Names
pub mod Tenants
pub mod Databases
pub mod Collections
pub mod Status
pub mod Records
pub mod Requests
pub mod RecordEndpoints
pub mod Counting
pub mod CreateCollection
pub mod EmbeddedHandle
