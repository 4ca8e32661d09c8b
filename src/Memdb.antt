-- ===== src/Memdb.antt =====
-- src/memdb: the database file of one SDK, and the stash of files.
pub mod Types
pub mod Read
pub mod Lookup
pub mod Stash
pub mod Write
