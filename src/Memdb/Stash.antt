-- ===== src/Memdb/Stash.antt =====
-- src/memdb/stash.rs: the local cache of SDK files, its synchronisation with the bucket, and what
-- the server asks of it.
pub mod State
pub mod Sync
pub mod Keyed
pub mod Saving
pub mod Sound
pub mod Syncing
pub mod SyncLoop
pub mod SyncLaws
pub mod Queries
pub mod StatusLaws
pub mod Fuzzy
pub mod FuzzyLaws
pub mod Stale
pub mod Serving
