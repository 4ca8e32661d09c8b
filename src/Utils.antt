-- ===== src/Utils.antt =====
-- src/utils.rs: helpers that the other parts use.
pub mod BinSearch
pub mod IgnorePatterns
pub mod Addr
pub mod Systemd
pub mod Copy
