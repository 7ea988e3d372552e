-- ===== src/Daemon.antt =====
-- crates/daemon: the local daemon.
pub mod Security
pub mod Wal
pub mod SnapshotFile
pub mod Sample
pub mod Outbox
pub mod Lease
pub mod GitLeader
pub mod Debounce
pub mod Triggers
pub mod Recovery
