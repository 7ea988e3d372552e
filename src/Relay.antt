-- ===== src/Relay.antt =====
-- crates/relay: the sync server. One child for each component.
pub mod DocSync
pub mod Sessions
pub mod Awareness
pub mod Roles
pub mod Handler
pub mod Heartbeat
pub mod DocManager
pub mod Sequencer
pub mod Leader
pub mod Snapshots
pub mod Idempotency
