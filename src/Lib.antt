-- ===== src/Lib.antt =====
-- Scriptum: the sync server (crates/relay) and the local daemon (crates/daemon) of a collaborative
-- editor, and the protocol they share (crates/common).
--
-- A client opens a websocket session with the relay (Relay.Sessions, Relay.Handler, Relay.Heartbeat),
-- subscribes to documents, and sends and receives updates, which the relay numbers, keeps and
-- broadcasts (Relay.DocSync), together with the presence of the sessions (Relay.Awareness). Documents
-- are held in memory by Relay.DocManager. The daemon keeps the updates of a document in a log and a
-- snapshot file (Daemon.Wal, Daemon.SnapshotFile), encrypted at rest (Daemon.Security), queues updates
-- for the relay (Daemon.Outbox) and keeps the advisory leases of agents (Daemon.Lease). One daemon of a
-- workspace commits to git: it holds a lease of the relay (Relay.Leader, Daemon.GitLeader), and commits
-- when its triggers say so (Daemon.Triggers). Changes of files come through Daemon.Debounce.
--
-- Files:
--   Prelude            lists, texts, results, maps, sets, sorting, bytes and numbers, shared by all parts
--   Common.Ws          crates/common/src/protocol/ws.rs: WsMessage, the protocol versions
--   Common.Origin      crates/common/src/crdt/origin.rs: the binary codec of OriginTag
--   Common.NormalPath  crates/common/src/path/normalize.rs: the normal form of a document's path
--   Common.Sections    crates/common/src/section/slug.rs and parser.rs: identifiers of sections, build_tree
--   Relay.DocSync      crates/relay/src/ws/session.rs: DocSyncStore, one function for each method
--   Relay.Sessions     crates/relay/src/ws/session.rs: SyncSessionStore, one function for each method
--   Relay.Awareness    crates/relay/src/awareness/mod.rs: AwarenessStore
--   Relay.Roles        crates/relay/src/auth/middleware.rs: WorkspaceRole, and the lookup of a role
--   Relay.Handler      crates/relay/src/ws/handler.rs: handle_hello_message, handle_subscribe_message,
--                      handle_yjs_update_message, handle_awareness_update
--   Relay.Heartbeat    crates/relay/src/ws/handler.rs: tick and pong in the loop of a socket
--   Relay.DocManager   crates/relay/src/sync/doc_manager.rs: DocManager and hydrate_document
--   Relay.Leader       crates/relay/src/leader/mod.rs: LeaseManager over the table of leader leases
--   Relay.Snapshots    crates/relay/src/sync/snapshot.rs: SnapshotCompactor over its two tables
--   Relay.Idempotency  crates/relay/src/idempotency.rs: idempotency_db_middleware, around the HTTP API,
--                      and (Idempotency.Memory) IdempotencyStore with its middleware
--   Relay.Sequencer    crates/relay/src/sync/sequencer.rs: a counter under interleaved steps of
--                      next_server_seq and seed_counter
--   Daemon.Security    crates/daemon/src/security.rs: the envelope of encrypted data
--   Daemon.Wal         crates/daemon/src/store/wal.rs: WalStore on the bytes of its file
--   Daemon.SnapshotFile  crates/daemon/src/store/snapshot.rs: SnapshotStore on the bytes of a file
--   Daemon.Recovery    crates/daemon/src/store/recovery.rs: recover_document on both files
--   Daemon.Outbox      crates/daemon/src/outbox/mod.rs: OutboxQueue over its table
--   Daemon.Lease       crates/daemon/src/agent/lease.rs: LeaseStore in memory and in its table
--   Daemon.GitLeader   crates/daemon/src/git/leader.rs: the loop that acquires and renews the leader
--                      lease, shutdown, and (GitLeader.World) many of them against Relay.Leader
--   Daemon.Triggers    crates/daemon/src/git/triggers.rs: TriggerCollector; of
--                      crates/daemon/src/rpc/methods.rs, run_triggered_auto_commit
--   Daemon.Debounce    crates/daemon/src/watcher/debounce.rs: Debouncer
--
-- A store behind a lock is a value that its methods take and return, one method after the other, for
-- the lock is held for a whole method; where a method takes the lock twice (subscribe of DocManager)
-- the two maps are two arguments, and the sequencer, which has no lock around its atomic steps, is a
-- list of such steps. Maps and tables are association lists with each key once. Clock readings, random
-- tokens and nonces are arguments. An i64 that the code keeps from being negative is a natural number,
-- and saturating arithmetic is written out; an i64 of a client or a file that may be negative is a ℤ,
-- and the counter of the sequencer is the 64 bits of one. The numbers given to set_snapshot and
-- append_update of DocSync, which only tests call, are not negative. Uuids are numbers, since they are
-- only compared.
--
-- Parameters: the cipher (XChaCha20-Poly1305), the document library yrs, the membership query of the
-- database, the order of texts, whether a channel takes a message, the object store, git, the client of
-- the leader lease, the service behind the idempotency layer, its hash and JSON, UTF-8, the calendar,
-- and of Unicode the normal form NFKC, white space, trimming and lower case. Laws are assumed of these:
-- a ciphertext opens under its nonce, and is 16 bytes longer than the plaintext; UTF-8 and milliseconds
-- are read back as written; and, for one theorem, that NFKC leaves the path at hand as it is.
-- What becomes of a request between daemon and relay (it arrives, or it is lost, or its answer is) is an
-- argument of every step of GitLeader.World, whose client hands over the answers of Relay.Leader.
--
-- Fuel: replay of the log has as much as the file has bytes, and each frame takes eight at least; a
-- run out of fuel is a result of its own. The digits of a number have the number as fuel. All else is
-- structural recursion.
--
-- Not modelled: HTTP and JSON, SQL failures, file permissions, keychain, tracing and metrics beyond
-- the gauge of DocSync; create_sync_session and the rest of the socket loop; the HTTP API and
-- authentication of the relay; the drop of a LeaderHandle; running git and its messages, the events of
-- the file system, the section tracker, search and RPC of the daemon; backlinks and diffs; the command
-- line and the TypeScript packages.
pub mod Prelude
pub mod Common
pub mod Relay
pub mod Daemon
