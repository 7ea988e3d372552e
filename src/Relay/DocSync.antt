-- ===== src/Relay/DocSync.antt =====
-- crates/relay/src/ws/session.rs, `DocSyncStore`: the relay's log of each document. An operation
-- holds the lock of the store from its first read to its last write, so it is one step. Metrics are
-- returned as a list; log lines are left out.
pub mod Invariant
pub mod History
pub mod Updates
pub mod CatchUp
pub mod Numbering
mod Tests
use scriptum.Prelude.{
  ℕ, ◌+◌, ◌<◌, String, Bool, true, false, ◌&&◌, not, Option, none, some, List, [], ◌∷◌, ◌++◌, map,
  ltb, leb, if◌then◌else◌, is_some, unwrap_or, length, filter, ◌==◌, nat_eq, pair_eq, max,
}
use scriptum.Prelude.HashMap
use scriptum.Prelude.HashMap.{HashMap}
use scriptum.Prelude.Sort.{sort_by_key}
use scriptum.Prelude.Numbers.{Uuid, ℤ, pos, saturating_add_i64, pred_i64}
use scriptum.Common.Ws.{WsMessage, snapshot, yjs_update}

pub record DocSnapshotState : Type 0 where
  pub snapshot_seq : ℕ
  pub payload_b64 : String

pub record DocUpdateState : Type 0 where
  pub server_seq : ℕ
  pub client_id : Uuid
  pub client_update_id : Uuid
  pub payload_b64 : String
  pub actor_user_id : Option Uuid
  pub actor_agent_id : Option String

pub record UpdateAttribution : Type 0 where
  pub user_id : Option Uuid
  pub agent_id : Option String

pub record DocSyncState : Type 0 where
  pub snapshot : Option DocSnapshotState
  pub updates : List DocUpdateState
  pub dedupe : HashMap (Uuid × Uuid) ℕ
  pub head_server_seq : ℕ

abbrev pub default_state : DocSyncState
default_state = record { snapshot = none; updates = []; dedupe = []; head_server_seq = 0 }

-- By workspace and document.
abbrev pub DocSyncStore : Type 0
DocSyncStore = HashMap (Uuid × Uuid) DocSyncState

pub data ApplyClientUpdateResult : Type 0 where
  -- the new sequence number, and the base to broadcast
  applied : ℕ → ℤ → ApplyClientUpdateResult
  duplicate : ℕ → ApplyClientUpdateResult
  rejected_base_seq : ℕ → ApplyClientUpdateResult

pub data Metric : Type 0 where
  sequence_gap : Metric
  outbox_depth : Uuid → ℕ → Metric

-- `entry(key).or_default()`
abbrev pub state_of : Uuid → Uuid → DocSyncStore → DocSyncState
state_of workspace_id doc_id docs =
    unwrap_or (HashMap.get (workspace_id, doc_id) docs) default_state

abbrev pub put_state : Uuid → Uuid → DocSyncState → DocSyncStore → DocSyncStore
put_state workspace_id doc_id s docs = HashMap.insert (workspace_id, doc_id) s docs

abbrev pub seq_of : DocUpdateState → ℕ
seq_of u = u.server_seq

workspace_outbox_depth : DocSyncStore → Uuid → ℕ
workspace_outbox_depth [] workspace_id = 0
workspace_outbox_depth ((k, s) ∷ docs) workspace_id =
    (if k.0 == workspace_id then length s.updates else 0) + workspace_outbox_depth docs workspace_id

pub snapshot_state : ℕ → String → DocSyncState → DocSyncState
snapshot_state snapshot_seq payload_b64 s = record s {
  snapshot = some (record { snapshot_seq = snapshot_seq; payload_b64 = payload_b64 });
  head_server_seq = max s.head_server_seq snapshot_seq;
}

pub set_snapshot : Uuid → Uuid → ℕ → String → DocSyncStore → DocSyncStore
unfolding snapshot_state
set_snapshot workspace_id doc_id snapshot_seq payload_b64 docs =
    put_state workspace_id doc_id
      (snapshot_state snapshot_seq payload_b64 (state_of workspace_id doc_id docs)) docs

-- The push onto the log, the new key of the dedupe table, the head, and the sort.
unfoldable pub push_update : DocUpdateState → ℕ → DocSyncState → DocSyncState
push_update u head s = record s {
  updates = sort_by_key seq_of (s.updates ++ u ∷ []);
  dedupe = HashMap.insert (u.client_id, u.client_update_id) u.server_seq s.dedupe;
  head_server_seq = head;
}

-- For a number that is not negative, as its callers give.
pub append_update :
    Uuid → Uuid → ℕ → Uuid → Uuid → String → DocSyncStore → DocSyncStore × List Metric
unfolding push_update workspace_outbox_depth
append_update workspace_id doc_id server_seq client_id client_update_id payload_b64 docs =
    let s = state_of workspace_id doc_id docs in
    let u : DocUpdateState = record {
      server_seq = server_seq;
      client_id = client_id;
      client_update_id = client_update_id;
      payload_b64 = payload_b64;
      actor_user_id = none;
      actor_agent_id = none;
    } in
    let docs' : DocSyncStore =
      put_state workspace_id doc_id (push_update u (max s.head_server_seq server_seq) s) docs in
    (
      docs',
      (if ltb (saturating_add_i64 s.head_server_seq 1) server_seq then sequence_gap ∷ [] else [])
          ++ outbox_depth workspace_id (workspace_outbox_depth docs' workspace_id) ∷ [],
    )

-- The log entry of an accepted update.
abbrev pub accepted_update :
    Uuid → Uuid → String → UpdateAttribution → DocSyncState → DocUpdateState
accepted_update client_id client_update_id payload_b64 attribution s = record {
  server_seq = saturating_add_i64 s.head_server_seq 1;
  client_id = client_id;
  client_update_id = client_update_id;
  payload_b64 = payload_b64;
  actor_user_id = attribution.user_id;
  actor_agent_id = attribution.agent_id;
}

-- The part under `let result`, on the state of the document.
unfoldable pub apply_to_state :
    Uuid
    → Uuid
    → ℕ
    → String
    → UpdateAttribution
    → DocSyncState
    → DocSyncState × ApplyClientUpdateResult
unfolding push_update
apply_to_state client_id client_update_id base_server_seq payload_b64 attribution s =
    elim (HashMap.get (client_id, client_update_id) s.dedupe) [
      | some existing_server_seq ↦ (s, duplicate existing_server_seq)
      | none ↦
          let u = accepted_update client_id client_update_id payload_b64 attribution s in
          if ltb s.head_server_seq base_server_seq
          then (s, rejected_base_seq s.head_server_seq)
          else (push_update u u.server_seq s, applied u.server_seq (pred_i64 u.server_seq))
    ]

-- A duplicate and a rejected update return early, before the gauge is set; the default state that
-- `or_default` made stays in the map.
abbrev pub depth_metric : Uuid → DocSyncStore → ApplyClientUpdateResult → List Metric
unfolding workspace_outbox_depth
depth_metric workspace_id docs (applied n base) =
    outbox_depth workspace_id (workspace_outbox_depth docs workspace_id) ∷ []
depth_metric workspace_id docs (duplicate n) = []
depth_metric workspace_id docs (rejected_base_seq n) = []

unfoldable pub apply_client_update :
    Uuid
    → Uuid
    → Uuid
    → Uuid
    → ℕ
    → String
    → UpdateAttribution
    → DocSyncStore
    → DocSyncStore × ApplyClientUpdateResult × List Metric
unfolding apply_to_state
apply_client_update workspace_id doc_id client_id client_update_id base_server_seq payload_b64
      attribution docs =
    let s = state_of workspace_id doc_id docs in
    let (s', result) =
      apply_to_state client_id client_update_id base_server_seq payload_b64 attribution s in
    let docs' : DocSyncStore = put_state workspace_id doc_id s' docs in
    (docs', result, depth_metric workspace_id docs' result)

-- Whether the client lacks the snapshot.
abbrev pub needs_snapshot : Option ℕ → DocSnapshotState → Bool
needs_snapshot none snap = true
needs_snapshot (some seq) snap = ltb seq snap.snapshot_seq

module _ {Peer : Type 0} where
  pub update_message : Uuid → DocUpdateState → WsMessage Peer
  update_message doc_id u =
      yjs_update doc_id u.client_id u.client_update_id (pred_i64 u.server_seq) u.payload_b64

  -- The updates after a cursor, in the order of the log.
  abbrev pub messages_after : Uuid → ℕ → List DocUpdateState → List (WsMessage Peer)
  messages_after doc_id cursor_seq updates =
      map (update_message doc_id) (filter (λ u. ltb cursor_seq u.server_seq) updates)

  -- The snapshot, if the client lacks it, and the updates after the cursor.
  abbrev pub messages_from :
      Uuid → Option ℕ → Option DocSnapshotState → List DocUpdateState → List (WsMessage Peer)
  messages_from doc_id last_server_seq none updates =
      messages_after doc_id (unwrap_or last_server_seq 0) updates
  messages_from doc_id last_server_seq (some snap) updates =
      if needs_snapshot last_server_seq snap
      then snapshot doc_id snap.snapshot_seq snap.payload_b64
        ∷ messages_after doc_id snap.snapshot_seq updates
      else messages_after doc_id (unwrap_or last_server_seq 0) updates

  unfoldable pub state_messages : Uuid → Option ℕ → DocSyncState → List (WsMessage Peer)
  state_messages doc_id last_server_seq s =
      messages_from doc_id last_server_seq s.snapshot s.updates

  pub build_state_sync_messages : Uuid → Uuid → Option ℕ → DocSyncStore → List (WsMessage Peer)
  unfolding state_messages
  build_state_sync_messages workspace_id doc_id last_server_seq docs =
      elim (HashMap.get (workspace_id, doc_id) docs) [
        | none ↦ []
        | some s ↦ state_messages doc_id last_server_seq s
      ]

find_update : Uuid → Uuid → List DocUpdateState → Option DocUpdateState
find_update client_id client_update_id [] = none
find_update client_id client_update_id (u ∷ us) =
    if u.client_id == client_id && u.client_update_id == client_update_id
    then some u
    else find_update client_id client_update_id us

pub update_attribution : Uuid → Uuid → Uuid → Uuid → DocSyncStore → Option UpdateAttribution
unfolding find_update
update_attribution workspace_id doc_id client_id client_update_id docs =
    elim (HashMap.get (workspace_id, doc_id) docs) [
      | none ↦ none
      | some s ↦ elim (find_update client_id client_update_id s.updates) [
        | none ↦ none
        | some u ↦ some (record { user_id = u.actor_user_id; agent_id = u.actor_agent_id })
      ]
    ]
