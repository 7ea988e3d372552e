-- ===== src/Relay/Handler.antt =====
-- crates/relay/src/ws/handler.rs: what the relay does with the messages of a websocket session. The
-- text of an error for people and the logging are left out; a text is checked and parsed before.
pub mod Subscribe
pub mod Update
mod Tests
use scriptum.Prelude.{
  ℕ, String, Bool, true, false, not, Option, none, some, List, [], ◌∷◌, ◌⊎◌, inl, inr,
  if◌then◌else◌, ◌==◌, nat_eq, string_eq,
}
use scriptum.Prelude.Numbers.{Uuid, Instant, ℤ, pos, negsuc}
use scriptum.Common.Ws.{
  WsMessage, hello_ack, ack, yjs_update, awareness_update, error, is_supported_protocol_version,
}
use scriptum.Relay.Roles.{WorkspaceMembershipStore, found, missing, failed, viewer, allows}
use scriptum.Relay.Sessions.{
  SyncSessionStore, valid, invalid, expired, validate_session_token, workspace_for_session,
  actor_user_for_session, track_subscription, session_is_subscribed, attribution_for_session,
}
use scriptum.Relay.DocSync.{
  DocSyncStore, ApplyClientUpdateResult, applied, duplicate, rejected_base_seq, apply_client_update,
  build_state_sync_messages, UpdateAttribution,
}
use scriptum.Relay.Awareness
use scriptum.Relay.Awareness.{AwarenessStore}

abbrev pub session_invalid : {Peer : Type 0} → Uuid → WsMessage Peer
session_invalid doc_id = error "SYNC_SESSION_INVALID" false (some doc_id)

-- The check of the role that subscribing wants; `none`: granted.
abbrev pub subscribe_denied :
    {Peer : Type 0} → WorkspaceMembershipStore → Uuid → Uuid → Option Uuid → Option (WsMessage Peer)
subscribe_denied membership_store workspace_id doc_id none = none
subscribe_denied membership_store workspace_id doc_id (some actor_user_id) =
    elim (membership_store workspace_id actor_user_id) [
      | found role ↦
          if allows role viewer then none else some (error "AUTH_FORBIDDEN" false (some doc_id))
      | missing ↦ some (error "AUTH_FORBIDDEN" false (some doc_id))
      | failed ↦ some (error "INTERNAL_ERROR" true (some doc_id))
    ]

pub record YjsUpdateHandlingResult (Peer : Type 0) : Type 0 where
  pub workspace_id : Uuid
  pub ack_message : WsMessage Peer
  pub broadcast : Option (WsMessage Peer)

module _ {Peer : Type 0} where
  -- `server_time` is the reading of the clock for the answer.
  pub handle_hello_message :
      Uuid
      → String
      → String
      → Option String
      → Instant
      → Instant
      → Instant
      → String
      → SyncSessionStore
      → SyncSessionStore × (WsMessage Peer ⊎ WsMessage Peer)
  unfolding is_supported_protocol_version validate_session_token
  handle_hello_message session_id protocol_version session_token resume_token checked_at now
        server_time next sessions =
      if not (is_supported_protocol_version protocol_version)
      then (sessions, inl (error "SYNC_PROTOCOL_UNSUPPORTED" false none))
      else (let (sessions', validation) =
            validate_session_token session_id session_token resume_token checked_at now next
              sessions in
          (
            sessions',
            (elim validation [
              | valid resume_accepted token expires_at ↦
                  inr (hello_ack server_time resume_accepted token expires_at)
              | invalid ↦ inl (error "SYNC_TOKEN_INVALID" false none)
              | expired ↦ inl (error "SYNC_TOKEN_EXPIRED" false none)
            ]),
          ))

  -- After the check of the sequence number.
  abbrev pub subscribe_at :
      WorkspaceMembershipStore
      → Uuid
      → Uuid
      → Option ℕ
      → DocSyncStore
      → SyncSessionStore
      → SyncSessionStore × (WsMessage Peer ⊎ List (WsMessage Peer))
  subscribe_at membership_store session_id doc_id last_server_seq docs sessions =
      elim (workspace_for_session session_id sessions) [
        | none ↦ (sessions, inl (session_invalid doc_id))
        | some workspace_id ↦
            elim (subscribe_denied membership_store workspace_id doc_id
              (actor_user_for_session session_id sessions)) [
                | some denied ↦ (sessions, inl denied)
                | none ↦
                    let (sessions', tracked) = track_subscription session_id doc_id sessions in
                    (
                      sessions',
                      if tracked
                          then inr
                              (build_state_sync_messages workspace_id doc_id last_server_seq docs)
                          else inl (session_invalid doc_id),
                    )
              ]
      ]

  pub handle_subscribe_message :
      WorkspaceMembershipStore
      → Uuid
      → Uuid
      → Option ℤ
      → DocSyncStore
      → SyncSessionStore
      → SyncSessionStore × (WsMessage Peer ⊎ List (WsMessage Peer))
  handle_subscribe_message membership_store session_id doc_id none docs sessions =
      subscribe_at membership_store session_id doc_id none docs sessions
  handle_subscribe_message membership_store session_id doc_id (some (negsuc n)) docs sessions =
      (sessions, inl (error "SYNC_INVALID_LAST_SERVER_SEQ" false (some doc_id)))
  handle_subscribe_message membership_store session_id doc_id (some (pos n)) docs sessions =
      subscribe_at membership_store session_id doc_id (some n) docs sessions

  -- The `match` on the result of the store.
  abbrev pub update_result :
      Uuid
      → Uuid
      → Uuid
      → Uuid
      → String
      → ApplyClientUpdateResult
      → WsMessage Peer ⊎ YjsUpdateHandlingResult Peer
  update_result workspace_id doc_id client_id client_update_id payload_b64
        (applied server_seq base) =
      inr (record {
        workspace_id = workspace_id;
        ack_message = ack doc_id client_update_id server_seq true;
        broadcast = some (yjs_update doc_id client_id client_update_id base payload_b64);
      })
  update_result workspace_id doc_id client_id client_update_id payload_b64 (duplicate server_seq) =
      inr (record {
        workspace_id = workspace_id;
        ack_message = ack doc_id client_update_id server_seq false;
        broadcast = none;
      })
  update_result workspace_id doc_id client_id client_update_id payload_b64
        (rejected_base_seq server_seq) =
      inl (error "SYNC_BASE_SERVER_SEQ_MISMATCH" true (some doc_id))

  abbrev pub update_at :
      Uuid
      → Uuid
      → Uuid
      → Uuid
      → ℕ
      → String
      → SyncSessionStore
      → DocSyncStore
      → DocSyncStore × (WsMessage Peer ⊎ YjsUpdateHandlingResult Peer)
  update_at session_id doc_id client_id client_update_id base_server_seq payload_b64 sessions docs =
      elim (workspace_for_session session_id sessions) [
        | none ↦ (docs, inl (session_invalid doc_id))
        | some workspace_id ↦
            if not (session_is_subscribed session_id doc_id sessions)
            then (docs, inl (error "SYNC_DOC_NOT_SUBSCRIBED" false (some doc_id)))
            else (elim (attribution_for_session session_id sessions) [
              | none ↦ (docs, inl (session_invalid doc_id))
              | some attribution ↦
                  let (docs', result, metrics) =
                    apply_client_update workspace_id doc_id client_id client_update_id
                      base_server_seq payload_b64 attribution docs in
                  (
                    docs',
                    update_result workspace_id doc_id client_id client_update_id payload_b64 result,
                  )
            ])
      ]

  pub handle_yjs_update_message :
      Uuid
      → Uuid
      → Uuid
      → Uuid
      → ℤ
      → String
      → SyncSessionStore
      → DocSyncStore
      → DocSyncStore × (WsMessage Peer ⊎ YjsUpdateHandlingResult Peer)
  handle_yjs_update_message session_id doc_id client_id client_update_id (negsuc n) payload_b64
        sessions docs =
      (docs, inl (error "SYNC_INVALID_BASE_SERVER_SEQ" false (some doc_id)))
  handle_yjs_update_message session_id doc_id client_id client_update_id (pos n) payload_b64
        sessions docs =
      update_at session_id doc_id client_id client_update_id n payload_b64 sessions docs

  -- With the workspace of the broadcast.
  pub handle_awareness_update :
      Uuid
      → Uuid
      → List Peer
      → SyncSessionStore
      → AwarenessStore Peer
      → AwarenessStore Peer × (WsMessage Peer ⊎ (Uuid × WsMessage Peer))
  handle_awareness_update session_id doc_id peers sessions awareness =
      elim (workspace_for_session session_id sessions) [
        | none ↦ (awareness, inl (session_invalid doc_id))
        | some workspace_id ↦
            if not (session_is_subscribed session_id doc_id sessions)
            then (awareness, inl (error "SYNC_DOC_NOT_SUBSCRIBED" false (some doc_id)))
            else (let awareness' =
                  Awareness.update workspace_id doc_id session_id peers awareness in
                (
                  awareness',
                  inr (
                    workspace_id,
                    awareness_update doc_id (Awareness.aggregate workspace_id doc_id awareness'),
                  ),
                ))
      ]
