-- ===== src/Relay/Handler/Tests.antt =====
-- The handlers of a websocket session at concrete stores.
use scriptum.Prelude.{
  ℕ, true, false, none, some, List, [], ◌∷◌, ◌≡◌, refl, inl, inr, nat_eq, ◌==◌, ◌&&◌, if◌then◌else◌,
}
use scriptum.Prelude.HashMap
use scriptum.Prelude.HashSet
use scriptum.Prelude.Numbers.{pos}
use scriptum.Common.Ws.{WsMessage, ack, yjs_update}
use scriptum.Relay.Roles.{WorkspaceMembershipStore, found, missing, viewer}
use scriptum.Relay.Sessions.{
  SyncSessionRecord, SyncSessionStore, session_is_subscribed, workspace_for_session,
  attribution_for_session,
}
use scriptum.Relay.DocSync.{build_state_sync_messages, apply_client_update}
use scriptum.Relay.Handler.{
  handle_subscribe_message, handle_yjs_update_message, YjsUpdateHandlingResult,
}
use scriptum.Relay.Handler.Subscribe.{
  MayRead, IsCursor, subscription, subscribe-grants, subscribe-needs_member,
}
use scriptum.Relay.Handler.Update.{handling, applied_for, Answers, update-Answers}

abbrev session : SyncSessionRecord
session = record {
  workspace_id = 1;
  client_id = 2;
  device_id = 3;
  session_token = "s";
  resume_token = "r";
  expires_at = 100;
  resume_expires_at = 50;
  active_connections = 1;
  subscriptions = 7 ∷ [];
  outbound = some 4;
  actor_user_id = some 8;
  actor_agent_id = none;
}

abbrev store : SyncSessionStore
store = (20, session) ∷ []

-- User 8 is a viewer of workspace 1.
abbrev members : WorkspaceMembershipStore
members w u = if w == 1 && u == 8 then found viewer else missing

session_found : HashMap.get 20 store ≡ some session
unfolding HashMap.get
session_found = refl

subscribe-grants_example :
    ((subscription ℕ members 20 9 (some 3) [] store).1
      ≡ inr (build_state_sync_messages 1 9 (some 3) []))
    × (session_is_subscribed 20 9 (subscription ℕ members 20 9 (some 3) [] store).0 ≡ true)
subscribe-grants_example =
    subscribe-grants ℕ members 20 9 (some 3) [] store session session_found (viewer, refl, refl)

subscribe-needs_member_example :
    ((messages : List (WsMessage ℕ))
      → (handle_subscribe_message members 20 9 (some (pos 3)) [] store).1 ≡ inr messages
      → IsCursor (some (pos 3))
        × ((s : SyncSessionRecord) × (HashMap.get 20 store ≡ some s)
            × MayRead members s.workspace_id s.actor_user_id))
    × ((refusal : WsMessage ℕ)
        → (handle_subscribe_message members 20 9 (some (pos 3)) [] store).1 ≡ inl refusal
        → (handle_subscribe_message {Peer = ℕ} members 20 9 (some (pos 3)) [] store).0 ≡ store)
subscribe-needs_member_example = subscribe-needs_member ℕ members 20 9 (some (pos 3)) [] store

abbrev answer : YjsUpdateHandlingResult ℕ
answer = record {
  workspace_id = 1;
  ack_message = ack 7 11 1 true;
  broadcast = some (yjs_update 7 2 11 (pos 0) "u");
}

answered : (handling ℕ 20 7 2 11 0 "u" store []).1 ≡ inr answer
unfolding handle_yjs_update_message workspace_for_session session_is_subscribed
    attribution_for_session apply_client_update HashMap.get HashMap.insert HashSet.contains
answered = refl

update-Answers_example :
    (session_is_subscribed 20 7 store ≡ true)
    × ((n : ℕ) × (pos 0 ≡ pos n)
        × ((s : SyncSessionRecord) × (HashMap.get 20 store ≡ some s)
            × ((handling ℕ 20 7 2 11 0 "u" store []).0
                ≡ (applied_for ℕ 20 7 2 11 n "u" store [] s).0)
            × (answer.workspace_id ≡ s.workspace_id)
            × Answers 7 2 11 "u" (applied_for ℕ 20 7 2 11 n "u" store [] s).1 answer))
update-Answers_example = update-Answers ℕ 20 7 2 11 (pos 0) "u" store [] answer answered

elsewhere : session_is_subscribed 20 5 store ≡ false
unfolding session_is_subscribed HashMap.get HashSet.contains
elsewhere = refl
