-- ===== src/Relay/Sessions/Tests.antt =====
-- `SyncSessionStore` at concrete stores, and its theorems there.
use scriptum.Prelude.{
  ℕ, ◌+◌, ◌*◌, none, some, [], ◌∷◌, ◌≡◌, ◌≢◌, ◌↔◌, refl, arith, In, true, nat_eq, string_eq,
}
use scriptum.Prelude.HashMap
use scriptum.Prelude.Numbers.{Uuid}
use scriptum.Relay.Sessions.{
  SyncSessionRecord, SyncSessionStore, Channel, valid, minute, resume_token_ttl_minutes,
  validate_session_token, recipients_excluding,
}
use scriptum.Relay.Sessions.Tokens.{resume-accepted_iff, resume_once}
use scriptum.Relay.Sessions.Broadcast.{Receives, recipients_excluding_iff}

abbrev reader : SyncSessionRecord
reader = record {
  workspace_id = 1;
  client_id = 2;
  device_id = 3;
  session_token = "s";
  resume_token = "r";
  expires_at = 100;
  resume_expires_at = 50;
  active_connections = 2;
  subscriptions = 7 ∷ [];
  outbound = some 4;
  actor_user_id = some 8;
  actor_agent_id = none;
}

abbrev store : SyncSessionStore
store = (20, reader) ∷ (21, record reader { outbound = some 5 }) ∷ []

accepted_here :
    (validate_session_token 20 "s" (some "r") 10 11 "n" store).1
    ≡ valid true "n" (11 + resume_token_ttl_minutes * minute)
unfolding HashMap.get
accepted_here =
    (resume-accepted_iff 20 "s" "n" (some "r") 10 11 store).1
      (reader, refl, refl, omega arith, refl, omega arith)

resume_once_example :
    (validate_session_token 20 "s"
      (some "r")
      12
      13
      "m"
      (validate_session_token 20 "s" (some "r") 10 11 "n" store).0).1
    ≢ valid true "m" (13 + resume_token_ttl_minutes * minute)
resume_once_example =
    resume_once 20 "s" "n" (some "r") 10 11 store true "n" (11 + resume_token_ttl_minutes * minute)
      "s" "m" "r" 12 13 accepted_here (λ q. absurd (cc ((string_eq.test_iff "r" "n").1 q)))

recipients_excluding_iff_example :
    In (let p : Uuid × Channel = (21, 5) in p) (recipients_excluding 1 7 20 store) ↔ (
      (session : SyncSessionRecord) × (HashMap.get 21 store ≡ some session)
      × (let e : ℕ = 21 in e ≢ 20)
      × Receives 1 7 session 5)
unfolding HashMap.get
recipients_excluding_iff_example = recipients_excluding_iff 1 7 20 store 21 5 (refl, (refl, tt))
