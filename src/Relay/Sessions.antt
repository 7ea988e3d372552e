-- ===== src/Relay/Sessions.antt =====
-- crates/relay/src/ws/session.rs, `SyncSessionStore`: the sync sessions of the relay. `Utc::now()`
-- and fresh tokens are arguments, in the order in which the code takes them. A channel is an
-- identifier; whether a send on it succeeds is an argument, for the receiver may be gone.
pub mod Tokens
pub mod Broadcast
pub mod Connections
mod Tests
use scriptum.Prelude.{
  ℕ, ◌+◌, ◌-◌, ◌*◌, ◌<◌, String, Bool, true, false, ◌&&◌, not, Option, none, some, List, [], ◌∷◌,
  map, ltb, leb, if◌then◌else◌, is_some, length, filter, ◌==◌, nat_eq, string_eq,
}
use scriptum.Prelude.HashMap
use scriptum.Prelude.HashMap.{HashMap}
use scriptum.Prelude.HashSet
use scriptum.Prelude.HashSet.{HashSet}
use scriptum.Prelude.Sort.{sort_by_key}
use scriptum.Prelude.Numbers.{Uuid, Instant}
use scriptum.Relay.DocSync.{UpdateAttribution}

-- In nanoseconds.
abbrev pub minute : ℕ
minute = 60_000_000_000

abbrev pub resume_token_ttl_minutes : ℕ
resume_token_ttl_minutes = 10

abbrev pub Channel : Type 0
Channel = ℕ

pub record SyncSessionRecord : Type 0 where
  pub workspace_id : Uuid
  pub client_id : Uuid
  pub device_id : Uuid
  pub session_token : String
  pub resume_token : String
  pub expires_at : Instant
  pub resume_expires_at : Instant
  pub active_connections : ℕ
  pub subscriptions : HashSet Uuid
  pub outbound : Option Channel
  pub actor_user_id : Option Uuid
  pub actor_agent_id : Option String

abbrev pub SyncSessionStore : Type 0
SyncSessionStore = HashMap Uuid SyncSessionRecord

pub data SessionTokenValidation : Type 0 where
  -- whether the resume was accepted, the next resume token and its expiry
  valid : Bool → String → Instant → SessionTokenValidation
  invalid : SessionTokenValidation
  expired : SessionTokenValidation

pub create_session_with_actor :
    Uuid
    → Uuid
    → Uuid
    → Uuid
    → String
    → String
    → Instant
    → Instant
    → Option Uuid
    → Option String
    → SyncSessionStore
    → SyncSessionStore
create_session_with_actor session_id workspace_id client_id device_id session_token resume_token
      expires_at resume_expires_at actor_user_id actor_agent_id sessions =
    HashMap.insert session_id
      (record {
        workspace_id = workspace_id;
        client_id = client_id;
        device_id = device_id;
        session_token = session_token;
        resume_token = resume_token;
        expires_at = expires_at;
        resume_expires_at = resume_expires_at;
        active_connections = 0;
        subscriptions = [];
        outbound = none;
        actor_user_id = actor_user_id;
        actor_agent_id = actor_agent_id;
      })
      sessions

pub create_session :
    Uuid
    → Uuid
    → Uuid
    → Uuid
    → String
    → String
    → Instant
    → Instant
    → SyncSessionStore
    → SyncSessionStore
unfolding create_session_with_actor
create_session session_id workspace_id client_id device_id session_token resume_token expires_at
      resume_expires_at sessions =
    create_session_with_actor session_id workspace_id client_id device_id session_token resume_token
      expires_at resume_expires_at none none sessions

pub session_exists : Uuid → SyncSessionStore → Bool
session_exists session_id sessions = HashMap.contains_key session_id sessions

-- The `match` on the resume token.
abbrev pub resume_accepted : Option String → Instant → SyncSessionRecord → Bool
resume_accepted none now session = false
resume_accepted (some token) now session =
    if token == session.resume_token then leb now session.resume_expires_at else false

-- The checks on a session that exists. `checked_at` and `now` are the two readings of the clock.
pub validate_record :
    String
    → Option String
    → Instant
    → Instant
    → String
    → SyncSessionRecord
    → SyncSessionRecord × SessionTokenValidation
validate_record session_token resume_token checked_at now next_resume_token session =
    if session.session_token == session_token
    then (if ltb session.expires_at checked_at then (session, expired) else (
      record session {
        resume_token = next_resume_token;
        resume_expires_at = now + resume_token_ttl_minutes * minute;
      },
      valid (resume_accepted resume_token now session) next_resume_token
          (now + resume_token_ttl_minutes * minute),
    ))
    else (session, invalid)

-- Through `get_mut`, a write is an insert at the key.
unfoldable pub validate_session_token :
    Uuid
    → String
    → Option String
    → Instant
    → Instant
    → String
    → SyncSessionStore
    → SyncSessionStore × SessionTokenValidation
unfolding validate_record
validate_session_token session_id session_token resume_token checked_at now next_resume_token
      sessions =
    elim (HashMap.get session_id sessions) [
      | none ↦ (sessions, invalid)
      | some session ↦
          let (session', result) =
            validate_record session_token resume_token checked_at now next_resume_token session in
          (HashMap.insert session_id session' sessions, result)
    ]

-- `get_mut` with a change, and whether the session was there.
abbrev pub update_session :
    (SyncSessionRecord → SyncSessionRecord) → Uuid → SyncSessionStore → SyncSessionStore × Bool
update_session change session_id sessions = elim (HashMap.get session_id sessions) [
  | none ↦ (sessions, false)
  | some session ↦ (HashMap.insert session_id (change session) sessions, true)
]

pub connect : SyncSessionRecord → SyncSessionRecord
connect session = record session { active_connections = session.active_connections + 1 }

pub mark_connected : Uuid → SyncSessionStore → SyncSessionStore × Bool
unfolding connect
mark_connected = update_session connect

-- `saturating_sub` is the subtraction of ℕ.
pub disconnect : SyncSessionRecord → SyncSessionRecord
disconnect session =
    let left : ℕ = session.active_connections - 1 in
    if left == 0
    then record session { active_connections = left; subscriptions = []; outbound = none }
    else record session { active_connections = left }

pub mark_disconnected : Uuid → SyncSessionStore → SyncSessionStore
unfolding disconnect
mark_disconnected session_id sessions = (update_session disconnect session_id sessions).0

pub register_outbound : Uuid → Channel → SyncSessionStore → SyncSessionStore × Bool
register_outbound session_id sender =
    update_session (λ session. record session { outbound = some sender }) session_id

unfoldable pub track_subscription : Uuid → Uuid → SyncSessionStore → SyncSessionStore × Bool
track_subscription session_id doc_id =
    update_session
      (λ session. record session { subscriptions = HashSet.insert doc_id session.subscriptions })
      session_id

unfoldable pub session_is_subscribed : Uuid → Uuid → SyncSessionStore → Bool
session_is_subscribed session_id doc_id sessions = elim (HashMap.get session_id sessions) [
  | none ↦ false
  | some session ↦ HashSet.contains doc_id session.subscriptions
]

unfoldable pub attribution_for_session : Uuid → SyncSessionStore → Option UpdateAttribution
attribution_for_session session_id sessions = elim (HashMap.get session_id sessions) [
  | none ↦ none
  | some session ↦
      some (record { user_id = session.actor_user_id; agent_id = session.actor_agent_id })
]

-- The body of the loop over the sessions: the recipient that a session is, if it is one.
abbrev pub recipient : Uuid → Uuid → Uuid → SyncSessionRecord → Option (Uuid × Channel)
recipient workspace_id doc_id session_id session =
    if session.workspace_id == workspace_id
    then (if HashSet.contains doc_id session.subscriptions
        then (elim session.outbound [ none ↦ none | some sender ↦ some (session_id, sender) ])
        else none)
    else none

abbrev pub push_some : Option (Uuid × Channel) → List (Uuid × Channel) → List (Uuid × Channel)
push_some none rest = rest
push_some (some r) rest = r ∷ rest

pub recipients : Uuid → Uuid → SyncSessionStore → List (Uuid × Channel)
recipients workspace_id doc_id [] = []
recipients workspace_id doc_id ((session_id, session) ∷ sessions) =
    push_some (recipient workspace_id doc_id session_id session)
      (recipients workspace_id doc_id sessions)

unfoldable pub recipients_excluding : Uuid → Uuid → Uuid → SyncSessionStore → List (Uuid × Channel)
recipients_excluding workspace_id doc_id exclude_session [] = []
recipients_excluding workspace_id doc_id exclude_session ((session_id, session) ∷ sessions) =
    push_some
      (if session_id == exclude_session
        then none
        else recipient workspace_id doc_id session_id session)
      (recipients_excluding workspace_id doc_id exclude_session sessions)

-- `is_open` says on which channels a send succeeds; the number that the code returns.
pub broadcast_to_subscribers : (Channel → Bool) → Uuid → Uuid → SyncSessionStore → ℕ
unfolding recipients
broadcast_to_subscribers is_open workspace_id doc_id sessions =
    length (filter (λ (r : Uuid × Channel). is_open r.1) (recipients workspace_id doc_id sessions))

pub broadcast_to_subscribers_excluding :
    (Channel → Bool) → Uuid → Uuid → Uuid → SyncSessionStore → ℕ
unfolding recipients_excluding
broadcast_to_subscribers_excluding is_open workspace_id doc_id exclude_session sessions = length (
    filter (λ (r : Uuid × Channel). is_open r.1)
      (recipients_excluding workspace_id doc_id exclude_session sessions))

pub active_connections : Uuid → SyncSessionStore → Option ℕ
active_connections session_id sessions = elim (HashMap.get session_id sessions) [
  | none ↦ none
  | some session ↦ some session.active_connections
]

unfoldable pub workspace_for_session : Uuid → SyncSessionStore → Option Uuid
workspace_for_session session_id sessions = elim (HashMap.get session_id sessions) [
  | none ↦ none
  | some session ↦ some session.workspace_id
]

unfoldable pub actor_user_for_session : Uuid → SyncSessionStore → Option Uuid
actor_user_for_session session_id sessions = elim (HashMap.get session_id sessions) [
  | none ↦ none
  | some session ↦ session.actor_user_id
]

pub token_for_session : Uuid → SyncSessionStore → Option String
token_for_session session_id sessions = elim (HashMap.get session_id sessions) [
  | none ↦ none
  | some session ↦ some session.session_token
]

pub subscriptions_for_session : Uuid → SyncSessionStore → Option (List Uuid)
subscriptions_for_session session_id sessions = elim (HashMap.get session_id sessions) [
  | none ↦ none
  | some session ↦ some (sort_by_key (λ (d : Uuid). d) session.subscriptions)
]
