-- ===== src/Relay/Handler/Subscribe.antt =====
-- crates/relay/src/ws/handler.rs, `handle_subscribe_message`: who may subscribe, and what follows.
use scriptum.Prelude.{
  ℕ, true, Option, none, some, List, ◌≡◌, ◌⊎◌, refl, sym, ap, ◌∙◌, arith, inl, inr, Option-cases,
  nat_eq, ==_refl,
}
use scriptum.Prelude.HashMap
use scriptum.Prelude.HashMap.{get-insert, get-insert_self}
use scriptum.Prelude.HashSet
use scriptum.Prelude.HashSet.{contains-insert}
use scriptum.Prelude.Numbers.{Uuid, ℤ, pos, negsuc}
use scriptum.Common.Ws.{WsMessage}
use scriptum.Relay.Roles.{
  WorkspaceMembershipStore, RoleLookup, found, missing, failed, viewer, allows,
}
use scriptum.Relay.Sessions.{
  SyncSessionRecord, SyncSessionStore, workspace_for_session, actor_user_for_session,
  track_subscription, session_is_subscribed, update_session,
}
use scriptum.Relay.DocSync.{DocSyncStore, build_state_sync_messages}
use scriptum.Relay.Handler.{
  subscribe_denied, subscribe_at, handle_subscribe_message, session_invalid,
}

-- A session without an actor may read, and one whose actor has a role in its workspace.
abbrev pub MayRead : WorkspaceMembershipStore → Uuid → Option Uuid → Type 0
MayRead membership w none = Unit
MayRead membership w (some user) =
    (role : _) × (membership w user ≡ found role) × (allows role viewer ≡ true)

module _ {Peer : Type 0} (membership : WorkspaceMembershipStore) (w d : Uuid) where
  MayRead-granted :
      (actor : Option Uuid)
      → MayRead membership w actor
      → subscribe_denied {Peer = Peer} membership w d actor ≡ none
  MayRead-granted none m = refl
  MayRead-granted (some user) (role, known, allowed) =
      rw (known, subscribe_denied) (rw allowed refl)

  granted-MayRead :
      (actor : Option Uuid)
      → subscribe_denied {Peer = Peer} membership w d actor ≡ none
      → MayRead membership w actor
  granted-MayRead none h = tt
  granted-MayRead (some user) h = by_lookup (membership w user) refl
    where
      by_lookup : (l : RoleLookup) → membership w user ≡ l → MayRead membership w (some user)
      by_lookup (found role) e = (role, e, ground (arith, h, e))
      by_lookup missing e = absurd (ground (arith, h, e))
      by_lookup failed e = absurd (ground (arith, h, e))

-- What the stores say of a session that exists.
pub session_facts :
    (session_id d : Uuid) (s : SyncSessionRecord) (sessions : SyncSessionStore)
    → HashMap.get session_id sessions ≡ some s
    → (workspace_for_session session_id sessions ≡ some s.workspace_id)
      × (actor_user_for_session session_id sessions ≡ s.actor_user_id)
      × ((track_subscription session_id d sessions).1 ≡ true)
      × (session_is_subscribed session_id d (track_subscription session_id d sessions).0 ≡ true)
unfolding workspace_for_session actor_user_for_session track_subscription session_is_subscribed
session_facts session_id d s sessions h = (
  rw (h, workspace_for_session) refl,
  rw (h, actor_user_for_session) refl,
  rw (h, update_session) refl,
  rw (h, update_session)
      (rw
        (
          get-insert_self session_id (record s { subscriptions = HashSet.insert d s.subscriptions })
              sessions,
          session_is_subscribed,
        )
        (rw (contains-insert d d s.subscriptions) (rw (==_refl d) refl))),
)

-- The sequence number of a client that is not negative, or none.
abbrev pub cursor : Option ℕ → Option ℤ
cursor none = none
cursor (some n) = some (pos n)

module _ (Peer : Type 0) (membership : WorkspaceMembershipStore) (session_id d : Uuid)
    (last : Option ℕ) (docs : DocSyncStore) (sessions : SyncSessionStore) where
  abbrev pub subscription : SyncSessionStore × (WsMessage Peer ⊎ List (WsMessage Peer))
  subscription = handle_subscribe_message membership session_id d (cursor last) docs sessions

  subscription_eq : subscription ≡ subscribe_at membership session_id d last docs sessions
  unfolding handle_subscribe_message
  subscription_eq =
      elim last
        as (λ l.
          handle_subscribe_message {Peer = Peer} membership session_id d (cursor l) docs sessions
          ≡ subscribe_at membership session_id d l docs sessions) [ none ↦ refl | some n ↦ refl ]

  -- With a session at hand.
  session_granted :
      (s : SyncSessionRecord)
      → HashMap.get session_id sessions ≡ some s
      → subscribe_denied {Peer = Peer} membership s.workspace_id d s.actor_user_id ≡ none
      → subscription ≡ (
          let r : SyncSessionStore × (WsMessage Peer ⊎ List (WsMessage Peer)) = (
            (track_subscription session_id d sessions).0,
            inr (build_state_sync_messages s.workspace_id d last docs),
          ) in
          r)
  session_granted s h granted =
      let facts = session_facts session_id d s sessions h in
      subscription_eq ∙ rw (facts.0, subscribe_at) (rw facts.1 (rw granted (rw facts.2 refl)))

  session_denied :
      (s : SyncSessionRecord) (denial : WsMessage Peer)
      → HashMap.get session_id sessions ≡ some s
      → subscribe_denied membership s.workspace_id d s.actor_user_id ≡ some denial
      → subscription ≡ (
          let r : SyncSessionStore × (WsMessage Peer ⊎ List (WsMessage Peer)) =
            (sessions, inl denial) in
          r)
  session_denied s denial h denied =
      let facts = session_facts session_id d s sessions h in
      subscription_eq ∙ rw (facts.0, subscribe_at) (rw facts.1 (rw denied refl))

  no_session :
      HashMap.get session_id sessions ≡ none
      → subscription ≡ (
          let r : SyncSessionStore × (WsMessage Peer ⊎ List (WsMessage Peer)) =
            (sessions, inl (session_invalid d)) in
          r)
  unfolding workspace_for_session
  no_session h = subscription_eq ∙ rw (h, subscribe_at) refl

  -- Subscribing with no sequence number, or with one that is not negative, succeeds if the session exists
  -- and its actor, if it has one, is a member of the workspace: the answer is the state of the document in that workspace after the client's sequence
  -- number, and the session is subscribed from then on.
  pub subscribe-grants :
      (s : SyncSessionRecord)
      → HashMap.get session_id sessions ≡ some s
      → MayRead membership s.workspace_id s.actor_user_id
      → (subscription.1 ≡ inr (build_state_sync_messages s.workspace_id d last docs))
        × (session_is_subscribed session_id d subscription.0 ≡ true)
  subscribe-grants s h m =
      let e =
        session_granted s h
          (MayRead-granted {Peer = Peer} membership s.workspace_id d s.actor_user_id m) in
      (
        ap (λ r. r.1) e,
        ap (λ r. session_is_subscribed session_id d r.0) e
            ∙ (session_facts session_id d s sessions h).3,
      )

  needs_member :
      ((messages : List (WsMessage Peer))
        → subscription.1 ≡ inr messages
        → (s : SyncSessionRecord) × (HashMap.get session_id sessions ≡ some s)
          × MayRead membership s.workspace_id s.actor_user_id)
      × ((refusal : WsMessage Peer) → subscription.1 ≡ inl refusal → subscription.0 ≡ sessions)
  needs_member = elim (Option-cases (HashMap.get session_id sessions)) [
    | inl gone ↦ (
      λ messages ok. absurd (let q = sym (ap (λ r. r.1) (no_session gone)) ∙ ok in cc q),
      λ refusal no. ap (λ r. r.0) (no_session gone),
    )
    | inr (s, h) ↦
        elim (Option-cases
          (subscribe_denied {Peer = Peer} membership s.workspace_id d s.actor_user_id)) [
            | inl granted ↦
                let e = session_granted s h granted in
                (
                  λ messages ok. (
                    s,
                    h,
                    granted-MayRead {Peer = Peer} membership s.workspace_id d s.actor_user_id
                        granted,
                  ),
                  λ refusal no. absurd (let q = sym (ap (λ r. r.1) e) ∙ no in cc q),
                )
            | inr (denial, denied) ↦
                let e = session_denied s denial h denied in
                (
                  λ messages ok. absurd (let q = sym (ap (λ r. r.1) e) ∙ ok in cc q),
                  λ refusal no. ap (λ r. r.0) e,
                )
          ]
  ]

-- The sequence number is not negative, if there is one.
abbrev pub IsCursor : Option ℤ → Type 0
IsCursor none = Unit
IsCursor (some (pos n)) = Unit
IsCursor (some (negsuc n)) = ⊥

-- Whatever sequence number a session subscribes with: subscribing succeeds only if that number is not
-- negative, the session exists, and its actor, if it has one, has a role in the workspace that may read;
-- when it is refused no session changes.
pub subscribe-needs_member :
    (Peer : Type 0) (membership : WorkspaceMembershipStore) (session_id d : Uuid) (last : Option ℤ)
    (docs : DocSyncStore) (sessions : SyncSessionStore)
    → ((messages : List (WsMessage Peer))
        → (handle_subscribe_message membership session_id d last docs sessions).1 ≡ inr messages
        → IsCursor last
          × ((s : SyncSessionRecord) × (HashMap.get session_id sessions ≡ some s)
              × MayRead membership s.workspace_id s.actor_user_id))
      × ((refusal : WsMessage Peer)
          → (handle_subscribe_message membership session_id d last docs sessions).1 ≡ inl refusal
          → (handle_subscribe_message {Peer = Peer} membership session_id d last docs sessions).0
            ≡ sessions)
unfolding handle_subscribe_message
subscribe-needs_member Peer membership session_id d none docs sessions =
    let h = needs_member Peer membership session_id d none docs sessions in
    (λ messages ok. (tt, h.0 messages ok), h.1)
subscribe-needs_member Peer membership session_id d (some (pos n)) docs sessions =
    let h = needs_member Peer membership session_id d (some n) docs sessions in
    (λ messages ok. (tt, h.0 messages ok), h.1)
subscribe-needs_member Peer membership session_id d (some (negsuc n)) docs sessions =
    (λ messages ok. absurd (cc ok), λ refusal no. refl)
