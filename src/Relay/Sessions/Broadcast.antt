-- ===== src/Relay/Sessions/Broadcast.antt =====
-- crates/relay/src/ws/session.rs, the broadcasts: who receives a message.
use scriptum.Prelude.{
  true, Option, none, some, List, [], ◌∷◌, ◌≡◌, ◌≢◌, ◌↔◌, refl, arith, ap, sym, ◌∙◌, inl, inr,
  Option-cases, In, Bool-cases, ◌==◌, nat_eq, if◌then◌else◌, ==_refl, ==_ne, ==→eq,
}
use scriptum.Prelude.HashMap
use scriptum.Prelude.HashMap.{Unique}
use scriptum.Prelude.HashSet
use scriptum.Prelude.Numbers.{Uuid}
use scriptum.Relay.Sessions.{
  SyncSessionRecord, SyncSessionStore, Channel, recipient, push_some, recipients_excluding,
}

-- What makes a session a recipient on a channel.
pub record Receives (w d : Uuid) (session : SyncSessionRecord) (c : Channel) : Type 0 where
  pub same_workspace : session.workspace_id ≡ w
  pub subscribed : HashSet.contains d session.subscriptions ≡ true
  pub channel : session.outbound ≡ some c

In-push :
    (x : Uuid × Channel) (o : Option (Uuid × Channel)) (rest : List (Uuid × Channel))
    → In x rest
    → In x (push_some o rest)
In-push x none rest m = m
In-push x (some r) rest m = inr m

module _ (w d ex : Uuid) where
  abbrev loop_body : Uuid → SyncSessionRecord → Option (Uuid × Channel)
  loop_body id s = if id == ex then none else recipient w d id s

  body-Receives :
      (id : Uuid) (s : SyncSessionRecord) (i : Uuid) (c : Channel)
      → loop_body id s ≡ some (i, c)
      → (i ≡ id) × (id ≢ ex) × Receives w d s c
  body-Receives id s i c h = (ground arith, ground arith, ground arith)

  Receives-body :
      (id : Uuid) (s : SyncSessionRecord) (c : Channel)
      → id ≢ ex
      → Receives w d s c
      → loop_body id s ≡ some (id, c)
  Receives-body id s c ne r = ground arith

  -- A session at the head of the map, and the recipients in the rest.
  abbrev Found : Uuid → Channel → SyncSessionStore → Type 0
  Found i c sessions =
      (session : SyncSessionRecord) × (HashMap.get i sessions ≡ some session)
      × (i ≢ ex)
      × Receives w d session c

  Found-later :
      (id : Uuid) (s : SyncSessionRecord) (sessions : SyncSessionStore) (i : Uuid) (c : Channel)
      → HashMap.get id sessions ≡ none
      → Found i c sessions
      → Found i c ((id, s) ∷ sessions)
  unfolding HashMap.get
  Found-later id s sessions i c fresh (session, e, ne, r) =
      (session, rw (==_ne id i (λ q. cc (ap (λ k. HashMap.get k sessions) q))) e, ne, r)

  recipients_sound :
      (sessions : SyncSessionStore) (i : Uuid) (c : Channel)
      → Unique sessions
      → In (i, c) (recipients_excluding w d ex sessions)
      → Found i c sessions
  unfolding recipients_excluding HashMap.get
  recipients_sound [] i c u m = absurd m
  recipients_sound ((id, s) ∷ sessions) i c u m = elim (Option-cases (loop_body id s)) [
    | inl skipped ↦
        Found-later id s sessions i c u.0 (recipients_sound sessions i c u.1 (rw skipped at m))
    | inr ((j, k), sent) ↦ elim (rw sent at m) [
      | inl here ↦
          let parts = body-Receives id s i c (sent ∙ ap some (sym here)) in
          (s, rw (parts.0, ==_refl id) refl, rw parts.0 parts.1, parts.2)
      | inr later ↦ Found-later id s sessions i c u.0 (recipients_sound sessions i c u.1 later)
    ]
  ]

  recipients_complete :
      (sessions : SyncSessionStore) (i : Uuid) (c : Channel)
      → Found i c sessions
      → In (i, c) (recipients_excluding w d ex sessions)
  unfolding recipients_excluding HashMap.get
  recipients_complete [] i c (session, e, ne, r) = absurd (cc e)
  recipients_complete ((id, s) ∷ sessions) i c (session, e, ne, r) = elim (Bool-cases (id == i)) [
    | inl same ↦
        let here : some s ≡ some session = rw same at e in
        let same_record : s ≡ session = cc here in
        let sent : loop_body id s ≡ some (id, c) =
          Receives-body id s c (λ q. ne (sym (==→eq id i same) ∙ q)) (rw same_record r) in
        rw sent
          (inl (ap (λ (k : Uuid). let p : Uuid × Channel = (k, c) in p) (sym (==→eq id i same))))
    | inr other ↦
        In-push (i, c) (loop_body id s) _
          (recipients_complete sessions i c (session, rw other at e, ne, r))
  ]

  -- A broadcast goes to exactly the sessions other than the excluded one that are of the workspace,
  -- are subscribed to the document and have an outbound channel, on that channel.
  pub recipients_excluding_iff :
      (sessions : SyncSessionStore) (i : Uuid) (c : Channel)
      → Unique sessions
      → In (i, c) (recipients_excluding w d ex sessions) ↔ (
          (session : SyncSessionRecord) × (HashMap.get i sessions ≡ some session)
          × (i ≢ ex)
          × Receives w d session c)
  recipients_excluding_iff sessions i c u =
      (recipients_sound sessions i c u, recipients_complete sessions i c)
