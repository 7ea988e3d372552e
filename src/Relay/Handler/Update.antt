-- ===== src/Relay/Handler/Update.antt =====
-- crates/relay/src/ws/handler.rs, `handle_yjs_update_message`: who may write, and what is answered.
use scriptum.Prelude.{
  ℕ, String, true, false, none, some, ◌≡◌, ◌⊎◌, refl, sym, ap, ◌∙◌, arith, inl, inr, Bool-cases,
  Option-cases, nat_eq,
}
use scriptum.Prelude.Numbers.{Uuid, ℤ, pos, negsuc}
use scriptum.Prelude.HashMap
use scriptum.Common.Ws.{WsMessage, ack, yjs_update, error}
use scriptum.Relay.Sessions.{
  SyncSessionRecord, SyncSessionStore, workspace_for_session, session_is_subscribed,
  attribution_for_session,
}
use scriptum.Relay.DocSync.{
  DocSyncStore, UpdateAttribution, ApplyClientUpdateResult, applied, duplicate, rejected_base_seq,
  apply_client_update,
}
use scriptum.Relay.Handler.{
  YjsUpdateHandlingResult, update_result, update_at, handle_yjs_update_message, session_invalid,
}

-- The acknowledgement and the broadcast that an outcome of the store calls for.
abbrev pub Answers :
    {Peer : Type 0}
    → Uuid
    → Uuid
    → Uuid
    → String
    → ApplyClientUpdateResult
    → YjsUpdateHandlingResult Peer
    → Type 0
Answers d client update payload (applied n base) r =
    (r.ack_message ≡ ack d update n true)
    × (r.broadcast ≡ some (yjs_update d client update base payload))
Answers d client update payload (duplicate n) r =
    (r.ack_message ≡ ack d update n false) × (r.broadcast ≡ none)
Answers d client update payload (rejected_base_seq n) r = ⊥

result-Answers :
    {Peer : Type 0} (w d client update : Uuid) (payload : String)
    (outcome : ApplyClientUpdateResult) (r : YjsUpdateHandlingResult Peer)
    → update_result w d client update payload outcome ≡ inr r
    → (r.workspace_id ≡ w) × Answers d client update payload outcome r
result-Answers w d client update payload (applied n base) r h =
    (ground arith, (ground arith, ground arith))
result-Answers w d client update payload (duplicate n) r h =
    (ground arith, (ground arith, ground arith))
result-Answers w d client update payload (rejected_base_seq n) r h = absurd (cc h)

abbrev pub attribution_of : SyncSessionRecord → UpdateAttribution
attribution_of s = record { user_id = s.actor_user_id; agent_id = s.actor_agent_id }

module _ (Peer : Type 0) (session_id d client update : Uuid) (base : ℕ) (payload : String)
    (sessions : SyncSessionStore) (docs : DocSyncStore) where
  abbrev pub handling : DocSyncStore × (WsMessage Peer ⊎ YjsUpdateHandlingResult Peer)
  handling = handle_yjs_update_message session_id d client update (pos base) payload sessions docs

  -- The call of the store for a session.
  abbrev pub applied_for : SyncSessionRecord → DocSyncStore × ApplyClientUpdateResult
  applied_for s =
      let res =
        apply_client_update s.workspace_id d client update base payload (attribution_of s) docs in
      (res.0, res.1)

  unsubscribed :
      session_is_subscribed session_id d sessions ≡ false
      → (refusal : WsMessage Peer) × (handling ≡ (
          let r : DocSyncStore × (WsMessage Peer ⊎ YjsUpdateHandlingResult Peer) =
            (docs, inl refusal) in
          r))
  unfolding handle_yjs_update_message
  unsubscribed h = elim (Option-cases (workspace_for_session session_id sessions)) [
    | inl gone ↦ (session_invalid d, rw (gone, update_at) refl)
    | inr (w, known) ↦
        (error "SYNC_DOC_NOT_SUBSCRIBED" false (some d), rw (known, update_at) (rw h refl))
  ]

  workspace_known :
      (s : SyncSessionRecord)
      → HashMap.get session_id sessions ≡ some s
      → workspace_for_session session_id sessions ≡ some s.workspace_id
  unfolding workspace_for_session
  workspace_known s h = rw (h, workspace_for_session) refl

  attribution_known :
      (s : SyncSessionRecord)
      → HashMap.get session_id sessions ≡ some s
      → attribution_for_session session_id sessions ≡ some (attribution_of s)
  unfolding attribution_for_session
  attribution_known s h = rw (h, attribution_for_session) refl

  subscribed_call :
      (s : SyncSessionRecord)
      → HashMap.get session_id sessions ≡ some s
      → session_is_subscribed session_id d sessions ≡ true
      → handling ≡ (
          let r : DocSyncStore × (WsMessage Peer ⊎ YjsUpdateHandlingResult Peer) = (
            (applied_for s).0,
            update_result s.workspace_id d client update payload (applied_for s).1,
          ) in
          r)
  unfolding handle_yjs_update_message
  subscribed_call s h sub =
      let known = workspace_known s h in
      let named = attribution_known s h in rw (known, update_at) (rw sub (rw named refl))

  known_session :
      session_is_subscribed session_id d sessions ≡ true
      → (s : SyncSessionRecord) × (HashMap.get session_id sessions ≡ some s)
  unfolding session_is_subscribed
  known_session sub = elim (Option-cases (HashMap.get session_id sessions)) [
    | inl gone ↦ absurd (ground (arith, sub, gone))
    | inr (s, h) ↦ (s, h)
  ]

  accepted-Answers :
      (r : YjsUpdateHandlingResult Peer)
      → handling.1 ≡ inr r
      → (session_is_subscribed session_id d sessions ≡ true)
        × ((s : SyncSessionRecord) × (HashMap.get session_id sessions ≡ some s)
            × (handling.0 ≡ (applied_for s).0)
            × (r.workspace_id ≡ s.workspace_id)
            × Answers d client update payload (applied_for s).1 r)
  accepted-Answers r ok = elim (Bool-cases (session_is_subscribed session_id d sessions)) [
    | inl sub ↦
        let (s, h) = known_session sub in
        let e = subscribed_call s h sub in
        let answer =
          result-Answers s.workspace_id d client update payload (applied_for s).1 r
            (sym (ap (λ x. x.1) e) ∙ ok) in
        (sub, (s, h, ap (λ x. x.0) e, answer.0, answer.1))
    | inr out ↦
        let (refusal, e) = unsubscribed out in absurd (let q = sym (ap (λ x. x.1) e) ∙ ok in cc q)
  ]

  -- A session that is not subscribed to the document is refused, and no document changes.
  pub update-needs_subscription :
      session_is_subscribed session_id d sessions ≡ false
      → (refusal : WsMessage Peer) × (handling.1 ≡ inl refusal) × (handling.0 ≡ docs)
  update-needs_subscription out =
      let (refusal, e) = unsubscribed out in (refusal, ap (λ x. x.1) e, ap (λ x. x.0) e)

-- Whatever base an update has: if it is accepted, its base is not negative, and it comes from a session
-- that is subscribed to the document. It was given to the store in the session's workspace and under its
-- actor; if the store applied it, it is acknowledged as applied and broadcast under the number that the
-- store gave, and if the store knew it, it is acknowledged as not applied and not broadcast.
pub update-Answers :
    (Peer : Type 0) (session_id d client update : Uuid) (base : ℤ) (payload : String)
    (sessions : SyncSessionStore) (docs : DocSyncStore) (r : YjsUpdateHandlingResult Peer)
    → (handle_yjs_update_message session_id d client update base payload sessions docs).1 ≡ inr r
    → (session_is_subscribed session_id d sessions ≡ true)
      × ((n : ℕ) × (base ≡ pos n)
          × ((s : SyncSessionRecord) × (HashMap.get session_id sessions ≡ some s)
              × ((handle_yjs_update_message {Peer = Peer} session_id d client update base payload
                    sessions docs).0
                  ≡ (applied_for Peer session_id d client update n payload sessions docs s).0)
              × (r.workspace_id ≡ s.workspace_id)
              × Answers d client update payload
                  (applied_for Peer session_id d client update n payload sessions docs s).1
                  r))
unfolding handle_yjs_update_message
update-Answers Peer session_id d client update (pos n) payload sessions docs r ok =
    let h = accepted-Answers Peer session_id d client update n payload sessions docs r ok in
    (h.0, (n, refl, h.1))
update-Answers Peer session_id d client update (negsuc n) payload sessions docs r ok = cc
