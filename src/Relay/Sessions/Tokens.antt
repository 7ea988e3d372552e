-- ===== src/Relay/Sessions/Tokens.antt =====
-- crates/relay/src/ws/session.rs, `validate_session_token`: when a session and a resume are accepted.
use scriptum.Prelude.{
  ◌+◌, ◌*◌, ◌≤◌, String, Bool, true, Option, none, some, ◌≡◌, ◌≢◌, ◌↔◌, refl, arith, inl, inr,
  Option-cases, nat_eq, string_eq,
}
use text.Mathlib.TextEquality.{eq_iff}
use scriptum.Prelude.HashMap
use scriptum.Prelude.HashMap.{get-insert_self}
use scriptum.Prelude.Numbers.{Uuid, Instant}
use scriptum.Relay.Sessions.{
  SyncSessionRecord, SyncSessionStore, SessionTokenValidation, valid, validate_record,
  validate_session_token, minute, resume_token_ttl_minutes,
}

module _ (token next : String) (resume : Option String) (checked_at now : Instant)
    (session : SyncSessionRecord) where
  accepted_record :
      (validate_record token resume checked_at now next session).1
        ≡ valid true next (now + resume_token_ttl_minutes * minute)
      → (session.session_token ≡ token)
        × (checked_at ≤ session.expires_at)
        × (resume ≡ some session.resume_token)
        × (now ≤ session.resume_expires_at)
  unfolding validate_record
  accepted_record h = (
    ground (arith, eq_iff session.session_token token),
    ground arith,
    presented resume h,
    ground arith,
  )
    where
      presented :
          (r : Option String)
          → (validate_record token r checked_at now next session).1
            ≡ valid true next (now + resume_token_ttl_minutes * minute)
          → r ≡ some session.resume_token
      presented none e = ground arith
      presented (some t) e = ground (arith, eq_iff t session.resume_token)

  record_accepted :
      session.session_token ≡ token
      → checked_at ≤ session.expires_at
      → resume ≡ some session.resume_token
      → now ≤ session.resume_expires_at
      → (validate_record token resume checked_at now next session).1
        ≡ valid true next (now + resume_token_ttl_minutes * minute)
  unfolding validate_record
  record_accepted p q r s = rw r (
      ground (
        arith,
        eq_iff session.session_token token,
        eq_iff session.resume_token session.resume_token,
      ))

module _ (session_id : Uuid) (token next : String) (resume : Option String)
    (checked_at now : Instant) (sessions : SyncSessionStore) where
  abbrev pub validation : SyncSessionStore × SessionTokenValidation
  validation = validate_session_token session_id token resume checked_at now next sessions

  -- A resume is accepted exactly if the session exists, the session token is its token and has not
  -- expired at the first reading of the clock, and the resume token presented is the stored one and
  -- has not expired at the second.
  pub resume-accepted_iff :
      (validation.1 ≡ valid true next (now + resume_token_ttl_minutes * minute)) ↔ (
        (session : SyncSessionRecord) × (HashMap.get session_id sessions ≡ some session)
        × (session.session_token ≡ token)
        × (checked_at ≤ session.expires_at)
        × (resume ≡ some session.resume_token)
        × (now ≤ session.resume_expires_at))
  unfolding validate_session_token
  resume-accepted_iff = (
    λ h. elim (Option-cases (HashMap.get session_id sessions)) [
      | inl gone ↦ absurd (cc (h, gone))
      | inr (session, found) ↦
          let parts = accepted_record token next resume checked_at now session (ground arith) in
          (session, found, parts.0, parts.1, parts.2, parts.3)
    ],
    λ h.
        rw (h.1, validate_session_token)
          (record_accepted token next resume checked_at now h.0 h.2 h.3 h.4 h.5),
  )

  -- After a successful validation the session holds the fresh token.
  pub validation-renews :
      (accepted : Bool) (t : String) (e : Instant)
      → validation.1 ≡ valid accepted t e
      → (session : SyncSessionRecord) × (HashMap.get session_id validation.0 ≡ some session)
        × (session.resume_token ≡ next)
  unfolding validate_session_token validate_record
  validation-renews accepted t e ok = elim (Option-cases (HashMap.get session_id sessions)) [
    | inl gone ↦ absurd (cc (ok, gone))
    | inr (session, found) ↦ (
      record session {
        resume_token = next;
        resume_expires_at = now + resume_token_ttl_minutes * minute;
      },
      ground (
        arith,
        get-insert_self session_id
            (record session {
              resume_token = next;
              resume_expires_at = now + resume_token_ttl_minutes * minute;
            })
            sessions,
      ),
      refl,
    )
  ]

module _ (session_id : Uuid) (token next : String) (resume : Option String)
    (checked_at now : Instant) (sessions : SyncSessionStore) where
  -- A resume token serves once: after a validation that succeeds with a fresh token, presenting any
  -- other resume token, the one just used among them, is not accepted, whatever the session token,
  -- the times and the next token are.
  pub resume_once :
      (accepted : Bool) (t : String) (e : Instant) (token' next' old : String)
      (checked_at' now' : Instant)
      → (validate_session_token session_id token resume checked_at now next sessions).1
        ≡ valid accepted t e
      → old ≢ next
      → (validate_session_token session_id token'
          (some old)
          checked_at'
          now'
          next'
          (validate_session_token session_id token resume checked_at now next sessions).0).1
        ≢ valid true next' (now' + resume_token_ttl_minutes * minute)
  resume_once accepted t e token' next' old checked_at' now' ok other h =
      let store = validate_session_token session_id token resume checked_at now next sessions in
      let renewed =
        validation-renews session_id token next resume checked_at now sessions accepted t e ok in
      let again =
        (resume-accepted_iff session_id token' next' (some old) checked_at' now' store.0).0 h in
      other (stored_eq renewed.1 again.1 again.4 renewed.2)
    where
      stored_eq :
          {o : Option SyncSessionRecord} {a b : SyncSessionRecord}
          → o ≡ some a
          → o ≡ some b
          → some old ≡ some b.resume_token
          → a.resume_token ≡ next
          → old ≡ next
      stored_eq p q r u = cc
