-- ===== src/Relay/DocSync/CatchUp.antt =====
-- crates/relay/src/ws/session.rs, `build_state_sync_messages`: what a client that subscribes with
-- its last sequence number is sent.
use scriptum.Prelude.{
  ℕ, ◌≤◌, ◌<◌, false, Option, none, some, List, [], ◌∷◌, ◌++◌, ◌≡◌, ◌⊎◌, refl, arith, inl, inr,
  Bool-cases, All, All-map, In, pair_eq, nat_eq, unwrap_or, ltb, lt→ltb, ltb→lt, filter, ap, true,
  subst, filter-append, filter-none,
}
use mathlib.Core.List.{map-append}
use scriptum.Prelude.Numbers.{Uuid}
use scriptum.Common.Ws.{WsMessage, snapshot}
use scriptum.Relay.DocSync.{
  DocSyncState, DocUpdateState, DocSnapshotState, state_messages, messages_after, messages_from,
  needs_snapshot, update_message,
}
use scriptum.Relay.DocSync.Invariant.{IsValid}

module _ (Peer : Type 0) (d : Uuid) where
  -- One more update at the end of the log is one more message at the end, for every cursor below it.
  messages_after-snoc :
      (cursor : ℕ) (us : List DocUpdateState) (u : DocUpdateState)
      → cursor < u.server_seq
      → messages_after {Peer = Peer} d cursor (us ++ u ∷ [])
        ≡ messages_after d cursor us ++ update_message d u ∷ []
  messages_after-snoc cursor us u h =
      rw (filter-append (λ v. ltb cursor v.server_seq) us (u ∷ []), lt→ltb _ _ h)
        (map-append (update_message d) (filter (λ v. ltb cursor v.server_seq) us) (u ∷ []))

  messages_from-snoc :
      (last : Option ℕ) (snap : Option DocSnapshotState) (us : List DocUpdateState)
      (u : DocUpdateState)
      → unwrap_or last 0 < u.server_seq
      → ((x : DocSnapshotState) → snap ≡ some x → x.snapshot_seq < u.server_seq)
      → messages_from {Peer = Peer} d last snap (us ++ u ∷ [])
        ≡ messages_from d last snap us ++ update_message d u ∷ []
  messages_from-snoc last none us u h b = messages_after-snoc _ us u h
  messages_from-snoc last (some snap) us u h b = elim (Bool-cases (needs_snapshot last snap)) [
    | inl missing ↦ rw missing (
        ap (◌∷◌ (snapshot d snap.snapshot_seq snap.payload_b64))
          (messages_after-snoc snap.snapshot_seq us u (b snap refl)))
    | inr there ↦ rw there (messages_after-snoc _ us u h)
  ]

  -- A client whose cursor does not pass the head, and one with no cursor, is sent after a logged
  -- update exactly what it was sent before, and then that update: an update that is appended with a
  -- number above the head is never missed, and nothing else changes.
  pub messages-append :
      (last : Option ℕ) (s t : DocSyncState) (u : DocUpdateState)
      → IsValid s
      → unwrap_or last 0 ≤ s.head_server_seq
      → s.head_server_seq < u.server_seq
      → t.updates ≡ s.updates ++ u ∷ []
      → t.snapshot ≡ s.snapshot
      → state_messages {Peer = Peer} d last t ≡ state_messages d last s ++ update_message d u ∷ []
  unfolding state_messages
  messages-append last s t u v synced above logged same =
      rw (same, logged)
        (messages_from-snoc last s.snapshot s.updates u (omega arith)
          (λ x e. omega (arith, v.snapshot_below x e)))

  filter_above :
      (head : ℕ) (us : List DocUpdateState)
      → All (λ (u : DocUpdateState). u.server_seq ≤ head) us
      → filter (λ (u : DocUpdateState). ltb head u.server_seq) us ≡ []
  filter_above head us h =
      filter-none (λ (u : DocUpdateState). ltb head u.server_seq) us
        (All-map _ _ (λ w k. ground arith) us h)

  nothing_after :
      (head : ℕ) (snap : Option DocSnapshotState) (us : List DocUpdateState)
      → All (λ (u : DocUpdateState). u.server_seq ≤ head) us
      → ((x : DocSnapshotState) → snap ≡ some x → x.snapshot_seq ≤ head)
      → messages_from {Peer = Peer} d (some head) snap us ≡ []
  nothing_after head none us h b = rw (filter_above head us h) refl
  nothing_after head (some snap) us h b =
      let there : ltb head snap.snapshot_seq ≡ false = ground (arith, b snap refl) in
      rw (there, filter_above head us h) refl

  -- A client at the head is sent nothing.
  pub messages_at_head :
      (s : DocSyncState)
      → IsValid s
      → state_messages {Peer = Peer} d (some s.head_server_seq) s ≡ []
  unfolding state_messages
  messages_at_head s v =
      nothing_after s.head_server_seq s.snapshot s.updates v.below_head v.snapshot_below

  In-messages :
      (cursor : ℕ) (us : List DocUpdateState) (u : DocUpdateState)
      → In u us
      → cursor < u.server_seq
      → In (update_message {Peer = Peer} d u) (messages_after d cursor us)
  In-messages cursor (x ∷ us) u m h = elim m [
    | inl e ↦ rw (← e, lt→ltb _ _ h) (inl refl)
    | inr r ↦ elim (Bool-cases (ltb cursor x.server_seq)) [
      | inl kept ↦ rw kept (inr (In-messages cursor us u r h))
      | inr gone ↦ rw gone (In-messages cursor us u r h)
    ]
  ]
  In-messages cursor [] u m h = absurd m

  -- The update reaches the client: as a message of its own, or under a snapshot that is sent and whose
  -- number is not below the update's.
  abbrev pub Reaches : Option ℕ → DocSyncState → DocUpdateState → Type 0
  Reaches last s u =
      In (update_message {Peer = Peer} d u) (state_messages d last s)
      ⊎ ((x : DocSnapshotState) × (s.snapshot ≡ some x)
          × (u.server_seq ≤ x.snapshot_seq)
          × In (snapshot d x.snapshot_seq x.payload_b64) (state_messages {Peer = Peer} d last s))

  -- The message has what the client lacks: an update above its cursor and above any snapshot, or the
  -- snapshot, which the client without a cursor or with a lower one lacks.
  abbrev pub Lacked : Option ℕ → DocSyncState → WsMessage Peer → Type 0
  Lacked last s m =
      ((u : DocUpdateState) × In u s.updates
        × (unwrap_or last 0 < u.server_seq)
        × ((x : DocSnapshotState) → s.snapshot ≡ some x → x.snapshot_seq < u.server_seq)
        × (m ≡ update_message d u))
      ⊎ ((x : DocSnapshotState) × (s.snapshot ≡ some x)
          × ((last ≡ none) ⊎ (unwrap_or last 0 < x.snapshot_seq))
          × (m ≡ snapshot d x.snapshot_seq x.payload_b64))

  updates_reach :
      (last : Option ℕ) (s : DocSyncState) (u : DocUpdateState)
      → In u s.updates
      → unwrap_or last 0 < u.server_seq
      → Reaches last s u
  unfolding state_messages
  updates_reach last s u m h = covered s.snapshot refl
    where
      covered :
          (o : Option DocSnapshotState)
          → s.snapshot ≡ o
          → In (update_message {Peer = Peer} d u) (messages_from d last o s.updates)
            ⊎ ((x : DocSnapshotState) × (s.snapshot ≡ some x)
                × (u.server_seq ≤ x.snapshot_seq)
                × In
                    (snapshot d x.snapshot_seq x.payload_b64)
                    (messages_from {Peer = Peer} d last o s.updates))
      covered none e = inl (In-messages _ s.updates u m h)
      covered (some x) e = elim (Bool-cases (needs_snapshot last x)) [
        | inr there ↦ rw there (inl (In-messages _ s.updates u m h))
        | inl missing ↦ rw missing (elim (Bool-cases (ltb x.snapshot_seq u.server_seq)) [
          | inl above ↦ inl (inr (In-messages _ s.updates u m (ltb→lt _ _ above)))
          | inr under ↦ inr (x, e, ground arith, inl refl)
        ])
      ]

  messages_after-logged :
      (cursor : ℕ) (us : List DocUpdateState) (m : WsMessage Peer)
      → In m (messages_after d cursor us)
      → (u : DocUpdateState) × In u us × (cursor < u.server_seq) × (m ≡ update_message d u)
  messages_after-logged cursor [] m h = absurd h
  messages_after-logged cursor (x ∷ us) m h = elim (Bool-cases (ltb cursor x.server_seq)) [
    | inl kept ↦ elim (rw kept at h) [
      | inl e ↦ (x, inl refl, ltb→lt _ _ kept, e)
      | inr r ↦ let (u, i, lt, e) = messages_after-logged cursor us m r in (u, inr i, lt, e)
    ]
    | inr gone ↦
        let (u, i, lt, e) = messages_after-logged cursor us m (rw gone at h) in (u, inr i, lt, e)
  ]

  unsnapped_after :
      (last : Option ℕ) (x : DocSnapshotState) (n : ℕ)
      → needs_snapshot last x ≡ false
      → unwrap_or last 0 < n
      → x.snapshot_seq < n
  unsnapped_after none x n e lt = cc
  unsnapped_after (some m) x n e lt = ground (arith, e)

  needed :
      (last : Option ℕ) (x : DocSnapshotState)
      → needs_snapshot last x ≡ true
      → (last ≡ none) ⊎ (unwrap_or last 0 < x.snapshot_seq)
  needed none x e = inl refl
  needed (some m) x e = inr (ltb→lt _ _ e)

  cursor_below :
      (last : Option ℕ) (x : DocSnapshotState) (n : ℕ)
      → needs_snapshot last x ≡ true
      → x.snapshot_seq < n
      → unwrap_or last 0 < n
  cursor_below none x n e lt = omega arith
  cursor_below (some m) x n e lt = ground (arith, e)

  messages_from-Lacked :
      (last : Option ℕ) (s : DocSyncState) (m : WsMessage Peer) (o : Option DocSnapshotState)
      → s.snapshot ≡ o
      → In m (messages_from d last o s.updates)
      → Lacked last s m
  messages_from-Lacked last s m none e h =
      let (u, i, lt, same) = messages_after-logged _ s.updates m h in
      inl (u, i, lt, (λ x f. cc), same)
  messages_from-Lacked last s m (some x) e h = elim (Bool-cases (needs_snapshot last x)) [
    | inl missing ↦ elim (rw missing at h) [
      | inl q ↦ inr (x, e, needed last x missing, q)
      | inr r ↦
          let (u, i, lt, same) = messages_after-logged _ s.updates m r in
          inl (u, i, cursor_below last x u.server_seq missing lt, only_snapshot u lt, same)
    ]
    | inr there ↦
        let (u, i, lt, same) = messages_after-logged _ s.updates m (rw there at h) in
        inl (u, i, lt, only_snapshot u (unsnapped_after last x u.server_seq there lt), same)
  ]
    where
      only_snapshot :
          (u : DocUpdateState)
          → x.snapshot_seq < u.server_seq
          → (y : DocSnapshotState) → s.snapshot ≡ some y
          → y.snapshot_seq < u.server_seq
      only_snapshot u lt y f =
          let same : x ≡ y = cc in
          subst (λ (z : DocSnapshotState). z.snapshot_seq < u.server_seq) same lt

  -- A client that catches up from a sequence number, or from none, is sent what it lacks and nothing
  -- else. Every logged update above its cursor (0 if it has none) reaches it: as a message of its own, or
  -- under a snapshot that is sent and whose number is not below the update's. Every message that it is
  -- sent is a logged update above its cursor and above the snapshot, or a snapshot above its cursor
  -- (any snapshot if it has none).
  pub messages_complete :
      (last : Option ℕ) (s : DocSyncState)
      → ((u : DocUpdateState) → In u s.updates → unwrap_or last 0 < u.server_seq → Reaches last s u)
        × ((m : WsMessage Peer) → In m (state_messages d last s) → Lacked last s m)
  unfolding state_messages
  messages_complete last s =
      (λ u. updates_reach last s u, λ m h. messages_from-Lacked last s m s.snapshot refl h)
