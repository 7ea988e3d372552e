-- ===== src/Relay/DocManager.antt =====
-- crates/relay/src/sync/doc_manager.rs: the documents that the relay holds in memory. `Doc` is a
-- document of the library yrs, with its empty document and `apply_update_payload`, which fails on a
-- payload that cannot be decoded, as parameters. The rows of the history are what the database gives.
pub mod Hydrate
pub mod Loaded
mod Tests
use scriptum.Prelude.{
  ℕ, ◌+◌, ◌-◌, ◌≤◌, ◌<◌, Bool, true, false, not, ◌&&◌, Option, none, some, List, [], ◌∷◌, ◌⊎◌, inl,
  inr, if◌then◌else◌, ltb, leb, ◌==◌, nat_eq, pair_eq,
}
use scriptum.Prelude.HashMap
use scriptum.Prelude.HashMap.{HashMap}
use scriptum.Prelude.Sort.{sort_by_key}
use scriptum.Prelude.Numbers.{Uuid, Instant}

-- In nanoseconds.
abbrev pub default_inactive_after : ℕ
default_inactive_after = 300_000_000_000

abbrev pub Payload : Type 0
Payload = List ℕ

pub record StoredSnapshot : Type 0 where
  pub snapshot_seq : ℕ
  pub payload : Payload

pub record StoredUpdate : Type 0 where
  pub server_seq : ℕ
  pub payload : Payload

pub record DocHistory : Type 0 where
  pub snapshot : Option StoredSnapshot
  pub updates : List StoredUpdate

-- The failures of the database are not modelled.
pub data DocManagerError : Type 0 where
  invalid_snapshot_payload : Uuid → Uuid → ℕ → DocManagerError
  invalid_update_payload : Uuid → Uuid → ℕ → DocManagerError
  document_not_loaded : Uuid → Uuid → DocManagerError
  base_server_seq_ahead : ℕ → ℕ → DocManagerError
  non_monotonic_server_seq : ℕ → ℕ → DocManagerError

pub record LoadedDoc (Doc : Type 0) : Type 0 where
  pub doc : Doc
  pub head_server_seq : ℕ
  pub subscribers : ℕ
  pub last_touched : Instant

pub record HydratedDoc (Doc : Type 0) : Type 0 where
  pub doc : Doc
  pub head_server_seq : ℕ

abbrev pub DocManager : Type 0 → Type 0
DocManager Doc = HashMap (Uuid × Uuid) (LoadedDoc Doc)

module _ {Doc : Type 0} (empty_doc : Doc) (apply_update_payload : Doc → Payload → Option Doc)
    (workspace_id doc_id : Uuid) where
  -- The loop over the sorted updates.
  unfoldable pub apply_updates : List StoredUpdate → Doc → ℕ → DocManagerError ⊎ HydratedDoc Doc
  apply_updates [] doc head_server_seq =
      inr (record { doc = doc; head_server_seq = head_server_seq })
  apply_updates (update ∷ updates) doc head_server_seq =
      elim (leb update.server_seq head_server_seq) [
        | true ↦ apply_updates updates doc head_server_seq
        | false ↦ elim (apply_update_payload doc update.payload) [
          | none ↦ inl (invalid_update_payload workspace_id doc_id update.server_seq)
          | some doc' ↦ apply_updates updates doc' update.server_seq
        ]
      ]

  abbrev pub sorted_updates : DocHistory → List StoredUpdate
  sorted_updates history =
      sort_by_key (λ (update : StoredUpdate). update.server_seq) history.updates

  abbrev pub hydrate_from :
      Option StoredSnapshot → List StoredUpdate → DocManagerError ⊎ HydratedDoc Doc
  hydrate_from none updates = apply_updates updates empty_doc 0
  hydrate_from (some snapshot) updates = elim (apply_update_payload empty_doc snapshot.payload) [
    | none ↦ inl (invalid_snapshot_payload workspace_id doc_id snapshot.snapshot_seq)
    | some doc ↦ apply_updates updates doc snapshot.snapshot_seq
  ]

  unfoldable pub hydrate_document : DocHistory → DocManagerError ⊎ HydratedDoc Doc
  unfolding apply_updates
  hydrate_document history = hydrate_from history.snapshot (sorted_updates history)

  abbrev pub one_more : Instant → LoadedDoc Doc → LoadedDoc Doc
  one_more now loaded = record loaded { subscribers = loaded.subscribers + 1; last_touched = now }

  -- The second half of `subscribe`, under the second lock: another task may have loaded the document.
  abbrev pub insert_hydrated : HydratedDoc Doc → Instant → DocManager Doc → DocManager Doc × ℕ
  insert_hydrated hydrated now docs = elim (HashMap.get (workspace_id, doc_id) docs) [
    | some existing ↦ (
      HashMap.insert (workspace_id, doc_id) (one_more now existing) docs,
      existing.head_server_seq,
    )
    | none ↦ (
      HashMap.insert (workspace_id, doc_id)
          (record {
            doc = hydrated.doc;
            head_server_seq = hydrated.head_server_seq;
            subscribers = 1;
            last_touched = now;
          })
          docs,
      hydrated.head_server_seq,
    )
  ]

  -- `docs'` is the map when the second lock is taken: it is `docs`, unless another task ran in between.
  pub subscribe :
      DocHistory
      → Instant
      → DocManager Doc
      → DocManager Doc
      → DocManagerError ⊎ (DocManager Doc × ℕ)
  unfolding hydrate_document
  subscribe history now docs docs' = elim (HashMap.get (workspace_id, doc_id) docs) [
    | some existing ↦ inr (
      HashMap.insert (workspace_id, doc_id) (one_more now existing) docs,
      existing.head_server_seq,
    )
    | none ↦ elim (hydrate_document history) [
      | inl error ↦ inl error
      | inr hydrated ↦ inr (insert_hydrated hydrated now docs')
    ]
  ]

  pub unsubscribe : Instant → DocManager Doc → DocManager Doc × Bool
  unsubscribe now docs = elim (HashMap.get (workspace_id, doc_id) docs) [
    | none ↦ (docs, false)
    | some loaded ↦ (
      HashMap.insert (workspace_id, doc_id)
          (record loaded { subscribers = loaded.subscribers - 1; last_touched = now }) docs,
      true,
    )
  ]

  -- The checks, on the document.
  abbrev pub apply_to_loaded :
      ℕ → ℕ → Payload → Instant → LoadedDoc Doc → DocManagerError ⊎ LoadedDoc Doc
  apply_to_loaded base_server_seq server_seq payload now loaded =
      if ltb loaded.head_server_seq base_server_seq
      then inl (base_server_seq_ahead base_server_seq loaded.head_server_seq)
      else (if leb server_seq loaded.head_server_seq
          then inl (non_monotonic_server_seq server_seq loaded.head_server_seq)
          else (elim (apply_update_payload loaded.doc payload) [
            | none ↦ inl (invalid_update_payload workspace_id doc_id server_seq)
            | some doc ↦
                inr (record loaded { doc = doc; head_server_seq = server_seq; last_touched = now })
          ]))

  -- An error leaves the map as it was.
  pub apply_sequenced_update :
      ℕ → ℕ → Payload → Instant → DocManager Doc → DocManagerError ⊎ DocManager Doc
  apply_sequenced_update base_server_seq server_seq payload now docs =
      elim (HashMap.get (workspace_id, doc_id) docs) [
        | none ↦ inl (document_not_loaded workspace_id doc_id)
        | some loaded ↦ elim (apply_to_loaded base_server_seq server_seq payload now loaded) [
          | inl error ↦ inl error
          | inr loaded' ↦ inr (HashMap.insert (workspace_id, doc_id) loaded' docs)
        ]
      ]

module _ {Doc : Type 0} where
  -- `duration_since` of a later instant is 0.
  abbrev pub should_unload : ℕ → Instant → LoadedDoc Doc → Bool
  should_unload inactive_after now loaded =
      loaded.subscribers == 0 && leb inactive_after (now - loaded.last_touched)

  abbrev pub unloaded_keys : ℕ → Instant → DocManager Doc → List (Uuid × Uuid)
  unloaded_keys inactive_after now [] = []
  unloaded_keys inactive_after now ((key, loaded) ∷ docs) =
      if should_unload inactive_after now loaded
      then key ∷ unloaded_keys inactive_after now docs
      else unloaded_keys inactive_after now docs

  pub unload_inactive : ℕ → Instant → DocManager Doc → DocManager Doc × List (Uuid × Uuid)
  unload_inactive inactive_after now docs = (
    HashMap.retain (λ key loaded. not (should_unload inactive_after now loaded)) docs,
    unloaded_keys inactive_after now docs,
  )

  pub head_server_seq_of : Uuid → Uuid → DocManager Doc → Option ℕ
  head_server_seq_of workspace_id doc_id docs = elim (HashMap.get (workspace_id, doc_id) docs) [
    | none ↦ none
    | some loaded ↦ some loaded.head_server_seq
  ]
