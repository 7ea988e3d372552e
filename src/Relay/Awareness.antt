-- ===== src/Relay/Awareness.antt =====
-- crates/relay/src/awareness/mod.rs, `AwarenessStore`: presence of the sessions in each document.
-- `Peer` stands for `serde_json::Value`; reading a peer's fields out of it is left out.
pub mod Laws
mod Tests
use scriptum.Prelude.{
  ℕ, Bool, true, false, Option, none, some, List, [], ◌∷◌, ◌++◌, if◌then◌else◌, ◌==◌, nat_eq,
  pair_eq, unwrap_or, length,
}
use scriptum.Prelude.HashMap
use scriptum.Prelude.HashMap.{HashMap}
use scriptum.Prelude.HashSet
use scriptum.Prelude.HashSet.{HashSet}
use scriptum.Prelude.Numbers.{Uuid}

abbrev pub is_empty {ℓ} : {A : Type ℓ} → List A → Bool
is_empty [] = true
is_empty (x ∷ xs) = false

-- The peers of each session.
abbrev pub DocState : Type 0 → Type 0
DocState Peer = HashMap Uuid (List Peer)

-- By workspace and document.
abbrev pub AwarenessStore : Type 0 → Type 0
AwarenessStore Peer = HashMap (Uuid × Uuid) (DocState Peer)

module _ {Peer : Type 0} where
  -- `doc_state.values().flatten()`
  pub all_peers : DocState Peer → List Peer
  all_peers [] = []
  all_peers ((session_id, peers) ∷ doc_state) = peers ++ all_peers doc_state

  pub all_peers_excluding : Uuid → DocState Peer → List Peer
  all_peers_excluding exclude_session [] = []
  all_peers_excluding exclude_session ((session_id, peers) ∷ doc_state) =
      (if session_id == exclude_session then [] else peers)
      ++ all_peers_excluding exclude_session doc_state

  -- `entry(key).or_default()`: the entry is made even if the session has no peers.
  pub update : Uuid → Uuid → Uuid → List Peer → AwarenessStore Peer → AwarenessStore Peer
  update workspace_id doc_id session_id peers state =
      let doc_state : DocState Peer = unwrap_or (HashMap.get (workspace_id, doc_id) state) [] in
      HashMap.insert (workspace_id, doc_id)
        (if is_empty peers
          then HashMap.remove session_id doc_state
          else HashMap.insert session_id peers doc_state)
        state

  -- The body of the loop of `remove_session`.
  pub remove_from_doc : Uuid → Uuid → Uuid → AwarenessStore Peer → AwarenessStore Peer
  remove_from_doc workspace_id doc_id session_id state =
      elim (HashMap.get (workspace_id, doc_id) state) [
        | none ↦ state
        | some doc_state ↦
            let left : DocState Peer = HashMap.remove session_id doc_state in
            if is_empty left
            then HashMap.remove (workspace_id, doc_id) state
            else HashMap.insert (workspace_id, doc_id) left state
      ]

  pub remove_session : Uuid → List Uuid → Uuid → AwarenessStore Peer → AwarenessStore Peer
  remove_session workspace_id [] session_id state = state
  remove_session workspace_id (doc_id ∷ doc_ids) session_id state =
      remove_session workspace_id doc_ids session_id
        (remove_from_doc workspace_id doc_id session_id state)

  pub aggregate : Uuid → Uuid → AwarenessStore Peer → List Peer
  unfolding all_peers
  aggregate workspace_id doc_id state = elim (HashMap.get (workspace_id, doc_id) state) [
    | none ↦ []
    | some doc_state ↦ all_peers doc_state
  ]

  pub aggregate_excluding : Uuid → Uuid → Uuid → AwarenessStore Peer → List Peer
  unfolding all_peers_excluding
  aggregate_excluding workspace_id doc_id exclude_session state =
      elim (HashMap.get (workspace_id, doc_id) state) [
        | none ↦ []
        | some doc_state ↦ all_peers_excluding exclude_session doc_state
      ]

  add_keys : DocState Peer → HashSet Uuid → HashSet Uuid
  add_keys [] sessions = sessions
  add_keys ((session_id, peers) ∷ doc_state) sessions =
      add_keys doc_state (HashSet.insert session_id sessions)

  workspace_sessions : Uuid → AwarenessStore Peer → HashSet Uuid → HashSet Uuid
  workspace_sessions workspace_id [] sessions = sessions
  workspace_sessions workspace_id ((k, doc_sessions) ∷ state) sessions =
      workspace_sessions workspace_id state
        (if k.0 == workspace_id then add_keys doc_sessions sessions else sessions)

  pub active_session_count : Uuid → AwarenessStore Peer → ℕ
  unfolding add_keys workspace_sessions
  active_session_count workspace_id state = length (workspace_sessions workspace_id state [])

  pub active_docs : Uuid → AwarenessStore Peer → List Uuid
  active_docs workspace_id [] = []
  active_docs workspace_id ((k, doc_state) ∷ state) =
      if k.0 == workspace_id
      then k.1 ∷ active_docs workspace_id state
      else active_docs workspace_id state
