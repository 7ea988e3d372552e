-- ===== src/Relay/Awareness/Laws.antt =====
-- crates/relay/src/awareness/mod.rs: what an update, a disconnect and a broadcast show of a session.
use scriptum.Prelude.{
  true, false, Option, none, some, List, [], ◌∷◌, ◌++◌, ◌≡◌, ◌&&◌, ◌⊎◌, refl, arith, inl, inr,
  Option-cases, ap, if◌then◌else◌, ◌==◌, nat_eq, pair_eq, ==→eq, Bool-cases,
}
use scriptum.Prelude.HashMap
use scriptum.Prelude.HashSet.{contains}
use scriptum.Prelude.HashMap.{get-insert, get-remove, get-insert_self}
use scriptum.Prelude.Numbers.{Uuid}
use scriptum.Relay.Awareness.{
  DocState, AwarenessStore, all_peers, all_peers_excluding, update, remove_from_doc, remove_session,
  aggregate, aggregate_excluding, is_empty,
}

module _ {Peer : Type 0} where
  excluding-remove :
      (session : Uuid) (s : DocState Peer)
      → all_peers_excluding session s ≡ all_peers (HashMap.remove session s)
  unfolding all_peers all_peers_excluding HashMap.remove
  excluding-remove session [] = refl
  excluding-remove session ((i, peers) ∷ s) = elim (Bool-cases (i == session)) [
    | inl same ↦ rw same (excluding-remove session s)
    | inr other ↦ rw other (ap (λ (r : List Peer). peers ++ r) (excluding-remove session s))
  ]

  -- What a broadcast that excludes a session shows is what the document shows once the session has
  -- withdrawn its presence.
  pub aggregate_excluding-update :
      (w d session : Uuid) (state : AwarenessStore Peer)
      → aggregate_excluding w d session state ≡ aggregate w d (update w d session [] state)
  unfolding update aggregate aggregate_excluding
  aggregate_excluding-update w d session state = elim (Option-cases (HashMap.get (w, d) state)) [
    | inl e ↦
        rw (e, aggregate_excluding) (rw (get-insert_self, aggregate) (excluding-remove session []))
    | inr (s, e) ↦
        rw (e, aggregate_excluding) (rw (get-insert_self, aggregate) (excluding-remove session s))
  ]

  -- The presence of a session in a document.
  abbrev pub presence : Uuid → Uuid → Uuid → AwarenessStore Peer → Option (List Peer)
  presence w d session state = elim (HashMap.get (w, d) state) [
    | none ↦ none
    | some s ↦ HashMap.get session s
  ]

  empty-presence :
      (s : DocState Peer) (session : Uuid) → is_empty s ≡ true → HashMap.get session s ≡ none
  unfolding HashMap.get
  empty-presence [] session h = refl
  empty-presence (x ∷ s) session h = cc h

  -- One document of a disconnect.
  presence-remove_from_doc :
      (w d session : Uuid) (j k : Uuid) (state : AwarenessStore Peer)
      → presence w j k (remove_from_doc w d session state) ≡ (
          if d == j
          then (if session == k then none else presence w j k state)
          else presence w j k state)
  unfolding remove_from_doc
  presence-remove_from_doc w d session j k state = elim (Option-cases (HashMap.get (w, d) state)) [
    | inl e ↦ rw (e, remove_from_doc) (absent (Bool-cases (d == j)) e)
    | inr (s, e) ↦
        rw (e, remove_from_doc)
          (ground (
            arith,
            e,
            get-remove (w, d) (w, j) state,
            get-insert (w, d) (w, j) (HashMap.remove session s) state,
            get-remove session k s,
            empty-presence (HashMap.remove session s) k,
            ap (λ (i : Uuid). HashMap.get (w, i) state),
          ))
  ]
    where
      absent :
          (d == j) ≡ true ⊎ (d == j) ≡ false
          → HashMap.get (w, d) state ≡ none
          → presence w j k state ≡ (
              if d == j
              then (if session == k then none else presence w j k state)
              else presence w j k state)
      absent (inl same) e =
          let gone : HashMap.get (w, j) state ≡ none = rw (==→eq d j same) at e in
          rw same (rw (gone, presence) (ground arith))
      absent (inr other) e = rw other refl

  -- After a disconnect of a session from a list of documents of its workspace, no listed document
  -- shows the session, and every other document, and every other session, shows what it did.
  pub presence-remove_session :
      (w session : Uuid) (docs : List Uuid) (j k : Uuid) (state : AwarenessStore Peer)
      → presence w j k (remove_session w docs session state)
        ≡ (if contains j docs && (session == k) then none else presence w j k state)
  unfolding remove_session contains
  presence-remove_session w session [] j k state = refl
  presence-remove_session w session (d ∷ docs) j k state =
      rw (presence-remove_session w session docs j k (remove_from_doc w d session state))
        (rw (presence-remove_from_doc w d session j k state) (ground (arith)))
