-- ===== src/Relay/DocManager/Loaded.antt =====
-- crates/relay/src/sync/doc_manager.rs: the documents that are loaded.
use scriptum.Prelude.{
  ℕ, ◌-◌, ◌≤◌, ◌<◌, false, not, Option, some, ◌⊎◌, inl, inr, ◌≡◌, ◌≢◌, refl, arith, ◌∙◌, sym,
  Option-cases, nat_eq, pair_eq, ==_ne,
}
use scriptum.Prelude.HashMap
use scriptum.Prelude.HashMap.{Unique, get-insert, get-insert_self, get-retain, keep_if}
use scriptum.Prelude.Numbers.{Uuid, Instant, pair_key}
use scriptum.Relay.DocManager.{
  Payload, LoadedDoc, DocManager, DocManagerError, apply_to_loaded, apply_sequenced_update,
  should_unload, unload_inactive,
}

module _ {Doc : Type 0} (empty_doc : Doc) (apply_update_payload : Doc → Payload → Option Doc)
    (w d : Uuid) (base seq : ℕ) (payload : Payload) (now : Instant) where
  loaded_after :
      (l l' : LoadedDoc Doc)
      → apply_to_loaded empty_doc apply_update_payload w d base seq payload now l ≡ inr l'
      → (base ≤ l.head_server_seq)
        × (l.head_server_seq < seq)
        × (l'.head_server_seq ≡ seq)
        × (apply_update_payload l.doc payload ≡ some l'.doc)
        × (l'.subscribers ≡ l.subscribers)
  loaded_after l l' h = elim (Option-cases (apply_update_payload l.doc payload)) [
    | inl bad ↦ absurd (ground (arith, h, bad))
    | inr (doc, done) ↦ (
      ground (arith, h, done),
      ground (arith, h, done),
      ground (arith, h, done),
      ground (arith, h, done),
      ground (arith, h, done),
    )
  ]

  -- The document moved from a head below `seq`, and at `base` or beyond, to `seq`.
  abbrev pub IsAdvanced : DocManager Doc → DocManager Doc → Type 0
  IsAdvanced docs docs' =
      ((l : LoadedDoc Doc) × (l' : LoadedDoc Doc) × ((HashMap.get (w, d) docs ≡ some l)
          × (HashMap.get (w, d) docs' ≡ some l'))
        × ((base ≤ l.head_server_seq)
            × (l.head_server_seq < seq)
            × (l'.head_server_seq ≡ seq)
            × (apply_update_payload l.doc payload ≡ some l'.doc)
            × (l'.subscribers ≡ l.subscribers)))
      × ((i j : Uuid)
          → pair_key w d ≢ pair_key i j
          → HashMap.get (i, j) docs' ≡ HashMap.get (i, j) docs)

  -- A sequenced update is applied only to a loaded document whose head is at least its base and below
  -- its number; then the payload has been applied to the document, its head is that number, its
  -- subscribers are the same, and every other document is untouched.
  pub apply-advances :
      (docs docs' : DocManager Doc)
      → apply_sequenced_update empty_doc apply_update_payload w d base seq payload now docs
        ≡ inr docs'
      → IsAdvanced docs docs'
  unfolding apply_sequenced_update
  apply-advances docs docs' h = elim (Option-cases (HashMap.get (w, d) docs)) [
    | inl gone ↦ absurd (ground (arith, h, gone))
    | inr (l, found) ↦
        by_check l found (apply_to_loaded empty_doc apply_update_payload w d base seq payload now l)
          refl
  ]
    where
      by_check :
          (l : LoadedDoc Doc)
          → HashMap.get (w, d) docs ≡ some l
          → (r : DocManagerError ⊎ LoadedDoc Doc)
          → apply_to_loaded empty_doc apply_update_payload w d base seq payload now l ≡ r
          → IsAdvanced docs docs'
      by_check l found (inl error) e = absurd (ground (arith, h, found, e))
      by_check l found (inr l') e =
          let made : docs' ≡ HashMap.insert (w, d) l' docs =
            (let q : inr (HashMap.insert (w, d) l' docs) ≡ inr docs' =
                sym (rw (found, apply_sequenced_update) (rw e refl)) ∙ h in
              cc q) in
          (
            (l, l', (found, rw made (get-insert_self (w, d) l' docs)), loaded_after l l' e),
            λ i j other. rw made (
                get-insert (w, d) (i, j) l' docs
                ∙ rw (==_ne (pair_key w d) (pair_key i j) other) refl),
          )

module _ {Doc : Type 0} where
  -- A document with a subscriber, or one touched less than the time limit ago, is not unloaded.
  pub unload-keeps :
      (inactive_after : ℕ) (now : Instant) (docs : DocManager Doc) (w d : Uuid) (l : LoadedDoc Doc)
      → Unique docs
      → HashMap.get (w, d) docs ≡ some l
      → (0 < l.subscribers) ⊎ (now - l.last_touched < inactive_after)
      → HashMap.get (w, d) (unload_inactive inactive_after now docs).0 ≡ some l
  unfolding unload_inactive
  unload-keeps inactive_after now docs w d l u h active =
      let stays : should_unload inactive_after now l ≡ false = ground arith in
      get-retain (λ key loaded. not (should_unload inactive_after now loaded)) (w, d) docs u
      ∙ rw h (rw stays refl)
