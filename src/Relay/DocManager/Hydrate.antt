-- ===== src/Relay/DocManager/Hydrate.antt =====
-- crates/relay/src/sync/doc_manager.rs, `hydrate_document`: what a document is rebuilt from.
use scriptum.Prelude.{
  ℕ, ◌≤◌, ◌<◌, true, false, Option, none, some, List, [], ◌∷◌, ◌⊎◌, inl, inr, ◌≡◌, ◌≢◌, refl, arith,
  ap, ◌∙◌, sym, ltb, leb, lt→ltb, filter, filter-All, All, All-map, Bool-cases, Option-cases,
}
use mathlib.Core.List.{Perm}
use scriptum.Prelude.Sort.{
  insert_sorted, sort_by, sort_by_key, by_key, SortedBy, sort_by-perm, sort_by_key-SortedBy,
  All-sort_by, All-insert_sorted,
}
use scriptum.Prelude.Numbers.{Uuid}
use scriptum.Relay.DocManager.{
  Payload, StoredUpdate, HydratedDoc, DocManagerError, invalid_update_payload,
  invalid_snapshot_payload, apply_updates, StoredSnapshot, DocHistory, hydrate_from,
  hydrate_document,
}

-- Each sequence number is greater than those before it.
abbrev pub IsAscending : List StoredUpdate → Type 0
IsAscending [] = Unit
IsAscending (u ∷ updates) =
    All (λ (v : StoredUpdate). u.server_seq < v.server_seq) updates × IsAscending updates

abbrev pub after_seq : ℕ → List StoredUpdate → List StoredUpdate
after_seq n = filter (λ (u : StoredUpdate). ltb n u.server_seq)

after-All :
    (n m : ℕ) (updates : List StoredUpdate)
    → n ≤ m
    → All (λ (v : StoredUpdate). m < v.server_seq) updates
    → after_seq n updates ≡ updates
after-All n m updates h l =
    filter-All (λ (u : StoredUpdate). ltb n u.server_seq) updates
      (All-map (λ (v : StoredUpdate). m < v.server_seq) (λ v. ltb n v.server_seq ≡ true)
        (λ v k. lt→ltb n v.server_seq (omega arith)) updates l)

module _ {Doc : Type 0} (apply_update_payload : Doc → Payload → Option Doc) (w d : Uuid) where
  -- Every update is applied, in order, and the head is the number of the last one.
  abbrev pub apply_each : List StoredUpdate → Doc → ℕ → DocManagerError ⊎ HydratedDoc Doc
  apply_each [] doc head = inr (record { doc = doc; head_server_seq = head })
  apply_each (u ∷ updates) doc head = elim (apply_update_payload doc u.payload) [
    | none ↦ inl (invalid_update_payload w d u.server_seq)
    | some doc' ↦ apply_each updates doc' u.server_seq
  ]

  -- From a document at a head, the loop over ascending updates applies those beyond that head.
  updates-apply :
      (empty_doc : Doc) (updates : List StoredUpdate) (doc : Doc) (head : ℕ)
      → IsAscending updates
      → apply_updates empty_doc apply_update_payload w d updates doc head
        ≡ apply_each (after_seq head updates) doc head
  unfolding apply_updates
  updates-apply empty_doc [] doc head a = refl
  updates-apply empty_doc (u ∷ updates) doc head (l, a) =
      elim (Bool-cases (leb u.server_seq head)) [
        | inl old ↦
            let dropped : ltb head u.server_seq ≡ false = ground (arith, old) in
            rw (old, apply_updates) (rw dropped (updates-apply empty_doc updates doc head a))
        | inr new ↦
            let kept : ltb head u.server_seq ≡ true = ground (arith, new) in
            let same : after_seq u.server_seq updates ≡ after_seq head updates =
              after-All u.server_seq u.server_seq updates (omega arith) l
              ∙ sym (after-All head u.server_seq updates (ground (arith, new)) l) in
            rw (new, apply_updates)
              (rw kept (elim (Option-cases (apply_update_payload doc u.payload)) [
                | inl bad ↦ rw (bad, apply_each) refl
                | inr (doc', done) ↦
                    rw (done, apply_each)
                      (updates-apply empty_doc updates doc' u.server_seq a
                        ∙ ap (λ us. apply_each us doc' u.server_seq) same)
              ]))
      ]

-- No two updates have one number, which the key of the table sees to.
abbrev pub Distinct : List StoredUpdate → Type 0
Distinct [] = Unit
Distinct (u ∷ updates) =
    All (λ (v : StoredUpdate). u.server_seq ≢ v.server_seq) updates × Distinct updates

abbrev by_seq : List StoredUpdate → List StoredUpdate
by_seq = sort_by_key (λ (u : StoredUpdate). u.server_seq)

Distinct-insert :
    (u : StoredUpdate) (updates : List StoredUpdate)
    → All (λ (v : StoredUpdate). u.server_seq ≢ v.server_seq) updates
    → Distinct updates
    → Distinct (insert_sorted (by_key (λ (v : StoredUpdate). v.server_seq)) u updates)
unfolding insert_sorted
Distinct-insert u [] a h = (tt, tt)
Distinct-insert u (v ∷ updates) (ne, a) (b, h) = elim (Bool-cases (leb u.server_seq v.server_seq)) [
  | inl e ↦ rw e ((ne, a), (b, h))
  | inr e ↦ rw e (
    All-insert_sorted (by_key (λ (w : StoredUpdate). w.server_seq))
        (λ (w : StoredUpdate). v.server_seq ≢ w.server_seq) u updates (λ q. ne (sym q)) b,
    Distinct-insert u updates a h,
  )
]

Distinct-by_seq : (updates : List StoredUpdate) → Distinct updates → Distinct (by_seq updates)
unfolding sort_by
Distinct-by_seq [] h = tt
Distinct-by_seq (u ∷ updates) (a, h) =
    Distinct-insert u (by_seq updates)
      (All-sort_by (by_key (λ (v : StoredUpdate). v.server_seq))
        (λ (v : StoredUpdate). u.server_seq ≢ v.server_seq) updates a)
      (Distinct-by_seq updates h)

smaller :
    (u : StoredUpdate) (updates : List StoredUpdate)
    → All (λ (v : StoredUpdate). by_key (λ (w : StoredUpdate). w.server_seq) u v ≡ true) updates
    → All (λ (v : StoredUpdate). u.server_seq ≢ v.server_seq) updates
    → All (λ (v : StoredUpdate). u.server_seq < v.server_seq) updates
smaller u [] a b = tt
smaller u (v ∷ updates) (le, a) (ne, b) = (ground arith, smaller u updates a b)

sorted-IsAscending :
    (updates : List StoredUpdate)
    → SortedBy (λ (u : StoredUpdate). u.server_seq) updates
    → Distinct updates
    → IsAscending updates
sorted-IsAscending [] s h = tt
sorted-IsAscending (u ∷ updates) (a, s) (b, h) =
    (smaller u updates a b, sorted-IsAscending updates s h)

module _ {Doc : Type 0} (empty_doc : Doc) (apply_update_payload : Doc → Payload → Option Doc)
    (w d : Uuid) where
  -- What these updates make of a snapshot, or of the empty document if there is none: those beyond its
  -- number, one after the other.
  abbrev pub rebuilt : Option StoredSnapshot → List StoredUpdate → DocManagerError ⊎ HydratedDoc Doc
  rebuilt none updates = apply_each apply_update_payload w d (after_seq 0 updates) empty_doc 0
  rebuilt (some snapshot) updates = elim (apply_update_payload empty_doc snapshot.payload) [
    | none ↦ inl (invalid_snapshot_payload w d snapshot.snapshot_seq)
    | some doc ↦
        apply_each apply_update_payload w d (after_seq snapshot.snapshot_seq updates) doc
          snapshot.snapshot_seq
  ]

  from-rebuilt :
      (snapshot : Option StoredSnapshot) (updates : List StoredUpdate)
      → IsAscending updates
      → hydrate_from empty_doc apply_update_payload w d snapshot updates ≡ rebuilt snapshot updates
  from-rebuilt none updates a =
      updates-apply apply_update_payload w d empty_doc updates empty_doc 0 a
  from-rebuilt (some snapshot) updates a =
      elim (Option-cases (apply_update_payload empty_doc snapshot.payload)) [
        | inl bad ↦ rw (bad, hydrate_from, rebuilt) refl
        | inr (doc, done) ↦
            rw (done, hydrate_from, rebuilt)
              (updates-apply apply_update_payload w d empty_doc updates doc snapshot.snapshot_seq a)
      ]

  -- In whatever order the history has its updates, if no two have one number: from the snapshot, or from
  -- the empty document if there is none, hydration applies the updates beyond its number, each once and
  -- in the ascending order of their numbers, and no other; it fails with the first payload that cannot
  -- be decoded.
  pub hydrate-applies :
      (history : DocHistory)
      → Distinct history.updates
      → (updates : List StoredUpdate) × Perm updates history.updates
        × IsAscending updates
        × (hydrate_document empty_doc apply_update_payload w d history
            ≡ rebuilt history.snapshot updates)
  unfolding hydrate_document
  hydrate-applies history h =
      let updates = by_seq history.updates in
      let ascending =
        sorted-IsAscending updates
          (sort_by_key-SortedBy (λ (u : StoredUpdate). u.server_seq) history.updates)
          (Distinct-by_seq history.updates h) in
      (
        updates,
        sort_by-perm (by_key (λ (u : StoredUpdate). u.server_seq)) history.updates,
        ascending,
        from-rebuilt history.snapshot updates ascending,
      )
