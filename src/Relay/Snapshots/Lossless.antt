-- ===== src/Relay/Snapshots/Lossless.antt =====
-- What compaction deletes is in every snapshot that it leaves.
use scriptum.Prelude.{
  ℕ, ◌≡◌, refl, Bool, true, not, ◌&&◌, ◌⊎◌, inl, inr, Option, none, some, List, [], ◌∷◌, filter,
  length, ltb, leb, nat_eq, max, In, arith, Bool-cases,
}
use scriptum.Prelude.Numbers.{Uuid, Instant}
use scriptum.Prelude.Sort.{sort_by}
use scriptum.Relay.Snapshots.{
  SnapshotRow, UpdateRow, Tables, CompactionPlan, SnapshotCandidate, SnapshotCompactorConfig,
  build_compaction_plan, plan_of, compact, insert_snapshot, snapshot_stays, update_stays,
  update_of_doc, retained_seqs, descending, maybe_snapshot_and_compact, decided, skip_reason, first,
  snapshots_of, ObjectStore, put_snapshot, should_upload_to_object_store, SnapshotSkipReason,
}

-- The updates that a reader of a snapshot still has to apply.
abbrev pub is_after : SnapshotRow → UpdateRow → Bool
is_after snapshot row =
    update_of_doc snapshot.workspace_id snapshot.doc_id row
    && ltb snapshot.snapshot_seq row.server_seq

abbrev pub updates_after : SnapshotRow → List UpdateRow → List UpdateRow
updates_after snapshot = filter (is_after snapshot)

-- A plan deletes updates only up to where it keeps snapshots from.
abbrev Fits : CompactionPlan → Type 0
Fits plan =
    (plan.delete_updates_at_or_below_seq ≡ none)
    ⊎ (plan.delete_updates_at_or_below_seq ≡ plan.delete_snapshots_below_seq)

plan_of-Fits : (sorted : List ℕ) (count : ℕ) → Fits (plan_of sorted count)
plan_of-Fits sorted count = elim (Bool-cases (leb count (length sorted))) [
  | inl e ↦ rw e (inr refl)
  | inr e ↦ rw e (inl refl)
]

plan-Fits : (seqs : List ℕ) (retain : ℕ) → Fits (build_compaction_plan seqs retain)
unfolding build_compaction_plan
plan-Fits [] retain = inl refl
plan-Fits (seq ∷ seqs) retain = plan_of-Fits (sort_by descending (seq ∷ seqs)) (max retain 1)

filter-filter {ℓ} :
    {A : Type ℓ} (p q : A → Bool)
    → ((x : A) → p x ≡ true → q x ≡ true)
    → (xs : List A) → filter p (filter q xs) ≡ filter p xs
filter-filter p q h [] = refl
filter-filter p q h (x ∷ xs) = ground (arith, filter-filter p q h xs, h x)

In-filter : {A : Type 0} (p : A → Bool) (a : A) (xs : List A) → In a (filter p xs) → p a ≡ true
In-filter p a [] m = absurd m
In-filter p a (x ∷ xs) m = elim (Bool-cases (p x)) [
  | inl e ↦ elim (let z = rw e at m in z) [ inl s ↦ rw s e | inr r ↦ In-filter p a xs r ]
  | inr e ↦ In-filter p a xs (rw e at m)
]

-- On the number from which both deletions keep.
kept_after :
    (workspace doc seq : ℕ) (s : SnapshotRow) (u : UpdateRow)
    → snapshot_stays workspace doc (some seq) s ≡ true
    → is_after s u ≡ true
    → update_stays workspace doc (some seq) u ≡ true
kept_after workspace doc seq s u stays after = ground arith

stays_after :
    (workspace doc : Uuid) (below upto : Option ℕ) (s : SnapshotRow) (u : UpdateRow)
    → (upto ≡ none) ⊎ (upto ≡ below)
    → snapshot_stays workspace doc below s ≡ true
    → is_after s u ≡ true
    → update_stays workspace doc upto u ≡ true
stays_after workspace doc below none s u fits stays after = refl
stays_after workspace doc none (some seq) s u (inl e) stays after = cc
stays_after workspace doc none (some seq) s u (inr e) stays after = cc
stays_after workspace doc (some k) (some seq) s u (inl e) stays after = cc
stays_after workspace doc (some k) (some seq) s u (inr e) stays after =
    let same : seq ≡ k = cc in rw same (kept_after workspace doc k s u stays after)

compact-lossless :
    (config : SnapshotCompactorConfig) (candidate : SnapshotCandidate) (uploaded : Bool)
    (created_at : Instant) (tables : Tables) (s : SnapshotRow)
    → In s (compact config candidate uploaded created_at tables).0.snapshots
    → updates_after s (compact config candidate uploaded created_at tables).0.updates
      ≡ updates_after s tables.updates
unfolding compact
compact-lossless config candidate uploaded created_at tables s m =
    let w = candidate.workspace_id in
    let d = candidate.doc_id in
    let rows = insert_snapshot candidate created_at tables.snapshots in
    let seqs = retained_seqs config.retain_snapshots w d rows in
    let plan = build_compaction_plan seqs config.retain_snapshots in
    let stays = In-filter (snapshot_stays w d plan.delete_snapshots_below_seq) s rows m in
    filter-filter (is_after s) (update_stays w d plan.delete_updates_at_or_below_seq)
      (λ u after.
        stays_after w d plan.delete_snapshots_below_seq plan.delete_updates_at_or_below_seq s u
          (plan-Fits seqs config.retain_snapshots) stays after)
      tables.updates

decided-lossless :
    (config : SnapshotCompactorConfig) (store : ObjectStore) (candidate : SnapshotCandidate)
    (created_at : Instant) (tables : Tables) (s : SnapshotRow) (reason : Option SnapshotSkipReason)
    → In s (decided config store candidate created_at tables reason).0.snapshots
    → updates_after s (decided config store candidate created_at tables reason).0.updates
      ≡ updates_after s tables.updates
unfolding decided
decided-lossless config store candidate created_at tables s (some reason) m = refl
decided-lossless config store candidate created_at tables s none m =
    let uploads = should_upload_to_object_store config store (length candidate.payload) in
    elim (Bool-cases (uploads && not (put_snapshot store candidate))) [
      | inl e ↦ rw e refl
      | inr e ↦ rw e (compact-lossless config candidate uploads created_at tables s (rw e at m))
    ]

-- Whatever a run of the compactor deletes, and also if it skips the candidate or fails to upload it, a
-- reader that starts from any snapshot left in the table, of any document, still finds all the updates
-- of the document after that snapshot.
pub maybe_compact_lossless :
    (config : SnapshotCompactorConfig) (store : ObjectStore) (candidate : SnapshotCandidate)
    (created_at : Instant) (tables : Tables) (s : SnapshotRow)
    → In s (maybe_snapshot_and_compact config store candidate created_at tables).0.snapshots
    → updates_after s
        (maybe_snapshot_and_compact config store candidate created_at tables).0.updates
      ≡ updates_after s tables.updates
unfolding maybe_snapshot_and_compact
maybe_compact_lossless config store candidate created_at tables s =
    decided-lossless config store candidate created_at tables s (
      skip_reason config.policy candidate
        (first (snapshots_of candidate.workspace_id candidate.doc_id tables.snapshots)))
