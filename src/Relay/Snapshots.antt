-- ===== src/Relay/Snapshots.antt =====
-- crates/relay/src/sync/snapshot.rs: SnapshotCompactor over the tables `yjs_snapshots` and
-- `yjs_update_log`. SQL failures are left out. Sequence numbers start at 0, so that differences of two
-- do not overflow. An interval of the policy always fits chrono's.
pub mod Plan
pub mod Retained
pub mod Lossless
mod Tests
use scriptum.Prelude.{
  ℕ, ◌+◌, ◌-◌, ◌≤◌, Bool, true, false, not, ◌&&◌, Option, none, some, List, [], ◌∷◌, ◌++◌, map,
  filter, take, length, any, get_or, min, max, ltb, leb, ◌==◌, nat_eq, is_some, if◌then◌else◌,
  String,
}
use scriptum.Prelude.Sort.{sort_by}
use scriptum.Prelude.Numbers.{Uuid, Instant, i64_max}

-- In nanoseconds.
abbrev pub snapshot_interval_updates : ℕ
snapshot_interval_updates = 1_000

abbrev pub snapshot_interval_minutes : ℕ
snapshot_interval_minutes = 10

abbrev pub snapshot_retain_count : ℕ
snapshot_retain_count = 2

abbrev pub default_large_snapshot_threshold_bytes : ℕ
default_large_snapshot_threshold_bytes = 262_144

pub record SnapshotPolicy : Type 0 where
  pub interval_updates : ℕ
  pub interval : ℕ

abbrev pub default_policy : SnapshotPolicy
default_policy = record { interval_updates = snapshot_interval_updates; interval = 600_000_000_000 }

-- `now` may be before `last_at`, and the difference negative then.
unfoldable pub should_snapshot : SnapshotPolicy → ℕ → ℕ → Instant → Instant → Bool
should_snapshot policy last_seq current_seq last_at now =
    if leb current_seq last_seq
    then false
    else if leb policy.interval_updates (current_seq - last_seq)
    then true
    else leb (last_at + policy.interval) now

pub record SnapshotCompactorConfig : Type 0 where
  pub policy : SnapshotPolicy
  pub retain_snapshots : ℕ
  pub large_snapshot_threshold_bytes : ℕ

abbrev pub default_config : SnapshotCompactorConfig
default_config = record {
  policy = default_policy;
  retain_snapshots = snapshot_retain_count;
  large_snapshot_threshold_bytes = default_large_snapshot_threshold_bytes;
}

pub record SnapshotCandidate : Type 0 where
  pub workspace_id : Uuid
  pub doc_id : Uuid
  pub snapshot_seq : ℕ
  pub payload : List ℕ
  pub now : Instant

pub data SnapshotSkipReason : Type 0 where
  stale_sequence : SnapshotSkipReason
  policy_not_satisfied : SnapshotSkipReason

pub record SnapshotPersistOutcome : Type 0 where
  pub snapshot_seq : ℕ
  pub uploaded_to_object_store : Bool
  pub deleted_snapshot_rows : ℕ
  pub deleted_update_rows : ℕ

-- `upload_failed`: the error of the object store, with the tables as they were.
pub data SnapshotWriteResult : Type 0 where
  skipped : SnapshotSkipReason → SnapshotWriteResult
  persisted : SnapshotPersistOutcome → SnapshotWriteResult
  upload_failed : SnapshotWriteResult

-- The tables.
pub record SnapshotRow : Type 0 where
  pub workspace_id : Uuid
  pub doc_id : Uuid
  pub snapshot_seq : ℕ
  pub payload : List ℕ
  pub created_at : Instant

pub record UpdateRow : Type 0 where
  pub workspace_id : Uuid
  pub doc_id : Uuid
  pub server_seq : ℕ
  pub payload : List ℕ

pub record Tables : Type 0 where
  pub snapshots : List SnapshotRow
  pub updates : List UpdateRow

pub record CompactionPlan : Type 0 where
  pub delete_snapshots_below_seq : Option ℕ
  pub delete_updates_at_or_below_seq : Option ℕ

abbrev pub descending : ℕ → ℕ → Bool
descending a b = leb b a

-- On the numbers sorted from the newest.
abbrev pub plan_of : List ℕ → ℕ → CompactionPlan
plan_of sorted retain_count =
    let oldest = get_or sorted (min (retain_count - 1) (length sorted - 1)) 0 in
    record {
      delete_snapshots_below_seq = some oldest;
      delete_updates_at_or_below_seq =
          if leb retain_count (length sorted) then some oldest else none;
    }

unfoldable pub build_compaction_plan : List ℕ → ℕ → CompactionPlan
build_compaction_plan [] retain = record {
  delete_snapshots_below_seq = none;
  delete_updates_at_or_below_seq = none;
}
build_compaction_plan (seq ∷ seqs) retain = plan_of (sort_by descending (seq ∷ seqs)) (max retain 1)

-- `WHERE workspace_id = $1 AND doc_id = $2`.
abbrev pub of_doc : Uuid → Uuid → SnapshotRow → Bool
of_doc workspace doc row = (row.workspace_id == workspace) && (row.doc_id == doc)

abbrev pub update_of_doc : Uuid → Uuid → UpdateRow → Bool
update_of_doc workspace doc row = (row.workspace_id == workspace) && (row.doc_id == doc)

-- `ORDER BY snapshot_seq DESC`.
abbrev pub newest_first : SnapshotRow → SnapshotRow → Bool
newest_first a b = descending a.snapshot_seq b.snapshot_seq

abbrev pub snapshots_of : Uuid → Uuid → List SnapshotRow → List SnapshotRow
snapshots_of workspace doc rows = sort_by newest_first (filter (of_doc workspace doc) rows)

abbrev pub first {ℓ} : {A : Type ℓ} → List A → Option A
first [] = none
first (x ∷ xs) = some x

-- Why the candidate is skipped.
abbrev pub skip_reason :
    SnapshotPolicy → SnapshotCandidate → Option SnapshotRow → Option SnapshotSkipReason
skip_reason policy candidate none = none
skip_reason policy candidate (some latest) =
    if leb candidate.snapshot_seq latest.snapshot_seq
    then some stale_sequence
    else if not (
        should_snapshot policy latest.snapshot_seq candidate.snapshot_seq latest.created_at
          candidate.now)
    then some policy_not_satisfied
    else none

-- `ON CONFLICT DO NOTHING`.
abbrev pub is_row : SnapshotCandidate → SnapshotRow → Bool
is_row candidate row =
    of_doc candidate.workspace_id candidate.doc_id row
    && (row.snapshot_seq == candidate.snapshot_seq)

abbrev pub row_of : SnapshotCandidate → Instant → SnapshotRow
row_of candidate created_at = record {
  workspace_id = candidate.workspace_id;
  doc_id = candidate.doc_id;
  snapshot_seq = candidate.snapshot_seq;
  payload = candidate.payload;
  created_at = created_at;
}

unfoldable pub insert_snapshot : SnapshotCandidate → Instant → List SnapshotRow → List SnapshotRow
insert_snapshot candidate created_at rows =
    if any (is_row candidate) rows then rows else rows ++ row_of candidate created_at ∷ []

-- The rows that the two deletions leave.
abbrev pub snapshot_stays : Uuid → Uuid → Option ℕ → SnapshotRow → Bool
snapshot_stays workspace doc none row = true
snapshot_stays workspace doc (some seq) row =
    not (of_doc workspace doc row && ltb row.snapshot_seq seq)

abbrev pub update_stays : Uuid → Uuid → Option ℕ → UpdateRow → Bool
update_stays workspace doc none row = true
update_stays workspace doc (some seq) row =
    not (update_of_doc workspace doc row && leb row.server_seq seq)

abbrev pub seq_of : SnapshotRow → ℕ
seq_of row = row.snapshot_seq

-- The sequence numbers of the newest snapshots.
abbrev pub retained_seqs : ℕ → Uuid → Uuid → List SnapshotRow → List ℕ
retained_seqs retain workspace doc rows =
    map seq_of (take (min (max retain 1) i64_max) (snapshots_of workspace doc rows))

-- The transaction. `created_at` is the clock of the database.
unfoldable pub compact :
    SnapshotCompactorConfig
    → SnapshotCandidate
    → Bool
    → Instant
    → Tables
    → Tables × SnapshotWriteResult
unfolding insert_snapshot build_compaction_plan
compact config candidate uploaded created_at tables =
    let workspace = candidate.workspace_id in
    let doc = candidate.doc_id in
    let rows = insert_snapshot candidate created_at tables.snapshots in
    let plan =
      build_compaction_plan (retained_seqs config.retain_snapshots workspace doc rows)
        config.retain_snapshots in
    let snapshots = filter (snapshot_stays workspace doc plan.delete_snapshots_below_seq) rows in
    let updates =
      filter (update_stays workspace doc plan.delete_updates_at_or_below_seq) tables.updates in
    (
      record { snapshots = snapshots; updates = updates },
      persisted (record {
        snapshot_seq = candidate.snapshot_seq;
        uploaded_to_object_store = uploaded;
        deleted_snapshot_rows = length rows - length snapshots;
        deleted_update_rows = length tables.updates - length updates;
      }),
    )

-- `put_snapshot` of the object store, `none` if there is no store; `false` is its failure. The key is
-- made of the identifiers.
abbrev pub ObjectStore : Type 0
ObjectStore = Option (Uuid → Uuid → ℕ → List ℕ → Bool)

abbrev pub should_upload_to_object_store : SnapshotCompactorConfig → ObjectStore → ℕ → Bool
should_upload_to_object_store config store payload_len =
    is_some store && leb config.large_snapshot_threshold_bytes payload_len

abbrev pub put_snapshot : ObjectStore → SnapshotCandidate → Bool
put_snapshot none candidate = true
put_snapshot (some put) candidate =
    put candidate.workspace_id candidate.doc_id candidate.snapshot_seq candidate.payload

-- After the decision to skip or not.
unfoldable pub decided :
    SnapshotCompactorConfig
    → ObjectStore
    → SnapshotCandidate
    → Instant
    → Tables
    → Option SnapshotSkipReason
    → Tables × SnapshotWriteResult
unfolding compact
decided config store candidate created_at tables (some reason) = (tables, skipped reason)
decided config store candidate created_at tables none =
    let uploads = should_upload_to_object_store config store (length candidate.payload) in
    if uploads && not (put_snapshot store candidate)
    then (tables, upload_failed)
    else compact config candidate uploads created_at tables

unfoldable pub maybe_snapshot_and_compact :
    SnapshotCompactorConfig
    → ObjectStore
    → SnapshotCandidate
    → Instant
    → Tables
    → Tables × SnapshotWriteResult
unfolding should_snapshot decided
maybe_snapshot_and_compact config store candidate created_at tables =
    decided config store candidate created_at tables (
      skip_reason config.policy candidate
        (first (snapshots_of candidate.workspace_id candidate.doc_id tables.snapshots)))
