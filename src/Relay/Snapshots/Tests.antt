-- ===== src/Relay/Snapshots/Tests.antt =====
-- A compaction of concrete tables.
use scriptum.Prelude.{ℕ, none, false, [], ◌∷◌, ◌≡◌, refl, inl, arith, nat_eq, take, max}
use scriptum.Relay.Snapshots.{
  SnapshotRow, UpdateRow, Tables, SnapshotCandidate, default_config, compact,
  maybe_snapshot_and_compact, snapshots_of, insert_snapshot,
}
use scriptum.Relay.Snapshots.Lossless.{updates_after, maybe_compact_lossless}
use scriptum.Relay.Snapshots.Retained.{compact-retains}
use scriptum.Prelude.Sort.{sort_by, insert_sorted}

abbrev snapshot : ℕ → SnapshotRow
snapshot seq = record {
  workspace_id = 1;
  doc_id = 2;
  snapshot_seq = seq;
  payload = [];
  created_at = 0;
}

abbrev update : ℕ → UpdateRow
update seq = record { workspace_id = 1; doc_id = 2; server_seq = seq; payload = seq ∷ [] }

abbrev tables : Tables
tables = record {
  snapshots = snapshot 1000 ∷ snapshot 2000 ∷ [];
  updates = update 900 ∷ update 1900 ∷ update 2500 ∷ update 3100 ∷ [];
}

abbrev candidate : SnapshotCandidate
candidate = record { workspace_id = 1; doc_id = 2; snapshot_seq = 3000; payload = []; now = 10 }

maybe_compact_lossless_example :
    updates_after
      (snapshot 2000)
      (maybe_snapshot_and_compact default_config none candidate 0 tables).0.updates
    ≡ updates_after (snapshot 2000) tables.updates
unfolding maybe_snapshot_and_compact sort_by insert_sorted
maybe_compact_lossless_example =
    maybe_compact_lossless default_config none candidate 0 tables (snapshot 2000) (inl refl)

-- The oldest of three snapshots goes, and with it what the second has.
compacted :
    (maybe_snapshot_and_compact default_config none candidate 0 tables).0.updates
    ≡ update 2500 ∷ update 3100 ∷ []
unfolding maybe_snapshot_and_compact sort_by insert_sorted
compacted = refl

compact-retains_example :
    snapshots_of 1 2 (compact default_config candidate false 0 tables).0.snapshots
    ≡ take (max 2 1) (snapshots_of 1 2 (insert_snapshot candidate 0 tables.snapshots))
compact-retains_example =
    compact-retains default_config candidate false 0 tables ((omega arith, tt), (tt, tt))
      (omega arith)
