-- ===== src/Daemon/Recovery.antt =====
-- crates/daemon/src/store/recovery.rs, `recover_document`: a document from its snapshot file and its
-- log. `Doc` is a document of yrs, with its empty document, `from_state` and `apply_update` as
-- parameters. The walk over the directories is left out.
mod Tests
use scriptum.Prelude.{
  ℕ, zero, suc, ◌+◌, ◌-◌, ◌≤◌, ◌<◌, max, Bool, true, false, Option, none, some, List, [], ◌∷◌, ◌++◌,
  ◌≡◌, refl, sym, ap, ◌∙◌, arith, inl, inr, length, drop, All, append-nil, Option-cases,
}
use scriptum.Prelude.Numbers.{ℤ, pos, negsuc, IsI64}
use scriptum.Daemon.Security.{Cipher, nonce_bytes}
use scriptum.Daemon.SnapshotFile.{
  SnapshotRecord, load_snapshot, missing, loaded, refused, save_snapshot, encode_payload,
}
use scriptum.Daemon.SnapshotFile.Laws.{load-save}
use scriptum.Daemon.Wal.{
  WalReplaySummary, ReplayResult, replayed, update_failed, out_of_fuel, replay_from_frame,
  read_frame, end_of_file,
}
use scriptum.Daemon.Wal.Frames.{read-nil}
use scriptum.Daemon.Wal.Replay.{
  Entry, frames, IsWritten, updates_of, apply_all, then_finish, replay-recovers,
}

pub record RecoveredDoc (Doc : Type 0) : Type 0 where
  pub doc : Doc
  pub snapshot_seq : ℕ
  pub replayed_updates : ℕ
  pub degraded : Bool

-- `snapshot_seq.max(0)`.
abbrev pub at_least_zero : ℤ → ℕ
at_least_zero (pos n) = n
at_least_zero (negsuc n) = 0

module _ {Doc : Type 0} (new : Doc) (from_state : List ℕ → Option Doc)
    (apply_update : List ℕ → Doc → Option Doc) (cipher : Cipher) where
  -- The document and the sequence number of the snapshot; `none` for an error.
  unfoldable pub snapshot_state : Option (List ℕ) → Option (Doc × ℕ)
  snapshot_state snapshot_file = elim (load_snapshot cipher snapshot_file) [
    | missing ↦ some (new, 0)
    | loaded snapshot ↦ elim (from_state snapshot.payload) [
      | none ↦ none
      | some doc ↦ some (doc, at_least_zero snapshot.snapshot_seq)
    ]
    | refused error ↦ none
  ]

  -- The replay, with the log as it is afterwards.
  abbrev pub recovered_from :
      Doc → ℕ → Option (List ℕ) → Option (RecoveredDoc Doc × Option (List ℕ))
  recovered_from doc snapshot_seq none = some (
    record { doc = doc; snapshot_seq = snapshot_seq; replayed_updates = 0; degraded = false },
    none,
  )
  recovered_from doc snapshot_seq (some wal) =
      elim (replay_from_frame cipher apply_update snapshot_seq wal doc) [
        | replayed doc' summary wal' ↦ some (
          record {
            doc = doc';
            snapshot_seq = snapshot_seq;
            replayed_updates = summary.applied;
            degraded = summary.checksum_failed;
          },
          some wal',
        )
        | update_failed ↦ none
        | out_of_fuel ↦ none
      ]

  unfoldable pub recover_document :
      Option (List ℕ) → Option (List ℕ) → Option (RecoveredDoc Doc × Option (List ℕ))
  unfolding snapshot_state
  recover_document snapshot_file wal = elim (snapshot_state snapshot_file) [
    | none ↦ none
    | some start ↦ recovered_from start.0 start.1 wal
  ]

  -- A document that was saved as a snapshot at frame `seq` of its log is recovered: it is the state of
  -- the snapshot with the updates of the log from that frame on applied in order. It is not degraded,
  -- and the log is unchanged.
  pub recover-save :
      (nonce payload file : List ℕ) (seq : ℕ) (start doc : Doc) (log : List Entry)
      → length nonce ≡ nonce_bytes
      → IsI64 (pos seq)
      → save_snapshot cipher nonce (pos seq) payload ≡ some file
      → from_state payload ≡ some start
      → All (IsWritten cipher) log
      → apply_all apply_update (updates_of (drop seq log)) start ≡ some doc
      → recover_document (some file) (some (frames log))
        ≡ some (
          record {
            doc = doc;
            snapshot_seq = seq;
            replayed_updates = length log - seq;
            degraded = false;
          },
          some (frames log),
        )
  unfolding recover_document
  recover-save nonce payload file seq start doc log n i saved state w applied =
      let from_snapshot : snapshot_state (some file) ≡ some (start, seq) =
        rw (load-save cipher nonce payload file (pos seq) n i saved, snapshot_state)
          (rw state refl) in
      let whole =
        replay-recovers cipher apply_update seq end_of_file [] log start (λ p len q. absurd (cc q))
          (read-nil cipher) w in
      let replay : replay_from_frame cipher apply_update seq (frames log) start
          ≡ replayed doc
              (record {
                applied = length log - seq;
                valid_frames = length log;
                truncated = false;
                checksum_failed = false;
              })
              (frames log) =
        ap (λ f. replay_from_frame cipher apply_update seq f start) (sym (append-nil (frames log)))
        ∙ (whole ∙ rw applied refl) in
      rw (from_snapshot, recover_document) (rw (replay, recovered_from) refl)
