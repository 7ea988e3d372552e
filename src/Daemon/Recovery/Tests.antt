-- ===== src/Daemon/Recovery/Tests.antt =====
-- Recovery at a concrete snapshot and log, with documents that are the payloads given to them.
use scriptum.Prelude.{ℕ, false, Option, some, List, [], ◌∷◌, ◌++◌, ◌≡◌, refl, arith, All}
use scriptum.Prelude.Numbers.{pos}
use scriptum.Daemon.Security.{encrypt_at_rest, decrypt-encrypt}
use scriptum.Daemon.Sample.{plain, nonce, sealed, sealed_eq}
use scriptum.Daemon.SnapshotFile.{save_snapshot, header_of, raw}
use scriptum.Daemon.Wal.Replay.{Entry, frames, IsWritten}
use scriptum.Daemon.Recovery.{recover_document, recover-save}

abbrev log : List Entry
log = (sealed (1 ∷ []), 1 ∷ []) ∷ (sealed (2 ∷ 3 ∷ []), 2 ∷ 3 ∷ []) ∷ []

log-IsWritten : All (IsWritten plain) log
log-IsWritten = (
  (omega arith, decrypt-encrypt plain nonce (1 ∷ []) _ refl (sealed_eq (1 ∷ []))),
  ((omega arith, decrypt-encrypt plain nonce (2 ∷ 3 ∷ []) _ refl (sealed_eq (2 ∷ 3 ∷ []))), tt),
)

abbrev collect : List ℕ → List (List ℕ) → Option (List (List ℕ))
collect p s = some (p ∷ s)

abbrev one : List ℕ → Option (List (List ℕ))
one p = some (p ∷ [])

saved :
    save_snapshot plain nonce (pos 1) (9 ∷ []) ≡ some (header_of raw (pos 1) 1 ++ sealed (9 ∷ []))
unfolding save_snapshot encrypt_at_rest
saved = refl

-- The snapshot holds the first update of the log, so only the second is replayed.
recover-save_example :
    recover_document [] one collect plain
      (some (header_of raw (pos 1) 1 ++ sealed (9 ∷ [])))
      (some (frames log))
    ≡ some (
      record {
        doc = (2 ∷ 3 ∷ []) ∷ (9 ∷ []) ∷ [];
        snapshot_seq = 1;
        replayed_updates = 1;
        degraded = false;
      },
      some (frames log),
    )
recover-save_example =
    recover-save [] one collect plain nonce (9 ∷ []) _ 1 ((9 ∷ []) ∷ []) _ log refl (omega arith)
      saved refl log-IsWritten refl
