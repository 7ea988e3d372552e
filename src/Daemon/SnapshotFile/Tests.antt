-- ===== src/Daemon/SnapshotFile/Tests.antt =====
-- Snapshot files at concrete payloads.
use scriptum.Prelude.{ℕ, some, List, [], ◌∷◌, ◌++◌, ◌≡◌, refl, arith, replicate}
use scriptum.Prelude.Numbers.{pos}
use scriptum.Daemon.Security.{encrypt_at_rest}
use scriptum.Daemon.Sample.{plain, nonce, sealed}
use scriptum.Daemon.SnapshotFile.{
  rle, rle_compress, encode_payload, save_snapshot, load_snapshot, loaded, header_of,
}
use scriptum.Daemon.SnapshotFile.Laws.{load-save}

abbrev payload : List ℕ
payload = replicate 5 7 ++ replicate 4 8

compressed : rle_compress payload ≡ 5 ∷ 7 ∷ 4 ∷ 8 ∷ []
unfolding rle_compress
compressed = refl

-- A run ends at 255 bytes.
long_run : rle_compress (replicate 300 1) ≡ 255 ∷ 1 ∷ 45 ∷ 1 ∷ []
unfolding rle_compress
long_run = refl

saved :
    save_snapshot plain nonce (pos 12) payload
    ≡ some (header_of rle (pos 12) 9 ++ sealed (5 ∷ 7 ∷ 4 ∷ 8 ∷ []))
unfolding save_snapshot encrypt_at_rest
saved = refl

load-save_example :
    load_snapshot plain (some (header_of rle (pos 12) 9 ++ sealed (5 ∷ 7 ∷ 4 ∷ 8 ∷ [])))
    ≡ loaded (record { snapshot_seq = pos 12; payload = payload; codec = rle })
unfolding encode_payload
load-save_example = load-save plain nonce payload _ (pos 12) refl (omega arith) saved
