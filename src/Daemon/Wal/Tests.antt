-- ===== src/Daemon/Wal/Tests.antt =====
-- The write-ahead log at concrete files, under the cipher of Sample.
use scriptum.Prelude.{
  ℕ, true, false, Option, some, List, [], ◌∷◌, ◌++◌, ◌≡◌, ◌≢◌, refl, arith, length, take, replicate,
  All, length-append, length-replicate, ltb, lt→ltb, if◌then◌else◌, ◌^◌,
}
use scriptum.Prelude.Bytes.{to_le_bytes}
use scriptum.Daemon.Security.{encrypt_at_rest, decrypt-encrypt}
use scriptum.Daemon.Sample.{plain, nonce, sealed, sealed_eq, tag}
use scriptum.Daemon.Wal.{frame_of, torn, append_update, replay_from_frame, replayed, out_of_fuel}
use scriptum.Daemon.Wal.Frames.{read-take}
use scriptum.Daemon.Wal.Replay.{Entry, frames, IsWritten, replay-recovers}
use scriptum.Daemon.Wal.Append.{crash-recovers, oversized-lost, replay-returns, cut_off}

abbrev log : List Entry
log = (sealed (1 ∷ []), 1 ∷ []) ∷ (sealed (2 ∷ 3 ∷ []), 2 ∷ 3 ∷ []) ∷ []

log-IsWritten : All (IsWritten plain) log
log-IsWritten = (
  (omega arith, decrypt-encrypt plain nonce (1 ∷ []) _ refl (sealed_eq (1 ∷ []))),
  ((omega arith, decrypt-encrypt plain nonce (2 ∷ 3 ∷ []) _ refl (sealed_eq (2 ∷ 3 ∷ []))), tt),
)

-- A client that keeps the updates, the last one first.
abbrev collect : List ℕ → List (List ℕ) → Option (List (List ℕ))
collect p s = some (p ∷ s)

replay-recovers_example :
    replay_from_frame plain collect 1 (frames log ++ take 11 (frame_of (sealed (5 ∷ [])))) []
    ≡ replayed
        ((2 ∷ 3 ∷ []) ∷ [])
        (record { applied = 1; valid_frames = 2; truncated = true; checksum_failed = false })
        (frames log)
unfolding frame_of to_le_bytes
replay-recovers_example =
    replay-recovers plain collect 1 torn _ log [] (λ p len q. absurd (cc q))
      (read-take plain (sealed (5 ∷ [])) 11 (omega arith) (omega arith) (omega arith)) log-IsWritten

appended_file :
    append_update plain nonce (5 ∷ []) (frames log)
    ≡ some (frames log ++ frame_of (sealed (5 ∷ [])))
unfolding encrypt_at_rest append_update
appended_file = refl

crash-recovers_example :
    replay_from_frame plain collect 0 (take 115 (frames log ++ frame_of (sealed (5 ∷ [])))) []
    ≡ cut_off plain collect 0 log []
unfolding frame_of to_le_bytes
crash-recovers_example =
    crash-recovers plain collect 0 log nonce (5 ∷ []) _ 115 [] refl (omega arith) log-IsWritten
      appended_file (omega arith) (omega arith)

replay-returns_example : replay_from_frame plain collect 0 (1 ∷ 2 ∷ []) [] ≢ out_of_fuel
replay-returns_example = replay-returns plain collect 0 (1 ∷ 2 ∷ []) []

long_list : (n : ℕ) → (xs : List ℕ) × (length xs ≡ n)
long_list n = (replicate n 7, length-replicate n 7)

abbrev huge : List ℕ
huge = (long_list 1048700).0

length-huge : length huge ≡ 1048700
length-huge = (long_list 1048700).1

huge_file :
    append_update plain nonce huge (frames log) ≡ some (frames log ++ frame_of (sealed huge))
unfolding append_update
huge_file =
    let n : ltb (length (sealed huge)) (2 ^ 32) ≡ true =
      lt→ltb _ _ (omega (arith, length-huge, length-append huge tag)) in
    rw (sealed_eq huge, append_update) (rw (n, if◌then◌else◌) refl)

oversized-lost_example :
    replay_from_frame plain collect 0
      (frames log ++ frame_of (sealed huge) ++ frame_of (sealed (5 ∷ [])))
      []
    ≡ cut_off plain collect 0 log []
oversized-lost_example =
    oversized-lost plain collect 0 log nonce huge _ (frame_of (sealed (5 ∷ []))) (sealed huge) []
      log-IsWritten (sealed_eq huge) (omega (arith, length-huge, length-append huge tag)) huge_file
