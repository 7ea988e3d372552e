-- ===== src/Daemon/SnapshotFile.antt =====
-- crates/daemon/src/store/snapshot.rs: the snapshot file of a document, as its bytes. Writing a
-- temporary file and renaming it replaces the content at once; other failures of the file system are
-- left out.
pub mod Runs
pub mod Laws
mod Tests
use scriptum.Prelude.{
  ℕ, zero, suc, ◌+◌, ◌-◌, ◌*◌, ◌%◌, ◌^◌, ◌≤◌, ◌<◌, Bool, true, false, not, ◌||◌, ◌&&◌, ◌⊎◌, inl,
  inr, Option, none, some, List, [], ◌∷◌, ◌++◌, length, take, drop, replicate, get_or,
  if◌then◌else◌, ltb, leb, ◌==◌, nat_eq,
}
use scriptum.Prelude.Bytes.{to_le_bytes, from_le_bytes}
use scriptum.Prelude.Numbers.{ℤ, pos, negsuc, to_u64, from_u64, Instant}
use scriptum.Daemon.Security.{Cipher, starts_with, encrypt_at_rest, decrypt_at_rest}

-- `SNP1`.
abbrev pub snapshot_magic : List ℕ
snapshot_magic = 83 ∷ 78 ∷ 80 ∷ 49 ∷ []

abbrev pub snapshot_version : ℕ
snapshot_version = 1

abbrev pub snapshot_header_bytes : ℕ
snapshot_header_bytes = 18

abbrev pub snapshot_interval_updates : ℕ
snapshot_interval_updates = 1_000

-- In nanoseconds.
abbrev pub snapshot_interval : ℕ
snapshot_interval = 600_000_000_000

pub data SnapshotCodec : Type 0 where
  raw : SnapshotCodec
  rle : SnapshotCodec

abbrev pub codec_byte : SnapshotCodec → ℕ
codec_byte raw = 0
codec_byte rle = 1

pub codec_from_u8 : ℕ → Option SnapshotCodec
codec_from_u8 value = if value == 0 then some raw else (if value == 1 then some rle else none)

pub record SnapshotRecord : Type 0 where
  pub snapshot_seq : ℤ
  pub payload : List ℕ
  pub codec : SnapshotCodec

pub data LoadError : Type 0 where
  truncated_header : LoadError
  invalid_magic : LoadError
  unsupported_version : LoadError
  unknown_codec : LoadError
  decrypt_failed : LoadError
  invalid_rle : LoadError
  length_mismatch : LoadError

pub data LoadResult : Type 0 where
  missing : LoadResult
  loaded : SnapshotRecord → LoadResult
  refused : LoadError → LoadResult

-- The loop of `rle_compress`, with the run that is open; a run is its length and its byte.
pub rle_runs : ℕ → ℕ → List ℕ → List ℕ
rle_runs run_byte run_len [] = run_len ∷ run_byte ∷ []
rle_runs run_byte run_len (byte ∷ input) = elim (byte == run_byte && ltb run_len 255) [
  | true ↦ rle_runs run_byte (run_len + 1) input
  | false ↦ run_len ∷ run_byte ∷ rle_runs byte 1 input
]

pub rle_compress : List ℕ → List ℕ
unfolding rle_runs
rle_compress [] = []
rle_compress (byte ∷ input) = rle_runs byte 1 input

-- The loop over the pairs; a byte left over is not read.
pub rle_expand : List ℕ → List ℕ
rle_expand [] = []
rle_expand (run_len ∷ []) = []
rle_expand (run_len ∷ run_byte ∷ input) = replicate run_len run_byte ++ rle_expand input

pub rle_decompress : List ℕ → Option (List ℕ)
unfolding rle_expand
rle_decompress input = if length input % 2 == 0 then some (rle_expand input) else none

pub encode_payload : List ℕ → SnapshotCodec × List ℕ
unfolding rle_compress
encode_payload payload =
    if ltb (length (rle_compress payload)) (length payload)
    then (rle, rle_compress payload)
    else (raw, payload)

-- The check of the length after the decoding.
abbrev pub check_length : ℕ → List ℕ → LoadError ⊎ List ℕ
check_length expected_len decoded =
    if length decoded == expected_len then inr decoded else inl length_mismatch

pub decode_payload : SnapshotCodec → List ℕ → ℕ → LoadError ⊎ List ℕ
unfolding rle_decompress
decode_payload raw encoded_payload expected_len = check_length expected_len encoded_payload
decode_payload rle encoded_payload expected_len = elim (rle_decompress encoded_payload) [
  | none ↦ inl invalid_rle
  | some decoded ↦ check_length expected_len decoded
]

pub header_of : SnapshotCodec → ℤ → ℕ → List ℕ
header_of codec snapshot_seq len =
    snapshot_magic
    ++ (snapshot_version
        ∷ codec_byte codec
        ∷ (to_le_bytes 8 (to_u64 snapshot_seq) ++ to_le_bytes 4 len))

module _ (cipher : Cipher) where
  -- The bytes of the file, or a failure: of the encryption, or for a payload too long for a u32.
  unfoldable pub save_snapshot : List ℕ → ℤ → List ℕ → Option (List ℕ)
  unfolding header_of encode_payload
  save_snapshot nonce snapshot_seq payload =
      let (codec, encoded_payload) = encode_payload payload in
      elim (encrypt_at_rest cipher nonce encoded_payload) [
        | none ↦ none
        | some encrypted_payload ↦
            if ltb (length payload) (2 ^ 32)
            then some (header_of codec snapshot_seq (length payload) ++ encrypted_payload)
            else none
      ]

  -- After the header.
  abbrev pub load_body : SnapshotCodec → ℤ → ℕ → List ℕ → LoadResult
  load_body codec snapshot_seq expected_len body = elim (decrypt_at_rest cipher body) [
    | none ↦ refused decrypt_failed
    | some encoded_payload ↦ elim (decode_payload codec encoded_payload expected_len) [
      | inl error ↦ refused error
      | inr payload ↦
          loaded (record { snapshot_seq = snapshot_seq; payload = payload; codec = codec })
    ]
  ]

  abbrev pub load_bytes : List ℕ → LoadResult
  load_bytes bytes =
      if ltb (length bytes) snapshot_header_bytes
      then refused truncated_header
      else (if not (starts_with snapshot_magic bytes)
          then refused invalid_magic
          else (if not (get_or bytes 4 0 == snapshot_version)
              then refused unsupported_version
              else (elim (codec_from_u8 (get_or bytes 5 0)) [
                | none ↦ refused unknown_codec
                | some codec ↦
                    load_body codec (from_u64 (from_le_bytes (take 8 (drop 6 bytes))))
                      (from_le_bytes (take 4 (drop 14 bytes))) (drop snapshot_header_bytes bytes)
              ])))

  -- `none`: the file does not exist.
  pub load_snapshot : Option (List ℕ) → LoadResult
  unfolding codec_from_u8 decode_payload
  load_snapshot none = missing
  load_snapshot (some bytes) = load_bytes bytes

-- The sequence numbers of a document are not negative; an instant before the last is 0 later.
pub should_snapshot : ℕ → ℕ → Instant → Instant → Bool
should_snapshot last_snapshot_seq current_seq last_snapshot_at now =
    leb snapshot_interval_updates (current_seq - last_snapshot_seq)
    || leb snapshot_interval (now - last_snapshot_at)
