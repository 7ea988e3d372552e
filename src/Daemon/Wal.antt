-- ===== src/Daemon/Wal.antt =====
-- crates/daemon/src/store/wal.rs: the write-ahead log of a document, as the bytes of its file. What
-- `read` and `write_all` do on a file is written out; their failures, apart from the end of the file,
-- and file modes are left out. Writes here append, as the file is opened to do.
mod Tests
pub mod Frames
pub mod Replay
pub mod Append
use scriptum.Prelude.{
  ℕ, zero, suc, ◌+◌, ◌-◌, ◌*◌, ◌%◌, ◌^◌, ◌≤◌, ◌<◌, Bool, true, false, Option, none, some, List, [],
  ◌∷◌, ◌++◌, length, take, drop, if◌then◌else◌, ltb, leb, ◌==◌, nat_eq, is_some,
}
use Prim.Native.Nat.{bit_xor}
use scriptum.Prelude.Bytes.{to_le_bytes, from_le_bytes}
use scriptum.Daemon.Security.{Cipher, encrypt_at_rest, decrypt_at_rest}

abbrev pub frame_header_bytes : ℕ
frame_header_bytes = 8

-- 1 MiB and the envelope.
abbrev pub max_update_bytes : ℕ
max_update_bytes = 1048704

pub record WalReplaySummary : Type 0 where
  pub applied : ℕ
  pub valid_frames : ℕ
  pub truncated : Bool
  pub checksum_failed : Bool

checksum_from : ℕ → List ℕ → ℕ
checksum_from hash [] = hash
checksum_from hash (byte ∷ payload) =
    checksum_from ((bit_xor hash byte * 0x01000193) % 2 ^ 32) payload

-- FNV-1a of 32 bits.
pub checksum : List ℕ → ℕ
unfolding checksum_from
checksum payload = checksum_from 0x811c9dc5 payload

pub frame_of : List ℕ → List ℕ
unfolding checksum
frame_of encrypted_payload =
    to_le_bytes 4 (length encrypted_payload)
    ++ to_le_bytes 4 (checksum encrypted_payload)
    ++ encrypted_payload

module _ (cipher : Cipher) where
  -- `none` if the encryption fails or the length is no u32.
  unfoldable pub append_update : List ℕ → List ℕ → List ℕ → Option (List ℕ)
  unfolding frame_of
  append_update nonce payload file = elim (encrypt_at_rest cipher nonce payload) [
    | none ↦ none
    | some encrypted_payload ↦
        if ltb (length encrypted_payload) (2 ^ 32)
        then some (file ++ frame_of encrypted_payload)
        else none
  ]

-- What an iteration of the loop of `replay_from_frame` finds before it calls `on_update`.
pub data Frame : Type 0 where
  end_of_file : Frame
  -- a frame that is cut off or too long
  torn : Frame
  -- a checksum that fails, or a payload that cannot be decrypted
  corrupt : Frame
  -- the payload, decrypted, and the length it has in the file
  frame : List ℕ → ℕ → Frame

module _ (cipher : Cipher) where
  -- The payload once it is read.
  abbrev pub check_payload : ℕ → List ℕ → Frame
  check_payload expected_checksum payload =
      if checksum payload == expected_checksum
      then (elim (decrypt_at_rest cipher payload) [
        | none ↦ corrupt
        | some plaintext ↦ frame plaintext (length payload)
      ])
      else corrupt

  -- After the header: `body` is what follows it in the file.
  abbrev pub read_payload : ℕ → ℕ → List ℕ → Frame
  read_payload len expected_checksum body =
      if ltb max_update_bytes len
      then torn
      else (if ltb (length body) len then torn else check_payload expected_checksum (take len body))

  pub read_frame : List ℕ → Frame
  read_frame [] = end_of_file
  read_frame (b ∷ bytes) =
      if ltb (suc (length bytes)) frame_header_bytes
      then torn
      else read_payload (from_le_bytes (take 4 (b ∷ bytes)))
          (from_le_bytes (take 4 (drop 4 (b ∷ bytes)))) (drop frame_header_bytes (b ∷ bytes))

-- `update_failed`: `on_update` returned an error, which replay passes on.
pub data ReplayResult (S : Type 0) : Type 0 where
  replayed : S → WalReplaySummary → List ℕ → ReplayResult S
  update_failed : ReplayResult S
  out_of_fuel : ReplayResult S

-- After the loop: the file is cut at `truncate_to`.
abbrev pub finish : {S : Type 0} → List ℕ → Option ℕ → Bool → ℕ → ℕ → S → ReplayResult S
finish file truncate_to checksum_failed applied valid_frames s =
    replayed s
      (record {
        applied = applied;
        valid_frames = valid_frames;
        truncated = is_some truncate_to;
        checksum_failed = checksum_failed;
      })
      (elim truncate_to [ none ↦ file | some offset ↦ take offset file ])

module _ {S : Type 0} (cipher : Cipher) (on_update : List ℕ → S → Option S) (start_frame : ℕ)
    (file : List ℕ) where
  -- The call of `on_update` for a frame at or after `start_frame`.
  abbrev pub apply_frame : ℕ → List ℕ → S → Option S
  apply_frame valid_frames payload s =
      if leb start_frame valid_frames then on_update payload s else some s

  -- `bytes` is what follows `offset` in the file. A count that saturates at the maximum of `usize`
  -- is one that no file reaches.
  unfoldable pub replay_loop : ℕ → List ℕ → ℕ → ℕ → ℕ → S → ReplayResult S
  replay_loop zero bytes offset applied valid_frames s = elim (read_frame cipher bytes) [
    | end_of_file ↦ finish file none false applied valid_frames s
    | torn ↦ finish file (some offset) false applied valid_frames s
    | corrupt ↦ finish file (some offset) true applied valid_frames s
    | frame payload len ↦ out_of_fuel
  ]
  replay_loop (suc fuel) bytes offset applied valid_frames s = elim (read_frame cipher bytes) [
    | end_of_file ↦ finish file none false applied valid_frames s
    | torn ↦ finish file (some offset) false applied valid_frames s
    | corrupt ↦ finish file (some offset) true applied valid_frames s
    | frame payload len ↦ elim (apply_frame valid_frames payload s) [
      | none ↦ update_failed
      | some s' ↦
          replay_loop fuel (drop (frame_header_bytes + len) bytes)
            (offset + (frame_header_bytes + len))
            (if leb start_frame valid_frames then applied + 1 else applied) (valid_frames + 1) s'
    ]
  ]

  -- A frame has a header at least, so there is fuel for each byte.
  unfoldable pub replay_from_frame : S → ReplayResult S
  unfolding replay_loop
  replay_from_frame s = replay_loop (length file) file 0 0 0 s

-- `replay`: the number of updates, or the failure.
pub replay : {S : Type 0} → Cipher → (List ℕ → S → Option S) → List ℕ → S → ReplayResult S
unfolding replay_from_frame
replay cipher on_update file s = replay_from_frame cipher on_update 0 file s
