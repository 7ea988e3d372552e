-- ===== src/Daemon/SnapshotFile/Laws.antt =====
-- crates/daemon/src/store/snapshot.rs: what is saved is loaded.
use scriptum.Prelude.{
  ℕ, ◌^◌, ◌<◌, some, List, ◌++◌, ◌≡◌, refl, ◌∙◌, arith, inl, inr, length, if◌then◌else◌, ltb,
  nat_eq, Bool-cases, Option-cases, ==_refl,
}
use scriptum.Prelude.Bytes.{to_le_bytes, from_le_bytes, from-to_le_bytes}
use scriptum.Prelude.Numbers.{ℤ, IsI64, to_u64, from-to_u64, to_u64-lt}
use scriptum.Daemon.Security.{
  Cipher, encrypt_at_rest, decrypt_at_rest, decrypt-encrypt, nonce_bytes,
}
use scriptum.Daemon.SnapshotFile.{
  SnapshotCodec, raw, rle, codec_byte, codec_from_u8, loaded, load_body, load_snapshot,
  save_snapshot, header_of, encode_payload, decode_payload, rle_compress,
}
use scriptum.Daemon.SnapshotFile.Runs.{decompress-compress}

codec_from-byte : (c : SnapshotCodec) → codec_from_u8 (codec_byte c) ≡ some c
unfolding codec_from_u8
codec_from-byte raw = refl
codec_from-byte rle = refl

decode-encode :
    (payload : List ℕ)
    → decode_payload (encode_payload payload).0 (encode_payload payload).1 (length payload)
      ≡ inr payload
unfolding decode_payload encode_payload
decode-encode payload = elim (Bool-cases (ltb (length (rle_compress payload)) (length payload))) [
  | inl smaller ↦ rw smaller (
      rw (decompress-compress payload, decode_payload)
        (rw (==_refl (length payload), if◌then◌else◌) refl))
  | inr other ↦ rw other (rw (==_refl (length payload), decode_payload) refl)
]

module _ (cipher : Cipher) where
  load-header :
      (c : SnapshotCodec) (seq : ℤ) (len : ℕ) (body : List ℕ)
      → IsI64 seq
      → len < 2 ^ 32
      → load_snapshot cipher (some (header_of c seq len ++ body)) ≡ load_body cipher c seq len body
  unfolding load_snapshot header_of to_le_bytes
  load-header c seq len body i l =
      let v : from_le_bytes (to_le_bytes 8 (to_u64 seq)) ≡ to_u64 seq =
        from-to_le_bytes 8 (to_u64 seq) (omega (arith, to_u64-lt seq i)) in
      let n : from_le_bytes (to_le_bytes 4 len) ≡ len = from-to_le_bytes 4 len (omega arith) in
      ground (arith, v, n, codec_from-byte c, from-to_u64 seq i)

  -- A snapshot that is saved is loaded again: its sequence number, its payload and the codec that
  -- the payload was encoded with.
  pub load-save :
      (nonce payload file : List ℕ) (seq : ℤ)
      → length nonce ≡ nonce_bytes
      → IsI64 seq
      → save_snapshot cipher nonce seq payload ≡ some file
      → load_snapshot cipher (some file)
        ≡ loaded
            (record { snapshot_seq = seq; payload = payload; codec = (encode_payload payload).0 })
  unfolding save_snapshot decrypt_at_rest
  load-save nonce payload file seq n i h =
      elim (Option-cases (encrypt_at_rest cipher nonce (encode_payload payload).1)) [
        | inl failed ↦ absurd (cc (h, failed))
        | inr (e, done) ↦
            let small : length payload < 2 ^ 32 = ground (arith, done) in
            let shape : file ≡ header_of (encode_payload payload).0 seq (length payload) ++ e =
              ground (arith, done) in
            rw shape (
              load-header (encode_payload payload).0 seq (length payload) e i small
              ∙ rw (decrypt-encrypt cipher nonce (encode_payload payload).1 e n done)
                  (rw (decode-encode payload) refl))
      ]
