-- ===== src/Daemon/Wal/Frames.antt =====
-- crates/daemon/src/store/wal.rs: what is read where a frame, a part of one, or anything else stands.
use scriptum.Prelude.{
  ℕ, ◌+◌, ◌-◌, ◌^◌, ◌≤◌, ◌<◌, some, List, [], ◌∷◌, ◌++◌, ◌≡◌, refl, ap, arith, inl, inr, ◌∙◌,
  length, take, drop, ltb, ltb→lt, Option-cases, length-drop, take-append_long, length-append,
  length-take, take-append, nat_eq, Bool-cases,
}
use scriptum.Prelude.Bytes.{to_le_bytes, from_le_bytes, from-to_le_bytes, length-to_le_bytes}
use scriptum.Daemon.Security.{Cipher, decrypt_at_rest}
use scriptum.Daemon.Wal.{
  checksum, checksum_from, frame_of, end_of_file, torn, frame, read_payload, read_frame,
  max_update_bytes,
}

checksum_from-lt : (bs : List ℕ) (h : ℕ) → h < 2 ^ 32 → checksum_from h bs < 2 ^ 32
unfolding checksum_from
checksum_from-lt [] h l = l
checksum_from-lt (b ∷ bs) h l = checksum_from-lt bs _ (omega arith)

pub checksum-lt : (bs : List ℕ) → checksum bs < 2 ^ 32
unfolding checksum
checksum-lt bs = checksum_from-lt bs _ (omega arith)

pub length-frame_of : (e : List ℕ) → length (frame_of e) ≡ 8 + length e
unfolding frame_of to_le_bytes
length-frame_of e = omega arith

module _ (cipher : Cipher) where
  -- Eight bytes of a header, and what follows them.
  read_header :
      (len sum : ℕ) (body : List ℕ)
      → len < 2 ^ 32
      → sum < 2 ^ 32
      → read_frame cipher (to_le_bytes 4 len ++ to_le_bytes 4 sum ++ body)
        ≡ read_payload cipher len sum body
  unfolding read_frame to_le_bytes
  read_header len sum body l r =
      let first : from_le_bytes (to_le_bytes 4 len) ≡ len = from-to_le_bytes 4 len (omega arith) in
      let second : from_le_bytes (to_le_bytes 4 sum) ≡ sum = from-to_le_bytes 4 sum (omega arith) in
      ground (arith, first, second)

  -- A whole frame is read back, whatever follows it.
  pub read-frame_of :
      (e p rest : List ℕ)
      → length e ≤ max_update_bytes
      → decrypt_at_rest cipher e ≡ some p
      → read_frame cipher (frame_of e ++ rest) ≡ frame p (length e)
  unfolding frame_of read_frame to_le_bytes
  read-frame_of e p rest l d =
      read_header (length e) (checksum e) (e ++ rest) (omega arith) (checksum-lt e)
      ∙ ground (arith, length-append e rest, take-append e rest, d)

  -- A frame longer than replay admits, whatever follows it.
  pub read-oversized :
      (e rest : List ℕ)
      → max_update_bytes < length e
      → length e < 2 ^ 32
      → read_frame cipher (frame_of e ++ rest) ≡ torn
  unfolding frame_of read_frame to_le_bytes
  read-oversized e rest l h =
      read_header (length e) (checksum e) (e ++ rest) h (checksum-lt e) ∙ ground arith

  -- Fewer bytes than a header.
  read_short :
      (bytes : List ℕ) → 0 < length bytes → length bytes < 8 → read_frame cipher bytes ≡ torn
  unfolding read_frame
  read_short [] l h = absurd (omega arith)
  read_short (b ∷ bytes) l h = ground arith

  -- A frame that a crash cut off, the first `k` of its bytes, is torn.
  pub read-take :
      (e : List ℕ) (k : ℕ)
      → length e ≤ max_update_bytes
      → 0 < k
      → k < length (frame_of e)
      → read_frame cipher (take k (frame_of e)) ≡ torn
  unfolding frame_of to_le_bytes
  read-take e k l pos h = elim (Bool-cases (ltb k 8)) [
    | inl short ↦
        read_short (take k (frame_of e)) (omega (arith, length-take k (frame_of e)))
          (omega (arith, ltb→lt k 8 short, length-take k (frame_of e)))
    | inr long ↦
        let some_body : take k (frame_of e)
            ≡ to_le_bytes 4 (length e) ++ to_le_bytes 4 (checksum e) ++ take (k - 4 - 4) e =
          take-append_long k (to_le_bytes 4 (length e)) (to_le_bytes 4 (checksum e) ++ e)
            (ground (arith, length-to_le_bytes 4 (length e)))
          ∙ ap (λ (r : List ℕ). to_le_bytes 4 (length e) ++ r)
              (take-append_long (k - 4) (to_le_bytes 4 (checksum e)) e
                (ground (arith, length-to_le_bytes 4 (checksum e)))) in
        rw some_body (
          read_header (length e) (checksum e) (take (k - 4 - 4) e) (omega arith) (checksum-lt e)
          ∙ ground (arith, length-take (k - 4 - 4) e, length-frame_of e))
  ]

  -- A frame that is read fills its bytes.
  pub frame_fits :
      (bytes p : List ℕ) (len : ℕ) → read_frame cipher bytes ≡ frame p len → 8 + len ≤ length bytes
  unfolding read_frame
  frame_fits [] p len h = absurd (cc h)
  frame_fits (b ∷ bytes) p len h = ground (
    arith,
    length-take (from_le_bytes (take 4 (b ∷ bytes))) (drop 8 (b ∷ bytes)),
    length-drop 8 (b ∷ bytes),
    Option-cases
        (decrypt_at_rest cipher (take (from_le_bytes (take 4 (b ∷ bytes))) (drop 8 (b ∷ bytes)))),
  )

  pub read-nil : read_frame cipher [] ≡ end_of_file
  unfolding read_frame
  read-nil = refl

  pub end-empty : (bytes : List ℕ) → read_frame cipher bytes ≡ end_of_file → bytes ≡ []
  unfolding read_frame
  end-empty [] h = refl
  end-empty (b ∷ bytes) h = absurd (
      ground (
        arith,
        Option-cases (
            decrypt_at_rest cipher
              (take (from_le_bytes (take 4 (b ∷ bytes))) (drop 8 (b ∷ bytes)))),
      ))
