-- ===== src/Daemon/Security.antt =====
-- crates/daemon/src/security.rs: the envelope of the data at rest. The key is fixed for a run of the
-- daemon, so it is part of the cipher, which is XChaCha20-Poly1305 of a library.
use scriptum.Prelude.{
  ℕ, ◌+◌, Bool, true, false, Option, none, some, List, [], ◌∷◌, ◌++◌, ◌≡◌, arith, subst, ◌∙◌,
  Option-cases, inl, inr, length, take, drop, take-append, drop-append, length-append,
  if◌then◌else◌, ltb, ◌==◌, nat_eq,
}

pub record Cipher : Type 0 where
  -- with a nonce; the library may refuse
  pub seal : List ℕ → List ℕ → Option (List ℕ)
  pub unseal : List ℕ → List ℕ → Option (List ℕ)
  -- A ciphertext opens under its nonce, and is longer than the plaintext by the tag of 16 bytes.
  pub unseal-seal :
      (nonce plaintext ciphertext : List ℕ)
      → seal nonce plaintext ≡ some ciphertext
      → unseal nonce ciphertext ≡ some plaintext
  pub length-seal :
      (nonce plaintext ciphertext : List ℕ)
      → seal nonce plaintext ≡ some ciphertext
      → length ciphertext ≡ length plaintext + 16

abbrev pub nonce_bytes : ℕ
nonce_bytes = 24

-- `SEC1`.
abbrev pub envelope_magic : List ℕ
envelope_magic = 83 ∷ 69 ∷ 67 ∷ 49 ∷ []

abbrev pub starts_with : List ℕ → List ℕ → Bool
starts_with [] bytes = true
starts_with (m ∷ ms) [] = false
starts_with (m ∷ ms) (b ∷ bytes) = if m == b then starts_with ms bytes else false

module _ (cipher : Cipher) where
  -- The nonce is random, so it is an argument.
  unfoldable pub encrypt_at_rest : List ℕ → List ℕ → Option (List ℕ)
  encrypt_at_rest nonce plaintext = elim (cipher.seal nonce plaintext) [
    | none ↦ none
    | some ciphertext ↦ some (envelope_magic ++ nonce ++ ciphertext)
  ]

  pub decrypt_with_key : List ℕ → Option (List ℕ)
  decrypt_with_key payload =
      if ltb (length payload) (length envelope_magic + nonce_bytes)
      then none
      else (if starts_with envelope_magic payload
          then cipher.unseal (take nonce_bytes (drop 4 payload)) (drop nonce_bytes (drop 4 payload))
          else none)

  unfoldable pub decrypt_at_rest : List ℕ → Option (List ℕ)
  unfolding decrypt_with_key
  decrypt_at_rest payload =
      if starts_with envelope_magic payload then decrypt_with_key payload else some payload

  decrypt-envelope :
      (nonce ciphertext : List ℕ)
      → length nonce ≡ nonce_bytes
      → decrypt_at_rest (envelope_magic ++ nonce ++ ciphertext) ≡ cipher.unseal nonce ciphertext
  unfolding decrypt_with_key decrypt_at_rest
  decrypt-envelope nonce ciphertext w =
      let rest = nonce ++ ciphertext in
      let long : ltb (4 + length rest) 28 ≡ false =
        ground (arith, w, length-append nonce ciphertext) in
      let first : take nonce_bytes rest ≡ nonce =
        subst (λ n. take n rest ≡ nonce) w (take-append nonce ciphertext) in
      let last : drop nonce_bytes rest ≡ ciphertext =
        subst (λ n. drop n rest ≡ ciphertext) w (drop-append nonce ciphertext) in
      ground (arith, long, first, last)

  -- What is encrypted at rest decrypts to the plaintext.
  pub decrypt-encrypt :
      (nonce plaintext payload : List ℕ)
      → length nonce ≡ nonce_bytes
      → encrypt_at_rest nonce plaintext ≡ some payload
      → decrypt_at_rest payload ≡ some plaintext
  unfolding encrypt_at_rest
  decrypt-encrypt nonce plaintext payload w h = elim (Option-cases (cipher.seal nonce plaintext)) [
    | inl e ↦ absurd (cc (h, e))
    | inr (c, e) ↦
        let shape : payload ≡ envelope_magic ++ nonce ++ c = ground (arith, e, h) in
        rw shape (decrypt-envelope nonce c w ∙ cipher.unseal-seal nonce plaintext c e)
  ]

  -- The envelope adds 44 bytes.
  pub length-encrypt :
      (nonce plaintext payload : List ℕ)
      → length nonce ≡ nonce_bytes
      → encrypt_at_rest nonce plaintext ≡ some payload
      → length payload ≡ length plaintext + 44
  unfolding encrypt_at_rest
  length-encrypt nonce plaintext payload w h = elim (Option-cases (cipher.seal nonce plaintext)) [
    | inl e ↦ absurd (cc (h, e))
    | inr (c, e) ↦
        let shape : payload ≡ envelope_magic ++ nonce ++ c = ground (arith, e, h) in
        rw shape (omega (arith, w, length-append nonce c, cipher.length-seal nonce plaintext c e))
  ]
