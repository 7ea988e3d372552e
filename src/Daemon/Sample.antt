-- ===== src/Daemon/Sample.antt =====
-- A cipher for the tests, which keeps the bytes and adds a tag of zeros.
use scriptum.Prelude.{
  ℕ, ◌-◌, some, List, ◌∷◌, ◌++◌, ◌≡◌, ap, ◌∙◌, refl, arith, length, take, replicate, length-append,
  take-append,
}
use scriptum.Daemon.Security.{Cipher, encrypt_at_rest}

abbrev pub tag : List ℕ
tag = replicate 16 0

-- The plaintext without the tag.
pub without_tag : (p : List ℕ) → take (length (p ++ tag) - 16) (p ++ tag) ≡ p
without_tag p =
    let n : length (p ++ tag) - 16 ≡ length p = omega (arith, length-append p tag) in
    ap (λ (k : ℕ). take k (p ++ tag)) n ∙ take-append p tag

abbrev pub plain : Cipher
plain = record {
  seal = λ nonce p. some (p ++ tag);
  unseal = λ nonce c. some (take (length c - 16) c);
  unseal-seal = λ nonce p c h. ap some (let e : p ++ tag ≡ c = cc h in rw (← e) (without_tag p));
  length-seal = λ nonce p c h.
      (let e : p ++ tag ≡ c = cc h in omega (arith, ap length e, length-append p tag));
}

abbrev pub nonce : List ℕ
nonce = replicate 24 9

abbrev pub sealed : List ℕ → List ℕ
sealed p = 83 ∷ 69 ∷ 67 ∷ 49 ∷ nonce ++ (p ++ tag)

pub sealed_eq : (p : List ℕ) → encrypt_at_rest plain nonce p ≡ some (sealed p)
unfolding encrypt_at_rest
sealed_eq p = refl
