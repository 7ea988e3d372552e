-- ===== src/Common/Sections/Decimal.antt =====
-- The decimal digits of a number give the number back.
use scriptum.Prelude.{
  ℕ, zero, suc, ◌+◌, ◌-◌, ◌*◌, ◌/◌, ◌%◌, ◌<◌, ◌≡◌, ◌≢◌, refl, sym, ap, ◌∙◌, [], ◌∷◌, ◌++◌, ltb, All,
  All-append, arith, inl, inr, Bool-cases,
}
use scriptum.Prelude.Chars.{Chars}
use scriptum.Common.Sections.{digits, decimal, tilde}

abbrev value_from : ℕ → Chars → ℕ
value_from acc [] = acc
value_from acc (c ∷ cs) = value_from (acc * 10 + (c - 48)) cs

value_from-snoc :
    (acc c : ℕ) (cs : Chars) → value_from acc (cs ++ c ∷ []) ≡ value_from acc cs * 10 + (c - 48)
value_from-snoc acc c [] = refl
value_from-snoc acc c (d ∷ cs) = value_from-snoc (acc * 10 + (d - 48)) c cs

value-digits : (fuel n : ℕ) → n < fuel → value_from 0 (digits fuel n) ≡ n
unfolding digits
value-digits zero n lt = absurd (omega arith)
value-digits (suc fuel) n lt = elim (Bool-cases (ltb n 10)) [
  | inl e ↦ rw e (omega arith)
  | inr e ↦
      let rest = value-digits fuel (n / 10) (ground arith) in
      rw e (value_from-snoc 0 (48 + n % 10) (digits fuel (n / 10)) ∙ omega (arith, rest))
]

-- Different numbers have different digits.
pub decimal_injective : (m n : ℕ) → decimal m ≡ decimal n → m ≡ n
decimal_injective m n e =
    let a = value-digits (suc m) m (omega arith) in
    let b = value-digits (suc n) n (omega arith) in sym a ∙ (ap (value_from 0) e ∙ b)

pub digits-All : (fuel n : ℕ) → All (λ c. c ≢ tilde) (digits fuel n)
unfolding digits
digits-All zero n = tt
digits-All (suc fuel) n = elim (Bool-cases (ltb n 10)) [
  | inl e ↦ rw e ((λ f. ground arith), tt)
  | inr e ↦ rw e (
      All-append (λ c. c ≢ tilde) (digits fuel (n / 10)) ((48 + n % 10) ∷ [])
        (digits-All fuel (n / 10)) ((λ f. omega arith), tt))
]
