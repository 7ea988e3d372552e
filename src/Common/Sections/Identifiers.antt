-- ===== src/Common/Sections/Identifiers.antt =====
-- A disambiguated identifier tells its base and which occurrence it is.
use scriptum.Prelude.{
  ℕ, suc, ◌≤◌, ◌≡◌, ◌≢◌, refl, sym, ap, ◌∙◌, Option, none, some, inl, inr, List, [], ◌∷◌, ◌++◌, map,
  filter, leb, ◌==◌, nat_eq, All, All-append, All-filter, arith, if◌then◌else◌, Bool-cases,
}
use scriptum.Prelude.Chars.{Chars, split, join, split-All, join-All}
use scriptum.Common.Sections.{
  disambiguate, decimal, tilde, hyphen, slash, hyphenate, slugify, make_section_id, has_text,
  is_empty, leaf_of,
}
use scriptum.Common.Sections.Decimal.{decimal_injective, digits-All}

abbrev pub NoTilde : Chars → Type 0
NoTilde = All (λ c. c ≢ tilde)

abbrev before_tilde : Chars → Chars
before_tilde [] = []
before_tilde (c ∷ cs) = if c == tilde then [] else c ∷ before_tilde cs

abbrev after_tilde : Chars → Option Chars
after_tilde [] = none
after_tilde (c ∷ cs) = if c == tilde then some cs else after_tilde cs

before-base : (base : Chars) → NoTilde base → before_tilde base ≡ base
before-base [] h = refl
before-base (c ∷ cs) h = ground (arith, h.0, before-base cs h.1)

before-suffix : (base rest : Chars) → NoTilde base → before_tilde (base ++ (tilde ∷ rest)) ≡ base
before-suffix [] rest h = refl
before-suffix (c ∷ cs) rest h = ground (arith, h.0, before-suffix cs rest h.1)

after-base : (base : Chars) → NoTilde base → after_tilde base ≡ none
after-base [] h = refl
after-base (c ∷ cs) h = ground (arith, h.0, after-base cs h.1)

after-suffix : (base rest : Chars) → NoTilde base → after_tilde (base ++ (tilde ∷ rest)) ≡ some rest
after-suffix [] rest h = refl
after-suffix (c ∷ cs) rest h = ground (arith, h.0, after-suffix cs rest h.1)

before-disambiguate :
    (base : Chars) (k : ℕ) → NoTilde base → before_tilde (disambiguate base k) ≡ base
unfolding disambiguate
before-disambiguate base k h = elim (Bool-cases (leb k 1)) [
  | inl e ↦ rw e (before-base base h)
  | inr e ↦ rw e (before-suffix base (decimal k) h)
]

abbrev suffix_of : ℕ → Option Chars
suffix_of k = if leb k 1 then none else some (decimal k)

after-disambiguate :
    (base : Chars) (k : ℕ) → NoTilde base → after_tilde (disambiguate base k) ≡ suffix_of k
unfolding disambiguate
after-disambiguate base k h = elim (Bool-cases (leb k 1)) [
  | inl e ↦ rw e (after-base base h)
  | inr e ↦ rw e (after-suffix base (decimal k) h)
]

suffix_injective : (j k : ℕ) → 1 ≤ j → 1 ≤ k → suffix_of j ≡ suffix_of k → j ≡ k
suffix_injective j k hj hk e = elim (Bool-cases (leb j 1)) [
  | inl a ↦ elim (Bool-cases (leb k 1)) [
    | inl b ↦ ground arith
    | inr b ↦ let z = rw b at (rw a at e) in cc
  ]
  | inr a ↦ elim (Bool-cases (leb k 1)) [
    | inl b ↦ let z = rw b at (rw a at e) in cc
    | inr b ↦
        let z = rw b at (rw a at e) in
        decimal_injective j k (let d : decimal j ≡ decimal k = cc in d)
  ]
]

-- Equal identifiers have one base, and are one occurrence of it.
pub disambiguate_injective :
    (b c : Chars) (j k : ℕ)
    → NoTilde b
    → NoTilde c
    → 1 ≤ j
    → 1 ≤ k
    → disambiguate b j ≡ disambiguate c k
    → (b ≡ c) × (j ≡ k)
disambiguate_injective b c j k hb hc hj hk e = (
  sym (before-disambiguate b j hb) ∙ (ap before_tilde e ∙ before-disambiguate c k hc),
  suffix_injective j k hj hk
      (sym (after-disambiguate b j hb) ∙ (ap after_tilde e ∙ after-disambiguate c k hc)),
)

-- Slugs and base identifiers have no tilde.
hyphenate-NoTilde : (cs : Chars) → NoTilde (map hyphenate cs)
hyphenate-NoTilde [] = tt
hyphenate-NoTilde (c ∷ cs) = ((λ e. hyphenate_ne c e), hyphenate-NoTilde cs)
  where
    hyphenate_ne : (c : ℕ) → hyphenate c ≢ tilde
    hyphenate_ne c e = ground arith

module _ (trim to_lowercase : Chars → Chars) where
  pub slugify-NoTilde : (heading : Chars) → NoTilde (slugify trim to_lowercase heading)
  unfolding slugify
  slugify-NoTilde heading =
      let cs = map hyphenate (to_lowercase (trim heading)) in
      join-All hyphen (λ c. c ≢ tilde) (filter has_text (split hyphen cs)) (omega arith)
        (All-filter NoTilde has_text (split hyphen cs)
          (split-All hyphen (λ c. c ≢ tilde) cs (hyphenate-NoTilde (to_lowercase (trim heading)))))

  leaf-NoTilde :
      (slug : Chars) (level ordinal : ℕ)
      → NoTilde slug
      → NoTilde (leaf_of trim to_lowercase slug level ordinal)
  leaf-NoTilde slug level ordinal h = elim (Bool-cases (is_empty slug)) [
    | inl e ↦ rw e (
      (λ f. omega arith),
      All-append (λ c. c ≢ tilde) (decimal level) (95 ∷ decimal ordinal)
          (digits-All (suc level) level) ((λ f. omega arith), digits-All (suc ordinal) ordinal),
    )
    | inr e ↦ rw e h
  ]

  pub make_section_id-NoTilde :
      (ancestors : List Chars) (heading : Chars) (level ordinal : ℕ)
      → All NoTilde ancestors
      → NoTilde (make_section_id trim to_lowercase ancestors heading level ordinal)
  unfolding make_section_id
  make_section_id-NoTilde ancestors heading level ordinal h =
      let slug = slugify trim to_lowercase heading in
      let leaf = leaf_of trim to_lowercase slug level ordinal in
      let plain = leaf-NoTilde slug level ordinal (slugify-NoTilde heading) in
      elim (Bool-cases (is_empty ancestors)) [
        | inl e ↦ rw e plain
        | inr e ↦ rw e (
            All-append (λ c. c ≢ tilde) (join slash ancestors) (slash ∷ leaf)
              (join-All slash (λ c. c ≢ tilde) ancestors (omega arith) h)
              ((λ f. omega arith), plain))
      ]
