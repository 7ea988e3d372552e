-- ===== src/Common/Sections/Distinct.antt =====
-- No two sections of a document have one identifier.
use scriptum.Prelude.{
  ℕ, suc, ◌+◌, ◌≤◌, ◌<◌, ◌≡◌, ◌≢◌, refl, sym, ◌∙◌, subst, true, inl, inr, List, [], ◌∷◌, ◌++◌, leb,
  nat_eq, ==_refl, All, All-append, arith, Bool-cases,
}
use scriptum.Prelude.Chars.{Chars}
use scriptum.Common.Sections.{
  disambiguate, slugify, make_section_id, Stack, Section, SectionDraft, pop_to, ancestor_slugs,
  chars_beq, Counts, counted, build_from, build_tree, no_counts, parent_of, end_of,
}
use scriptum.Common.Sections.Identifiers.{
  NoTilde, disambiguate_injective, slugify-NoTilde, make_section_id-NoTilde,
}

chars_beq_refl : (cs : Chars) → chars_beq cs cs ≡ true
chars_beq_refl [] = refl
chars_beq_refl (c ∷ cs) = rw (==_refl c) (chars_beq_refl cs)

counted_self : (base : Chars) (counts : Counts) → counted base counts base ≡ suc (counts base)
counted_self base counts = rw (chars_beq_refl base) refl

counted_grows : (base other : Chars) (counts : Counts) → counts other ≤ counted base counts other
counted_grows base other counts = ground arith

-- An identifier that is a later occurrence of its base than these counts know of.
pub record IsFresh (counts : Counts) (section : Section) : Type 0 where
  pub base : Chars
  pub occurrence : ℕ
  pub plain : NoTilde base
  pub later : counts base < occurrence
  pub named : section.id ≡ disambiguate base occurrence

-- Pairwise different identifiers.
abbrev pub DistinctIds : List Section → Type 0
DistinctIds [] = Unit
DistinctIds (section ∷ sections) =
    All (λ other. section.id ≢ other.id) sections × DistinctIds sections

IsFresh-counted :
    (base : Chars) (counts : Counts) (sections : List Section)
    → All (IsFresh (counted base counts)) sections
    → All (IsFresh counts) sections
IsFresh-counted base counts [] h = tt
IsFresh-counted base counts (s ∷ sections) (f, h) = (
  record {
    base = f.base;
    occurrence = f.occurrence;
    plain = f.plain;
    later = omega (arith, f.later, counted_grows base f.base counts);
    named = f.named;
  },
  IsFresh-counted base counts sections h,
)

-- The identifier of a base's present occurrence is none of the later ones.
present_differs :
    (base : Chars) (counts : Counts) (sections : List Section)
    → NoTilde base
    → All (IsFresh (counted base counts)) sections
    → All (λ other. disambiguate base (counted base counts base) ≢ other.id) sections
present_differs base counts [] plain h = tt
present_differs base counts (s ∷ sections) plain (f, h) = (
  (λ e.
      let n = counted base counts base in
      let pos : 1 ≤ n = omega (arith, counted_self base counts) in
      let both =
        disambiguate_injective base f.base n f.occurrence plain f.plain pos (omega (arith, f.later))
          (e ∙ f.named) in
      let lt : counted base counts base < f.occurrence =
        subst (λ b. counted base counts b < f.occurrence) (sym both.0) f.later in
      omega (arith, lt, both.1)),
  present_differs base counts sections plain h,
)

All-front {ℓ κ} :
    {A : Type ℓ} (P : A → Type κ) (front back : List A) → All P (front ++ back) → All P front
All-front P [] back h = tt
All-front P (a ∷ front) back h = (h.0, All-front P front back h.1)

pop_to-NoTilde :
    (level : ℕ) (stack : Stack)
    → All NoTilde (ancestor_slugs stack)
    → All NoTilde (ancestor_slugs (pop_to level stack))
unfolding pop_to
pop_to-NoTilde level [] h = tt
pop_to-NoTilde level ((section, slug) ∷ stack) h = elim (Bool-cases (leb level section.level)) [
  | inl e ↦
      rw e (pop_to-NoTilde level stack (All-front NoTilde (ancestor_slugs stack) (slug ∷ []) h))
  | inr e ↦ rw e h
]

module _ (trim to_lowercase : Chars → Chars) where
  -- What the loop adds is fresh, and pairwise different.
  build_from-IsFresh :
      (total_lines index : ℕ) (drafts : List SectionDraft) (stack : Stack) (counts : Counts)
      → All NoTilde (ancestor_slugs stack)
      → All (IsFresh counts) (build_from trim to_lowercase total_lines index drafts stack counts)
        × DistinctIds (build_from trim to_lowercase total_lines index drafts stack counts)
  unfolding build_from
  build_from-IsFresh total_lines index [] stack counts h = (tt, tt)
  build_from-IsFresh total_lines index (draft ∷ drafts) stack counts h =
      let stack' = pop_to draft.level stack in
      let h' = pop_to-NoTilde draft.level stack h in
      let base =
        make_section_id trim to_lowercase (ancestor_slugs stack') draft.heading draft.level
          (index + 1) in
      let plain =
        make_section_id-NoTilde trim to_lowercase (ancestor_slugs stack') draft.heading draft.level
          (index + 1) h' in
      let counts' = counted base counts in
      let section : Section = record {
        id = disambiguate base (counts' base);
        parent_id = parent_of stack';
        heading = trim draft.heading;
        level = draft.level;
        start_line = draft.start_line;
        end_line = end_of total_lines drafts;
      } in
      let slug = slugify trim to_lowercase draft.heading in
      let pushed =
        All-append NoTilde (ancestor_slugs stack') (slug ∷ []) h'
          (slugify-NoTilde trim to_lowercase draft.heading, tt) in
      let rest =
        build_from-IsFresh total_lines (index + 1) drafts ((section, slug) ∷ stack') counts'
          pushed in
      let sections =
        build_from trim to_lowercase total_lines (index + 1) drafts ((section, slug) ∷ stack')
          counts' in
      let fresh : IsFresh counts section = record {
        base = base;
        occurrence = counts' base;
        plain = plain;
        later = omega (arith, counted_self base counts);
        named = refl;
      } in
      (
        (fresh, IsFresh-counted base counts sections rest.0),
        (present_differs base counts sections plain rest.0, rest.1),
      )

  -- Whatever the headings of a document are, no two of its sections get the same identifier, also if
  -- headings repeat, are empty, or differ only in characters that a slug drops.
  pub build_tree_distinct :
      (total_lines : ℕ) (drafts : List SectionDraft)
      → DistinctIds (build_tree trim to_lowercase total_lines drafts)
  unfolding build_tree
  build_tree_distinct total_lines drafts =
      (build_from-IsFresh total_lines 0 drafts [] no_counts tt).1
