-- ===== src/Common/Sections.antt =====
-- crates/common/src/section/slug.rs and parser.rs: slugs, section identifiers, and the tree of sections
-- that is built from the headings of a document. Which headings there are is told by pulldown-cmark, a
-- library. Texts are lists of code points; trimming and lower case of Unicode are parameters. Where the
-- source's stack has the index of a section, the model's has the section.
pub mod Decimal
pub mod Identifiers
pub mod Distinct
mod Tests
use scriptum.Prelude.{
  ℕ, zero, suc, ◌+◌, ◌/◌, ◌%◌, Bool, true, false, not, ◌||◌, ◌&&◌, Option, none, some, List, [],
  ◌∷◌, ◌++◌, map, filter, ltb, leb, ◌==◌, nat_eq, if◌then◌else◌,
}
use scriptum.Prelude.Chars.{Chars, split, join}

abbrev pub hyphen : ℕ
hyphen = 45

abbrev pub slash : ℕ
slash = 47

abbrev pub tilde : ℕ
tilde = 126

abbrev pub is_ascii_alphanumeric : ℕ → Bool
is_ascii_alphanumeric c =
    (leb 48 c && leb c 57) || ((leb 65 c && leb c 90) || (leb 97 c && leb c 122))

abbrev pub hyphenate : ℕ → ℕ
hyphenate c = if is_ascii_alphanumeric c then c else hyphen

abbrev pub is_empty {ℓ} : {A : Type ℓ} → List A → Bool
is_empty [] = true
is_empty (x ∷ xs) = false

abbrev pub has_text : Chars → Bool
has_text part = not (is_empty part)

-- The decimal digits of a number below the fuel.
unfoldable pub digits : ℕ → ℕ → Chars
digits zero n = []
digits (suc fuel) n =
    let front = digits fuel (n / 10) in
    if ltb n 10 then (48 + n) ∷ [] else front ++ (48 + n % 10) ∷ []

abbrev pub decimal : ℕ → Chars
decimal n = digits (suc n) n

pub record SectionDraft : Type 0 where
  pub heading : Chars
  pub level : ℕ
  pub start_line : ℕ

pub record Section : Type 0 where
  pub id : Chars
  pub parent_id : Option Chars
  pub heading : Chars
  pub level : ℕ
  pub start_line : ℕ
  pub end_line : ℕ

unfoldable pub disambiguate : Chars → ℕ → Chars
unfolding digits
disambiguate base_id occurrence =
    if leb occurrence 1 then base_id else base_id ++ (tilde ∷ decimal occurrence)

-- How often a base identifier has occurred: the map `id_counts`, and its `entry`.
abbrev pub Counts : Type 0
Counts = Chars → ℕ

-- The equality of texts.
abbrev pub chars_beq : Chars → Chars → Bool
chars_beq [] [] = true
chars_beq (a ∷ as') (b ∷ bs) = if a == b then chars_beq as' bs else false
chars_beq as' bs = false

abbrev pub counted : Chars → Counts → Counts
counted base counts other = if chars_beq other base then suc (counts other) else counts other

-- The stack, innermost first: a section and the slug of its heading.
abbrev pub Stack : Type 0
Stack = List (Section × Chars)

-- `while`: the sections that are not above the level are popped.
unfoldable pub pop_to : ℕ → Stack → Stack
pop_to level [] = []
pop_to level ((section, slug) ∷ stack) =
    let rest = pop_to level stack in
    if leb level section.level then rest else (section, slug) ∷ stack

abbrev pub parent_of : Stack → Option Chars
parent_of [] = none
parent_of ((section, slug) ∷ stack) = some section.id

-- From the root on.
abbrev pub ancestor_slugs : Stack → List Chars
ancestor_slugs [] = []
ancestor_slugs ((section, slug) ∷ stack) = ancestor_slugs stack ++ slug ∷ []

abbrev pub end_of : ℕ → List SectionDraft → ℕ
end_of total_lines [] = total_lines + 1
end_of total_lines (next ∷ drafts) = next.start_line

abbrev pub no_counts : Counts
no_counts base = 0

module _ (trim to_lowercase : Chars → Chars) where
  unfoldable pub slugify : Chars → Chars
  unfolding split join
  slugify heading =
      join hyphen (filter has_text (split hyphen (map hyphenate (to_lowercase (trim heading)))))

  abbrev pub leaf_of : Chars → ℕ → ℕ → Chars
  leaf_of slug level ordinal =
      if is_empty slug then 104 ∷ (decimal level ++ (95 ∷ decimal ordinal)) else slug

  unfoldable pub make_section_id : List Chars → Chars → ℕ → ℕ → Chars
  unfolding slugify join digits
  make_section_id ancestors heading level ordinal =
      let leaf = leaf_of (slugify heading) level ordinal in
      if is_empty ancestors then leaf else join slash ancestors ++ (slash ∷ leaf)

  -- The loop of `build_tree` from the draft of this index on.
  unfoldable pub build_from : ℕ → ℕ → List SectionDraft → Stack → Counts → List Section
  unfolding make_section_id disambiguate pop_to
  build_from total_lines index [] stack counts = []
  build_from total_lines index (draft ∷ drafts) stack counts =
      let stack' = pop_to draft.level stack in
      let base_id = make_section_id (ancestor_slugs stack') draft.heading draft.level (index + 1) in
      let counts' = counted base_id counts in
      let section : Section = record {
        id = disambiguate base_id (counts' base_id);
        parent_id = parent_of stack';
        heading = trim draft.heading;
        level = draft.level;
        start_line = draft.start_line;
        end_line = end_of total_lines drafts;
      } in
      section
      ∷ build_from total_lines (index + 1) drafts ((section, slugify draft.heading) ∷ stack')
          counts'

  unfoldable pub build_tree : ℕ → List SectionDraft → List Section
  unfolding build_from
  build_tree total_lines drafts = build_from total_lines 0 drafts [] no_counts
