-- ===== src/Common/Sections/Tests.antt =====
-- A document whose headings repeat, at one level and below different parents.
use scriptum.Prelude.{ℕ, List, [], ◌∷◌, ◌≡◌, refl, map}
use scriptum.Prelude.Chars.{Chars}
use scriptum.Common.Sections.{SectionDraft, build_tree}
use scriptum.Common.Sections.Distinct.{DistinctIds, build_tree_distinct}

abbrev same : Chars → Chars
same cs = cs

abbrev draft : Chars → ℕ → ℕ → SectionDraft
draft heading level start_line = record {
  heading = heading;
  level = level;
  start_line = start_line;
}

-- `# a`, `## b c`, `## b-c`, `#`, `# a`
abbrev drafts : List SectionDraft
drafts =
    draft (97 ∷ []) 1 1
    ∷ draft (98 ∷ 32 ∷ 99 ∷ []) 2 3
    ∷ draft (98 ∷ 45 ∷ 99 ∷ []) 2 5
    ∷ draft [] 1 7
    ∷ draft (97 ∷ []) 1 8
    ∷ []

-- `a`, `a/b-c`, `a/b-c~2`, `h1_4`, `a~2`
identifiers :
    map (λ s. s.id) (build_tree same same 9 drafts)
    ≡ (97 ∷ [])
      ∷ (97 ∷ 47 ∷ 98 ∷ 45 ∷ 99 ∷ [])
      ∷ (97 ∷ 47 ∷ 98 ∷ 45 ∷ 99 ∷ 126 ∷ 50 ∷ [])
      ∷ (104 ∷ 49 ∷ 95 ∷ 52 ∷ [])
      ∷ (97 ∷ 126 ∷ 50 ∷ [])
      ∷ []
unfolding build_tree
identifiers = refl

build_tree_distinct_example : DistinctIds (build_tree same same 9 drafts)
build_tree_distinct_example = build_tree_distinct same same 9 drafts
