-- ===== src/Prelude/Chars.antt =====
-- Texts as lists of code points, split at a separator and joined with it.
use Prim.Native.Nat.{ℕ}
use mathlib.Core.Path.{◌≡◌, refl, ap, ◌∙◌}
use mathlib.Core.Logic.{◌≢◌, inl, inr}
use mathlib.Core.List.{List, [], ◌∷◌, ◌++◌}
use native.Mathlib.Omega.{arith}
use scriptum.Prelude.Tests.{if◌then◌else◌, Bool-cases}
use scriptum.Prelude.Lists.{All, All-append}
use scriptum.Prelude.Equality.{◌==◌, nat_eq, ==_refl}

abbrev pub Chars : Type 0
Chars = List ℕ

-- The first of the parts with a character in front of it.
abbrev pub onto_first : ℕ → List Chars → List Chars
onto_first c [] = (c ∷ []) ∷ []
onto_first c (part ∷ parts) = (c ∷ part) ∷ parts

module _ (sep : ℕ) where
  -- `split`, which gives one part more than there are separators.
  unfoldable pub split : Chars → List Chars
  split [] = [] ∷ []
  split (c ∷ cs) = if c == sep then [] ∷ split cs else onto_first c (split cs)

  -- `join`.
  unfoldable pub join : List Chars → Chars
  join [] = []
  join (part ∷ []) = part
  join (part ∷ next ∷ parts) = part ++ (sep ∷ join (next ∷ parts))

  -- A text without the separator.
  abbrev pub Plain : Chars → Type 0
  Plain = All (λ c. c ≢ sep)

  onto_first-Plain :
      (c : ℕ) (parts : List Chars) → c ≢ sep → All Plain parts → All Plain (onto_first c parts)
  onto_first-Plain c [] ne h = ((ne, tt), tt)
  onto_first-Plain c (part ∷ parts) ne h = ((ne, h.0), h.1)

  pub split-Plain : (cs : Chars) → All Plain (split cs)
  unfolding split
  split-Plain [] = (tt, tt)
  split-Plain (c ∷ cs) = elim (Bool-cases (c == sep)) [
    | inl e ↦ rw e (tt, split-Plain cs)
    | inr e ↦ rw e (onto_first-Plain c (split cs) (λ f. ground arith) (split-Plain cs))
  ]

  -- Splitting a part followed by the separator, and a part alone.
  split-append : (part rest : Chars) → Plain part → split (part ++ (sep ∷ rest)) ≡ part ∷ split rest
  unfolding split
  split-append [] rest h = rw (==_refl sep) refl
  split-append (c ∷ cs) rest h = ground (arith, h.0, split-append cs rest h.1)

  split-part : (part : Chars) → Plain part → split part ≡ part ∷ []
  unfolding split
  split-part [] h = refl
  split-part (c ∷ cs) h = ground (arith, h.0, split-part cs h.1)

  -- Splitting undoes joining.
  pub split-join :
      (part : Chars) (parts : List Chars)
      → All Plain (part ∷ parts)
      → split (join (part ∷ parts)) ≡ part ∷ parts
  unfolding join
  split-join part [] h = split-part part h.0
  split-join part (next ∷ parts) h =
      split-append part (join (next ∷ parts)) h.0 ∙ ap (◌∷◌ part) (split-join next parts h.1)

  -- What holds of all characters of a text holds of those of its parts, and the other way round.
  onto_first-All :
      (P : ℕ → Type 0) (c : ℕ) (parts : List Chars)
      → P c
      → All (All P) parts
      → All (All P) (onto_first c parts)
  onto_first-All P c [] p h = ((p, tt), tt)
  onto_first-All P c (part ∷ parts) p h = ((p, h.0), h.1)

  pub split-All : (P : ℕ → Type 0) (cs : Chars) → All P cs → All (All P) (split cs)
  unfolding split
  split-All P [] h = (tt, tt)
  split-All P (c ∷ cs) h = elim (Bool-cases (c == sep)) [
    | inl e ↦ rw e (tt, split-All P cs h.1)
    | inr e ↦ rw e (onto_first-All P c (split cs) h.0 (split-All P cs h.1))
  ]

  pub join-All :
      (P : ℕ → Type 0) (parts : List Chars) → P sep → All (All P) parts → All P (join parts)
  unfolding join
  join-All P [] p h = tt
  join-All P (part ∷ []) p h = h.0
  join-All P (part ∷ next ∷ parts) p h =
      All-append P part (sep ∷ join (next ∷ parts)) h.0 (p, join-All P (next ∷ parts) p h.1)
