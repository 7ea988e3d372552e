-- ===== src/Prelude/HashSet.antt =====
-- `HashSet`: a list that holds each element once.
use mathlib.Core.Path.{◌≡◌, refl}
use mathlib.Core.Bool.{Bool, true, false}
use mathlib.Core.List.{List, [], ◌∷◌}
use native.Mathlib.Omega.{arith}
use scriptum.Prelude.Tests.{if◌then◌else◌}
use scriptum.Prelude.Equality.{Eq, ◌==◌}

abbrev pub HashSet {ℓ} : Type ℓ → Type ℓ
HashSet A = List A

module _ {ℓ} {A : Type ℓ} ⦃e : Eq A⦄ where
  unfoldable pub contains : A → HashSet A → Bool
  contains a [] = false
  contains a (x ∷ xs) = if x == a then true else contains a xs

  unfoldable pub insert : A → HashSet A → HashSet A
  insert a [] = a ∷ []
  insert a (x ∷ xs) = if x == a then x ∷ xs else x ∷ insert a xs

  pub contains-insert :
      (a b : A) (xs : HashSet A)
      → contains b (insert a xs) ≡ (if a == b then true else contains b xs)
  unfolding contains insert
  contains-insert a b [] = refl
  contains-insert a b (x ∷ xs) =
      ground (arith, e.test_iff a b, e.test_iff x a, e.test_iff x b, contains-insert a b xs)
