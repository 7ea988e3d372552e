-- ===== src/Prelude/Sort.antt =====
-- `sort_by_key` and `sort_by`: a stable sort by a Boolean comparison.
use Prim.Native.Nat.{ℕ}
use mathlib.Core.Path.{◌≡◌, refl}
use mathlib.Core.Logic.{inl, inr}
use mathlib.Core.Bool.{Bool, true, false}
use mathlib.Core.List.{List, [], ◌∷◌, ◌++◌, Perm}
use mathlib.Core.List.Perm
use native.Mathlib.Omega.{arith}
use scriptum.Prelude.Tests.{leb, if◌then◌else◌, Bool-cases}
use scriptum.Prelude.Lists.{All, All-map}

module _ {ℓ} {A : Type ℓ} (le : A → A → Bool) where
  -- Before the first element that it does not exceed, so equal elements keep their order.
  unfoldable pub insert_sorted : A → List A → List A
  insert_sorted x [] = x ∷ []
  insert_sorted x (y ∷ ys) = if le x y then x ∷ y ∷ ys else y ∷ insert_sorted x ys

  unfoldable pub sort_by : List A → List A
  sort_by [] = []
  sort_by (x ∷ xs) = insert_sorted x (sort_by xs)

  abbrev pub Sorted : List A → Type 0
  Sorted [] = Unit
  Sorted (x ∷ xs) = All (λ y. le x y ≡ true) xs × Sorted xs

  insert_sorted-perm : (x : A) (xs : List A) → Perm (insert_sorted x xs) (x ∷ xs)
  unfolding insert_sorted
  insert_sorted-perm x [] = Perm.refl (x ∷ [])
  insert_sorted-perm x (y ∷ ys) = elim (Bool-cases (le x y)) [
    | inl h ↦ rw h (Perm.refl _)
    | inr h ↦ rw h (Perm.trans (Perm.cons y (insert_sorted-perm x ys)) (Perm.swap x y ys))
  ]

  -- Sorting is a permutation.
  pub sort_by-perm : (xs : List A) → Perm (sort_by xs) xs
  unfolding sort_by
  sort_by-perm [] = Perm.refl []
  sort_by-perm (x ∷ xs) =
      Perm.trans (insert_sorted-perm x (sort_by xs)) (Perm.cons x (sort_by-perm xs))

  pub All-insert_sorted {κ} :
      (P : A → Type κ) (x : A) (xs : List A) → P x → All P xs → All P (insert_sorted x xs)
  unfolding insert_sorted
  All-insert_sorted P x [] p h = (p, tt)
  All-insert_sorted P x (y ∷ ys) p h = elim (Bool-cases (le x y)) [
    | inl e ↦ rw e (p, h)
    | inr e ↦ rw e (h.0, All-insert_sorted P x ys p h.1)
  ]

  -- What holds of all elements holds of all after sorting.
  pub All-sort_by {κ} : (P : A → Type κ) (xs : List A) → All P xs → All P (sort_by xs)
  unfolding sort_by
  All-sort_by P [] h = tt
  All-sort_by P (x ∷ xs) h = All-insert_sorted P x (sort_by xs) h.0 (All-sort_by P xs h.1)

  -- A sorted list is left as it is.
  pub sort_by-Sorted' : (xs : List A) → Sorted xs → sort_by xs ≡ xs
  unfolding sort_by insert_sorted
  sort_by-Sorted' [] h = refl
  sort_by-Sorted' (x ∷ []) h = refl
  sort_by-Sorted' (x ∷ y ∷ ys) h = rw (sort_by-Sorted' (y ∷ ys) h.1, insert_sorted, h.0.0)

  pub Sorted-snoc :
      (xs : List A) (x : A) → Sorted xs → All (λ y. le y x ≡ true) xs → Sorted (xs ++ x ∷ [])
  Sorted-snoc [] x s h = (tt, tt)
  Sorted-snoc (y ∷ ys) x s h = (All-snoc ys s.0 h.0, Sorted-snoc ys x s.1 h.1)
    where
      All-snoc :
          (zs : List A)
          → All (λ z. le y z ≡ true) zs
          → le y x ≡ true
          → All (λ z. le y z ≡ true) (zs ++ x ∷ [])
      All-snoc [] a b = (b, tt)
      All-snoc (z ∷ zs) a b = (a.0, All-snoc zs a.1 b)

  module _ (total : (a b : A) → le a b ≡ false → le b a ≡ true)
      (trans : (a b c : A) → le a b ≡ true → le b c ≡ true → le a c ≡ true) where
    insert_sorted-Sorted : (x : A) (xs : List A) → Sorted xs → Sorted (insert_sorted x xs)
    unfolding insert_sorted
    insert_sorted-Sorted x [] s = (tt, tt)
    insert_sorted-Sorted x (y ∷ ys) s = elim (Bool-cases (le x y)) [
      | inl e ↦ rw e ((e, All-map _ _ (λ z h. trans x y z e h) ys s.0), s)
      | inr e ↦ rw e (
        All-insert_sorted (λ z. le y z ≡ true) x ys (total x y e) s.0,
        insert_sorted-Sorted x ys s.1,
      )
    ]

    -- The result is sorted.
    pub sort_by-Sorted : (xs : List A) → Sorted (sort_by xs)
    unfolding sort_by
    sort_by-Sorted [] = tt
    sort_by-Sorted (x ∷ xs) = insert_sorted-Sorted x (sort_by xs) (sort_by-Sorted xs)

module _ {ℓ} {A : Type ℓ} (key : A → ℕ) where
  abbrev pub by_key : A → A → Bool
  by_key a b = leb (key a) (key b)

  abbrev pub sort_by_key : List A → List A
  sort_by_key = sort_by by_key

  abbrev pub SortedBy : List A → Type 0
  SortedBy = Sorted by_key

  pub sort_by_key-SortedBy : (xs : List A) → SortedBy (sort_by_key xs)
  sort_by_key-SortedBy = sort_by-Sorted by_key (λ a b h. ground arith) (λ a b c g h. ground arith)
