-- ===== src/Prelude/HashMap.antt =====
-- `HashMap` and `BTreeMap`: an association list that holds each key once. The order of the entries
-- is not part of what the program relies on; where it sorts, the model sorts.
use mathlib.Core.Path.{◌≡◌, refl}
use mathlib.Core.Logic.{inl, inr}
use mathlib.Core.Bool.{Bool}
use mathlib.Core.Option.{Option, none, some}
use mathlib.Core.List.{List, [], ◌∷◌}
use native.Mathlib.Omega.{arith}
use scriptum.Prelude.Tests.{if◌then◌else◌, is_some, Bool-cases}
use scriptum.Prelude.Equality.{Eq, ◌==◌, ==_refl}

abbrev pub HashMap {ℓ κ} : Type ℓ → Type κ → Type (ℓ ⊔ κ)
HashMap K V = List (K × V)

-- The value that `retain` leaves.
abbrev pub keep_if {κ} : {V : Type κ} → (V → Bool) → Option V → Option V
keep_if p none = none
keep_if p (some v) = if p v then some v else none

module _ {ℓ κ} {K : Type ℓ} {V : Type κ} ⦃e : Eq K⦄ where
  unfoldable pub get : K → HashMap K V → Option V
  get key [] = none
  get key ((other, value) ∷ rest) = if other == key then some value else get key rest

  -- The old value of the key is replaced where it stands.
  unfoldable pub insert : K → V → HashMap K V → HashMap K V
  insert key new [] = (key, new) ∷ []
  insert key new ((other, old) ∷ rest) =
      if other == key then (key, new) ∷ rest else (other, old) ∷ insert key new rest

  unfoldable pub remove : K → HashMap K V → HashMap K V
  remove k [] = []
  remove k ((j, w) ∷ m) = if j == k then remove k m else (j, w) ∷ remove k m

  -- `retain`: keeps the entries that pass the test.
  unfoldable pub retain : (K → V → Bool) → HashMap K V → HashMap K V
  retain p [] = []
  retain p ((j, w) ∷ m) = if p j w then (j, w) ∷ retain p m else retain p m

  abbrev pub contains_key : K → HashMap K V → Bool
  contains_key k m = is_some (get k m)

  -- No key occurs twice.
  abbrev pub Unique : HashMap K V → Type κ
  Unique [] = Unit
  Unique ((k, v) ∷ m) = (get k m ≡ none) × Unique m

  pub get-insert :
      (k j : K) (v : V) (m : HashMap K V)
      → get j (insert k v m) ≡ (if k == j then some v else get j m)
  unfolding get insert
  get-insert k j v [] = refl
  get-insert k j v ((i, w) ∷ m) =
      ground (arith, e.test_iff k j, e.test_iff i k, e.test_iff i j, get-insert k j v m)

  pub get-insert_self : (k : K) (v : V) (m : HashMap K V) → get k (insert k v m) ≡ some v
  get-insert_self k v m = rw (get-insert, ==_refl k)

  pub get-remove :
      (k j : K) (m : HashMap K V) → get j (remove k m) ≡ (if k == j then none else get j m)
  unfolding get remove
  get-remove k j [] = ground arith
  get-remove k j ((i, w) ∷ m) =
      ground (arith, e.test_iff k j, e.test_iff i k, e.test_iff i j, get-remove k j m)

  get-retain-none :
      (p : K → V → Bool) (k : K) (m : HashMap K V) → get k m ≡ none → get k (retain p m) ≡ none
  unfolding get retain
  get-retain-none p k [] h = refl
  get-retain-none p k ((i, w) ∷ m) h = ground (arith, get-retain-none p k m)

  pub get-retain :
      (p : K → V → Bool) (k : K) (m : HashMap K V)
      → Unique m
      → get k (retain p m) ≡ keep_if (p k) (get k m)
  unfolding get retain
  get-retain p k [] u = refl
  get-retain p k ((i, w) ∷ m) u =
      ground (arith, e.test_iff i k, get-retain p k m u.1, get-retain-none p i m u.0)

  pub Unique-insert : (k : K) (v : V) (m : HashMap K V) → Unique m → Unique (insert k v m)
  unfolding get insert
  Unique-insert k v [] u = (refl, tt)
  Unique-insert k v ((i, w) ∷ m) u = elim (Bool-cases (i == k)) [
    | inl same ↦ rw same (rw (← (e.test_iff i k).0 same) u)
    | inr other ↦ rw other (
      ground (arith, get-insert k i v m, e.test_iff i k, e.test_iff k i),
      Unique-insert k v m u.1,
    )
  ]

  pub Unique-remove : (k : K) (m : HashMap K V) → Unique m → Unique (remove k m)
  unfolding get remove
  Unique-remove k [] u = tt
  Unique-remove k ((i, w) ∷ m) u = elim (Bool-cases (i == k)) [
    | inl same ↦ rw same (Unique-remove k m u.1)
    | inr other ↦ rw other (ground (arith, get-remove k i m), Unique-remove k m u.1)
  ]

  pub Unique-retain : (p : K → V → Bool) (m : HashMap K V) → Unique m → Unique (retain p m)
  unfolding get retain
  Unique-retain p [] u = tt
  Unique-retain p ((i, w) ∷ m) u = elim (Bool-cases (p i w)) [
    | inl kept ↦ rw kept (get-retain-none p i m u.0, Unique-retain p m u.1)
    | inr gone ↦ rw gone (Unique-retain p m u.1)
  ]
