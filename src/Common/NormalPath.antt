-- ===== src/Common/NormalPath.antt =====
-- crates/common/src/path/normalize.rs: the normal form of a document's path. A text is the list of its
-- code points. The normalisation form NFKC is a parameter, and so is which characters are white space.
pub mod Safety
mod Tests
use scriptum.Prelude.Chars.{Chars, split, join}
use scriptum.Prelude.Results.{Result, ok, err}
use scriptum.Prelude.{
  ℕ, ◌≡◌, Bool, true, false, not, List, [], ◌∷◌, ◌++◌, map, filter, length, any, ltb, ◌==◌, nat_eq,
  if◌then◌else◌,
}

abbrev pub max_path_chars : ℕ
max_path_chars = 512

pub data PathError : Type 0 where
  empty : PathError
  too_long : PathError
  traversal : Chars → PathError
  null_byte : PathError
  invalid_component : PathError

abbrev pub slash : ℕ
slash = 47

abbrev pub backslash : ℕ
backslash = 92

abbrev pub dot : ℕ
dot = 46

abbrev pub is_empty {ℓ} : {A : Type ℓ} → List A → Bool
is_empty [] = true
is_empty (x ∷ xs) = false

abbrev pub forward : ℕ → ℕ
forward c = if c == backslash then slash else c

abbrev pub has_text : Chars → Bool
has_text part = not (is_empty part)

abbrev pub is_dot : Chars → Bool
is_dot (a ∷ []) = a == dot
is_dot other = false

abbrev pub is_dot_dot : Chars → Bool
is_dot_dot (a ∷ b ∷ []) = if a == dot then b == dot else false
is_dot_dot other = false

abbrev pub is_null : ℕ → Bool
is_null c = c == 0

module _ (nfkc : Chars → Chars) (is_whitespace : ℕ → Bool) where
  -- `trim().is_empty()`.
  abbrev pub is_blank : Chars → Bool
  is_blank part = not (any (λ c. not (is_whitespace c)) part)

  -- The loop over the components: `ok` if all are valid.
  unfoldable pub check_components :
      List Chars → Result PathError (List Chars) → Result PathError (List Chars)
  check_components [] result = result
  check_components (component ∷ components) result =
      let rest = check_components components result in
      if is_dot component
      then err (traversal (dot ∷ []))
      else if is_dot_dot component
      then err (traversal (dot ∷ dot ∷ []))
      else if is_blank component
      then err invalid_component
      else rest

  abbrev pub components_of : Chars → List Chars
  components_of input = filter has_text (split slash (map forward (nfkc input)))

  abbrev pub joined : Result PathError (List Chars) → Result PathError Chars
  joined (err e) = err e
  joined (ok components) =
      let result = join slash components in
      if ltb max_path_chars (length result) then err too_long else ok result

  unfoldable pub normalize_path : Chars → Result PathError Chars
  unfolding split join check_components
  normalize_path input =
      if is_empty input
      then err empty
      else if any is_null input
      then err null_byte
      else (let components = components_of input in
          if is_empty components
          then err empty
          else joined (check_components components (ok components)))
