-- ===== src/Common/NormalPath/Tests.antt =====
-- A path with a backslash and superfluous slashes, where the Unicode normal form changes nothing.
use scriptum.Prelude.{ℕ, Bool, [], ◌∷◌, ◌≡◌, refl, ◌==◌, nat_eq, ◌≤◌, length, All}
use scriptum.Prelude.Chars.{Chars, split}
use scriptum.Prelude.Results.{ok, err}
use scriptum.Common.NormalPath.{traversal, slash, normalize_path}
use scriptum.Common.NormalPath.Safety.{IsComponent, normalize_path_safe, normalize_path_idempotent}

abbrev same : Chars → Chars
same cs = cs

abbrev is_space : ℕ → Bool
is_space c = c == 32

-- `\ab//c/`
abbrev messy : Chars
messy = 92 ∷ 97 ∷ 98 ∷ 47 ∷ 47 ∷ 99 ∷ 47 ∷ []

abbrev clean : Chars
clean = 97 ∷ 98 ∷ 47 ∷ 99 ∷ []

cleaned : normalize_path same is_space messy ≡ ok clean
unfolding normalize_path
cleaned = refl

-- `a\..\b`
above :
    normalize_path same is_space (97 ∷ 92 ∷ 46 ∷ 46 ∷ 92 ∷ 98 ∷ []) ≡ err (traversal (46 ∷ 46 ∷ []))
unfolding normalize_path
above = refl

normalize_path_safe_example :
    All (IsComponent same is_space) (split slash clean) × (length clean ≤ 512)
normalize_path_safe_example = normalize_path_safe same is_space messy clean cleaned

normalize_path_idempotent_example : normalize_path same is_space clean ≡ ok clean
normalize_path_idempotent_example =
    normalize_path_idempotent same is_space messy clean cleaned refl refl
