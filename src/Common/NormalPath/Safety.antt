-- ===== src/Common/NormalPath/Safety.antt =====
-- A normal path names a file below the root, and is its own normal form.
use scriptum.Prelude.{
  ℕ, ◌≤◌, ◌≡◌, ◌≢◌, refl, sym, ◌∙◌, Bool, true, false, inl, inr, List, [], ◌∷◌, map, length, any,
  ltb, nat_eq, if◌then◌else◌, All, All-filter, filter-passes, filter-All, arith, Bool-cases,
}
use scriptum.Common.NormalPath.{
  PathError, slash, backslash, dot, has_text, is_empty, is_dot, is_dot_dot, is_blank,
  check_components, joined, components_of, normalize_path, forward, is_null,
}
use scriptum.Prelude.Results.{Result, ok, err}
use scriptum.Prelude.Chars.{Chars, split, join, Plain, split-Plain, split-join, split-All, join-All}

-- Three guards that were passed.
guards {ℓ} :
    {A : Type ℓ} {out : A} (e1 e2 e3 : PathError) (a b c : Bool) (r : Result PathError A)
    → (if a then err e1 else if b then err e2 else if c then err e3 else r) ≡ ok out
    → (a ≡ false) × (b ≡ false) × (c ≡ false) × (r ≡ ok out)
guards e1 e2 e3 true b c r e = cc
guards e1 e2 e3 false true c r e = cc
guards e1 e2 e3 false false true r e = cc
guards e1 e2 e3 false false false r e = (refl, refl, refl, e)

joined_ok :
    (nfkc : Chars → Chars) (is_whitespace : ℕ → Bool) (r : Result PathError (List Chars))
    (path : Chars)
    → joined nfkc is_whitespace r ≡ ok path
    → (components : List Chars) × (r ≡ ok components)
      × (path ≡ join slash components)
      × (length path ≤ 512)
joined_ok nfkc is_whitespace (err x) path e = cc
joined_ok nfkc is_whitespace (ok components) path e =
    elim (Bool-cases (ltb 512 (length (join slash components)))) [
      | inl f ↦ let z = rw f at e in cc
      | inr f ↦
          let z = rw f at e in
          let same : path ≡ join slash components = cc in
          (components, refl, same, rw same (ground arith))
    ]

module _ (nfkc : Chars → Chars) (is_whitespace : ℕ → Bool) where
  -- A component that names something in its directory, and holds no separator of another system.
  pub record IsComponent (part : Chars) : Type 0 where
    pub not_empty : part ≢ []
    pub not_here : part ≢ dot ∷ []
    pub not_above : part ≢ dot ∷ dot ∷ []
    pub has_ink : ¬ All (λ c. is_whitespace c ≡ true) part
    pub no_backslash : All (λ c. c ≢ backslash) part

  abbrev Passes : Chars → Type 0
  Passes part =
      (is_dot part ≡ false) × (is_dot_dot part ≡ false) × (is_blank nfkc is_whitespace part ≡ false)

  -- A check that succeeds has passed every component.
  check-Passes :
      (components out : List Chars) (result : Result PathError (List Chars))
      → check_components nfkc is_whitespace components result ≡ ok out
      → (result ≡ ok out) × All Passes components
  unfolding check_components
  check-Passes [] out result e = (e, tt)
  check-Passes (c ∷ cs) out result e =
      let g =
        guards _ _ _ (is_dot c) (is_dot_dot c) (is_blank nfkc is_whitespace c)
          (check_components nfkc is_whitespace cs result) e in
      let r = check-Passes cs out result g.3 in (r.0, ((g.0, g.1, g.2), r.1))

  Passes-check :
      (components : List Chars) (result : Result PathError (List Chars))
      → All Passes components
      → check_components nfkc is_whitespace components result ≡ result
  unfolding check_components
  Passes-check [] result h = refl
  Passes-check (c ∷ cs) result h = rw h.0.0 (rw h.0.1 (rw h.0.2 (Passes-check cs result h.1)))

  blank-All :
      (part : Chars)
      → All (λ c. is_whitespace c ≡ true) part
      → is_blank nfkc is_whitespace part ≡ true
  blank-All [] h = refl
  blank-All (c ∷ cs) h = ground (arith, h.0, blank-All cs h.1)

  Passes-IsComponent :
      (part : Chars)
      → Passes part
      → has_text part ≡ true
      → All (λ c. c ≢ backslash) part
      → IsComponent part
  Passes-IsComponent part (d, dd, b) t n = record {
    not_empty = λ e. let z = rw e at t in cc;
    not_here = λ e. let z = rw e at d in cc;
    not_above = λ e. let z = rw e at dd in cc;
    has_ink = λ h. let z = sym (blank-All part h) ∙ b in cc;
    no_backslash = n;
  }

  forward-plain : (cs : Chars) → All (λ c. c ≢ backslash) (map forward cs)
  forward-plain [] = tt
  forward-plain (c ∷ cs) = ((λ e. ground arith), forward-plain cs)

  -- What a successful run has found.
  record Found (input path : Chars) : Type 0 where
    some_component : is_empty (components_of nfkc is_whitespace input) ≡ false
    passed : All Passes (components_of nfkc is_whitespace input)
    path_is : path ≡ join slash (components_of nfkc is_whitespace input)
    short : length path ≤ 512

  normalize-Found :
      (input path : Chars) → normalize_path nfkc is_whitespace input ≡ ok path → Found input path
  unfolding normalize_path
  normalize-Found input path e =
      let components = components_of nfkc is_whitespace input in
      let g =
        guards _ _ _ (is_empty input) (any is_null input) (is_empty components)
          (joined nfkc is_whitespace
            (check_components nfkc is_whitespace components (ok components)))
          e in
      let (out, checked, path_is, short) =
        joined_ok nfkc is_whitespace
          (check_components nfkc is_whitespace components (ok components)) path g.3 in
      let passed = check-Passes components out (ok components) checked in
      let same : out ≡ components = cc (passed.0) in
      record {
        some_component = g.2;
        passed = passed.1;
        path_is = rw (← same) path_is;
        short = short;
      }

  -- The parts of a joined list of components.
  components_split :
      (components : List Chars)
      → is_empty components ≡ false
      → All (Plain slash) components
      → split slash (join slash components) ≡ components
  components_split [] e h = cc
  components_split (part ∷ parts) e h = split-join slash part parts h

  components-Plain : (input : Chars) → All (Plain slash) (components_of nfkc is_whitespace input)
  components-Plain input =
      All-filter (Plain slash) has_text (split slash (map forward (nfkc input)))
        (split-Plain slash (map forward (nfkc input)))

  zip-IsComponent :
      (parts : List Chars)
      → All Passes parts
      → All (λ part. has_text part ≡ true) parts
      → All (All (λ c. c ≢ backslash)) parts
      → All IsComponent parts
  zip-IsComponent [] p t n = tt
  zip-IsComponent (part ∷ parts) p t n =
      (Passes-IsComponent part p.0 t.0 n.0, zip-IsComponent parts p.1 t.1 n.1)

  -- A path that normalisation accepts has at most 512 characters, and each of its parts between slashes
  -- is not empty, names neither the directory itself nor the one above, is not all white space, and has
  -- no backslash, whatever the Unicode normal form does.
  pub normalize_path_safe :
      (input path : Chars)
      → normalize_path nfkc is_whitespace input ≡ ok path
      → All IsComponent (split slash path) × (length path ≤ 512)
  normalize_path_safe input path e =
      let f = normalize-Found input path e in
      let raw = split slash (map forward (nfkc input)) in
      let components = components_of nfkc is_whitespace input in
      let parts : split slash path ≡ components =
        rw f.path_is (components_split components f.some_component (components-Plain input)) in
      let no_back = All-filter (All (λ c. c ≢ backslash)) has_text raw (
        split-All slash (λ c. c ≢ backslash) (map forward (nfkc input))
          (forward-plain (nfkc input))) in
      (rw parts (zip-IsComponent components f.passed (filter-passes has_text raw) no_back), f.short)

  forward_keeps : (cs : Chars) → All (λ c. c ≢ backslash) cs → map forward cs ≡ cs
  forward_keeps [] h = refl
  forward_keeps (c ∷ cs) h = ground (arith, h.0, forward_keeps cs h.1)

  has_parts : (path : Chars) → All IsComponent (split slash path) → is_empty path ≡ false
  unfolding split
  has_parts [] h = absurd (h.0.not_empty refl)
  has_parts (c ∷ cs) h = refl

  -- The components of a path that is normal are those it was joined from.
  components_again :
      (input path : Chars)
      → Found input path
      → nfkc path ≡ path
      → components_of nfkc is_whitespace path ≡ components_of nfkc is_whitespace input
  components_again input path f normal =
      let raw = split slash (map forward (nfkc input)) in
      let components = components_of nfkc is_whitespace input in
      let no_back = All-filter (All (λ c. c ≢ backslash)) has_text raw (
        split-All slash (λ c. c ≢ backslash) (map forward (nfkc input))
          (forward-plain (nfkc input))) in
      let plain : All (λ c. c ≢ backslash) path =
        rw f.path_is (join-All slash (λ c. c ≢ backslash) components (omega arith) no_back) in
      let parts : split slash path ≡ components =
        rw f.path_is (components_split components f.some_component (components-Plain input)) in
      rw normal (
        rw (forward_keeps path plain)
          (rw parts (filter-All has_text components (filter-passes has_text raw))))

  -- A normal path is its own normal form, if it has no null character and the Unicode normal form
  -- leaves it as it is.
  pub normalize_path_idempotent :
      (input path : Chars)
      → normalize_path nfkc is_whitespace input ≡ ok path
      → nfkc path ≡ path
      → any is_null path ≡ false
      → normalize_path nfkc is_whitespace path ≡ ok path
  unfolding normalize_path
  normalize_path_idempotent input path e normal no_null =
      let f = normalize-Found input path e in
      let components = components_of nfkc is_whitespace input in
      let some_part = has_parts path (normalize_path_safe input path e).0 in
      let size : ltb 512 (length path) ≡ false = (let s = f.short in ground arith) in
      rw some_part (
        rw no_null (
          rw (components_again input path f normal) (
            rw f.some_component (
              rw (Passes-check components (ok components) f.passed)
                (rw (← f.path_is) (rw size refl))))))
