-- ===== src/Relay/Snapshots/Retained.antt =====
-- Which snapshots a compaction leaves.
use scriptum.Prelude.{
  ℕ, zero, suc, ◌-◌, ◌≤◌, ◌<◌, ◌≡◌, ◌≢◌, refl, Bool, true, false, inl, inr, none, some, List, [],
  ◌∷◌, ◌++◌, map, filter, take, length, any, get_or, min, max, leb, nat_eq, ==_refl, All,
  All-append, leb→le, filter-append, arith, Bool-cases, ap, ◌∙◌, sym,
}
use scriptum.Prelude.Numbers.{Uuid, Instant, i64_max}
use scriptum.Prelude.Sort.{sort_by, Sorted, sort_by-Sorted'}
use scriptum.Relay.Snapshots.{
  SnapshotRow, Tables, SnapshotCandidate, SnapshotCompactorConfig, build_compaction_plan, plan_of,
  compact, insert_snapshot, snapshot_stays, of_doc, retained_seqs, descending, newest_first,
  snapshots_of, seq_of, is_row, row_of,
}
use scriptum.Relay.Snapshots.Plan.{
  Distinct, Falling, from_seq, sort-Falling, filter-sort_by, filter-take,
}

-- The primary key of the table for one document.
abbrev pub KeyHolds : Uuid → Uuid → List SnapshotRow → Type 0
KeyHolds workspace doc rows = Distinct (filter (of_doc workspace doc) rows)

Distinct-snoc :
    (xs : List SnapshotRow) (x : SnapshotRow)
    → Distinct xs
    → All (λ (y : SnapshotRow). x.snapshot_seq ≢ y.snapshot_seq) xs
    → Distinct (xs ++ x ∷ [])
Distinct-snoc [] x d h = (tt, tt)
Distinct-snoc (y ∷ ys) x d h = (
  All-append (λ (z : SnapshotRow). z.snapshot_seq ≢ y.snapshot_seq) ys (x ∷ []) d.0 (h.0, tt),
  Distinct-snoc ys x d.1 h.1,
)

no_row :
    (candidate : SnapshotCandidate) (rows : List SnapshotRow)
    → any (is_row candidate) rows ≡ false
    → All
        (λ (y : SnapshotRow). candidate.snapshot_seq ≢ y.snapshot_seq)
        (filter (of_doc candidate.workspace_id candidate.doc_id) rows)
no_row candidate [] h = tt
no_row candidate (x ∷ xs) h = elim (Bool-cases (of_doc candidate.workspace_id candidate.doc_id x)) [
  | inl e ↦ rw e (ground arith, no_row candidate xs (ground arith))
  | inr e ↦ rw e (no_row candidate xs (ground arith))
]

-- The insertion keeps the primary key.
insert-KeyHolds :
    (candidate : SnapshotCandidate) (created_at : Instant) (rows : List SnapshotRow)
    → KeyHolds candidate.workspace_id candidate.doc_id rows
    → KeyHolds candidate.workspace_id candidate.doc_id (insert_snapshot candidate created_at rows)
unfolding insert_snapshot
insert-KeyHolds candidate created_at rows k = elim (Bool-cases (any (is_row candidate) rows)) [
  | inl e ↦ rw e k
  | inr e ↦
      let w = candidate.workspace_id in
      let d = candidate.doc_id in
      let row = row_of candidate created_at in
      let own : filter (of_doc w d) (row ∷ []) ≡ row ∷ [] = rw (==_refl w) (rw (==_refl d) refl) in
      rw e (
        rw (filter-append (of_doc w d) rows (row ∷ []))
          (rw own (Distinct-snoc (filter (of_doc w d) rows) row k (no_row candidate rows e))))
]

-- The deletion seen by the document.
filter_stays :
    (workspace doc seq : ℕ) (rows : List SnapshotRow)
    → filter (of_doc workspace doc) (filter (snapshot_stays workspace doc (some seq)) rows)
      ≡ filter (from_seq seq) (filter (of_doc workspace doc) rows)
filter_stays workspace doc seq [] = refl
filter_stays workspace doc seq (x ∷ xs) = ground (arith, filter_stays workspace doc seq xs)

take_all {ℓ} : {A : Type ℓ} (n : ℕ) (xs : List A) → length xs ≤ n → take n xs ≡ xs
take_all zero [] le = refl
take_all zero (x ∷ xs) le = absurd (omega arith)
take_all (suc n) [] le = refl
take_all (suc n) (x ∷ xs) le = ap (◌∷◌ x) (take_all n xs (omega arith))

take-min {ℓ} : {A : Type ℓ} (n : ℕ) (xs : List A) → take (min n (length xs)) xs ≡ take n xs
take-min n xs = elim (Bool-cases (leb n (length xs))) [
  | inl e ↦
      let le = leb→le n (length xs) e in
      ap (λ (k : ℕ). take k xs) (let z : min n (length xs) ≡ n = omega arith in z)
  | inr e ↦
      let le : length xs ≤ n = ground arith in
      let z : min n (length xs) ≡ length xs = omega arith in
      ap (λ (k : ℕ). take k xs) z ∙ (take_all (length xs) xs (omega arith) ∙ sym (take_all n xs le))
]

-- The retained numbers are sorted already.
seqs-Sorted :
    (n : ℕ) (rows : List SnapshotRow) → Falling rows → Sorted descending (map seq_of (take n rows))
seqs-Sorted zero rows f = tt
seqs-Sorted (suc n) [] f = tt
seqs-Sorted (suc n) (x ∷ xs) f = (below n x xs f.0, seqs-Sorted n xs f.1)
  where
    below :
        (n : ℕ) (x : SnapshotRow) (xs : List SnapshotRow)
        → All (λ (y : SnapshotRow). y.snapshot_seq < x.snapshot_seq) xs
        → All (λ y. descending x.snapshot_seq y ≡ true) (map seq_of (take n xs))
    below zero x xs h = tt
    below (suc n) x [] h = tt
    below (suc n) x (y ∷ ys) h = (ground arith, below n x ys h.1)

get_or-take :
    (n i : ℕ) (rows : List SnapshotRow)
    → i < n
    → get_or (map seq_of (take n rows)) i 0 ≡ get_or (map seq_of rows) i 0
get_or-take zero i rows lt = absurd (omega arith)
get_or-take (suc n) i [] lt = refl
get_or-take (suc n) zero (x ∷ xs) lt = refl
get_or-take (suc n) (suc i) (x ∷ xs) lt = get_or-take n i xs (omega arith)

length-map-take :
    (n : ℕ) (rows : List SnapshotRow) → length (map seq_of (take n rows)) ≡ min n (length rows)
length-map-take zero rows = omega arith
length-map-take (suc n) [] = omega arith
length-map-take (suc n) (x ∷ xs) = omega (arith, length-map-take n xs)

-- What the deletion keeps of the rows of the document.
plan_keeps :
    (k : ℕ) (rows : List SnapshotRow)
    → Falling rows
    → 1 ≤ k
    → 0 < length rows
    → filter
        (from_seq (
          get_or
            (map seq_of (take k rows))
            (min (k - 1) (length (map seq_of (take k rows)) - 1))
            0))
        rows
      ≡ take k rows
plan_keeps k rows f pos some_row =
    let i = min (k - 1) (length (map seq_of (take k rows)) - 1) in
    let last = length-map-take k rows in
    let next : suc i ≡ min k (length rows) = omega arith in
    ap (λ (seq : ℕ). filter (from_seq seq) rows) (get_or-take k i rows (omega arith))
    ∙ (filter-take i rows f (omega arith) ∙ (ap (λ (n : ℕ). take n rows) next ∙ take-min k rows))

plan_lem :
    (seqs : List ℕ) (retain : ℕ)
    → 0 < length seqs
    → Sorted descending seqs
    → build_compaction_plan seqs retain ≡ plan_of seqs (max retain 1)
unfolding build_compaction_plan
plan_lem [] retain h s = absurd (omega arith)
plan_lem (seq ∷ seqs) retain h s =
    ap (λ (l : List ℕ). plan_of l (max retain 1)) (sort_by-Sorted' descending (seq ∷ seqs) s)

no_plan :
    (seqs : List ℕ) (retain : ℕ)
    → length seqs ≡ 0
    → (build_compaction_plan seqs retain).delete_snapshots_below_seq ≡ none
unfolding build_compaction_plan
no_plan [] retain h = refl
no_plan (seq ∷ seqs) retain h = absurd (omega arith)

no_elements {ℓ} : {A : Type ℓ} (xs : List A) → length xs ≡ 0 → xs ≡ []
no_elements [] h = refl
no_elements (x ∷ xs) h = absurd (omega arith)

all_stay :
    (workspace doc : Uuid) (rows : List SnapshotRow)
    → filter (snapshot_stays workspace doc none) rows ≡ rows
all_stay workspace doc [] = refl
all_stay workspace doc (x ∷ xs) = ap (◌∷◌ x) (all_stay workspace doc xs)

-- The rows that a deletion by the plan for them leaves.
deleted :
    (retain : ℕ) (workspace doc : Uuid) (rows : List SnapshotRow)
    → KeyHolds workspace doc rows
    → max retain 1 ≤ i64_max
    → (n : ℕ) → length (snapshots_of workspace doc rows) ≡ n
    → snapshots_of workspace doc (
        filter
          (snapshot_stays workspace doc
            (build_compaction_plan
              (retained_seqs retain workspace doc rows)
              retain).delete_snapshots_below_seq)
          rows)
      ≡ take (max retain 1) (snapshots_of workspace doc rows)
deleted retain workspace doc rows key fits zero e =
    let s = snapshots_of workspace doc rows in
    let limit = min (max retain 1) i64_max in
    let nothing =
      no_plan (retained_seqs retain workspace doc rows) retain
        (omega (arith, length-map-take limit s)) in
    rw nothing (rw (all_stay workspace doc rows) (sym (take_all (max retain 1) s (omega arith))))
deleted retain workspace doc rows key fits (suc n) e =
    let s = snapshots_of workspace doc rows in
    let mine = filter (of_doc workspace doc) rows in
    let k = max retain 1 in
    let f = sort-Falling mine key in
    let limit : min k i64_max ≡ k = omega arith in
    let seqs = map seq_of (take k s) in
    let plan = plan_lem seqs retain (omega (arith, length-map-take k s)) (seqs-Sorted k s f) in
    let oldest = get_or seqs (min (k - 1) (length seqs - 1)) 0 in
    rw limit (
      rw plan (
        ap (sort_by newest_first) (filter_stays workspace doc oldest rows)
        ∙ (sym (filter-sort_by (from_seq oldest) mine key)
            ∙ plan_keeps k s f (omega arith) (omega arith))))

-- After a compaction the document has exactly its newest snapshots, as many as are to be retained and
-- at least one, the candidate's counted.
pub compact-retains :
    (config : SnapshotCompactorConfig) (candidate : SnapshotCandidate) (uploaded : Bool)
    (created_at : Instant) (tables : Tables)
    → KeyHolds candidate.workspace_id candidate.doc_id tables.snapshots
    → config.retain_snapshots ≤ i64_max
    → snapshots_of candidate.workspace_id candidate.doc_id
        (compact config candidate uploaded created_at tables).0.snapshots
      ≡ take (max config.retain_snapshots 1) (
          snapshots_of candidate.workspace_id candidate.doc_id
            (insert_snapshot candidate created_at tables.snapshots))
unfolding compact
compact-retains config candidate uploaded created_at tables key fits =
    let w = candidate.workspace_id in
    let d = candidate.doc_id in
    let rows = insert_snapshot candidate created_at tables.snapshots in
    deleted config.retain_snapshots w d rows
      (insert-KeyHolds candidate created_at tables.snapshots key) (omega arith)
      (length (snapshots_of w d rows)) refl
