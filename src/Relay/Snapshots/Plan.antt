-- ===== src/Relay/Snapshots/Plan.antt =====
-- Sorted snapshots: what sorting, filtering and an index have to do with each other.
use scriptum.Prelude.{
  ℕ, zero, suc, ◌≤◌, ◌<◌, ◌≡◌, ◌≢◌, refl, Bool, false, not, inl, inr, List, [], ◌∷◌, map, filter,
  take, length, get_or, ltb, nat_eq, if◌then◌else◌, All, All-map, All-filter, filter-none, arith,
  Bool-cases,
}
use scriptum.Prelude.Sort.{sort_by, insert_sorted, All-sort_by, All-insert_sorted}
use scriptum.Relay.Snapshots.{SnapshotRow, newest_first, seq_of}

-- The primary key: no sequence number twice.
abbrev pub Distinct : List SnapshotRow → Type 0
Distinct [] = Unit
Distinct (x ∷ xs) = All (λ (y : SnapshotRow). y.snapshot_seq ≢ x.snapshot_seq) xs × Distinct xs

-- Every row is newer than those after it.
abbrev pub Falling : List SnapshotRow → Type 0
Falling [] = Unit
Falling (x ∷ xs) = All (λ (y : SnapshotRow). y.snapshot_seq < x.snapshot_seq) xs × Falling xs

insert-Falling :
    (x : SnapshotRow) (ys : List SnapshotRow)
    → All (λ (y : SnapshotRow). y.snapshot_seq ≢ x.snapshot_seq) ys
    → Falling ys
    → Falling (insert_sorted newest_first x ys)
unfolding insert_sorted
insert-Falling x [] ne f = (tt, tt)
insert-Falling x (y ∷ ys) ne f = elim (Bool-cases (newest_first x y)) [
  | inl e ↦
      let lt : y.snapshot_seq < x.snapshot_seq = ground (arith, ne.0) in
      rw e (
        (
          lt,
          All-map (λ (z : SnapshotRow). z.snapshot_seq < y.snapshot_seq)
              (λ (z : SnapshotRow). z.snapshot_seq < x.snapshot_seq) (λ z h. omega arith) ys f.0,
        ),
        f,
      )
  | inr e ↦ rw e (
    All-insert_sorted newest_first (λ (z : SnapshotRow). z.snapshot_seq < y.snapshot_seq) x ys
        (ground arith) f.0,
    insert-Falling x ys ne.1 f.1,
  )
]

pub sort-Falling : (xs : List SnapshotRow) → Distinct xs → Falling (sort_by newest_first xs)
unfolding sort_by
sort-Falling [] d = tt
sort-Falling (x ∷ xs) d =
    insert-Falling x (sort_by newest_first xs)
      (All-sort_by newest_first (λ (y : SnapshotRow). y.snapshot_seq ≢ x.snapshot_seq) xs d.0)
      (sort-Falling xs d.1)

-- Filtering commutes with sorting.
insert_newest :
    (x : SnapshotRow) (ys : List SnapshotRow)
    → All (λ (y : SnapshotRow). y.snapshot_seq ≤ x.snapshot_seq) ys
    → insert_sorted newest_first x ys ≡ x ∷ ys
unfolding insert_sorted
insert_newest x [] h = refl
insert_newest x (y ∷ ys) h = ground arith

filter-insert_sorted :
    (p : SnapshotRow → Bool) (x : SnapshotRow) (ys : List SnapshotRow)
    → Falling ys
    → filter p (insert_sorted newest_first x ys)
      ≡ (if p x then insert_sorted newest_first x (filter p ys) else filter p ys)
unfolding insert_sorted
filter-insert_sorted p x [] f = refl
filter-insert_sorted p x (y ∷ ys) f = elim (Bool-cases (newest_first x y)) [
  | inl e ↦
      let below : All (λ (z : SnapshotRow). z.snapshot_seq ≤ x.snapshot_seq) (y ∷ ys) = (
        ground arith,
        All-map (λ (z : SnapshotRow). z.snapshot_seq < y.snapshot_seq)
            (λ (z : SnapshotRow). z.snapshot_seq ≤ x.snapshot_seq) (λ z h. ground arith) ys f.0,
      ) in
      let kept =
        All-filter (λ (z : SnapshotRow). z.snapshot_seq ≤ x.snapshot_seq) p (y ∷ ys) below in
      rw (insert_newest x (filter p (y ∷ ys)) kept) (rw e refl)
  | inr e ↦ rw e (ground (arith, filter-insert_sorted p x ys f.1))
]

pub filter-sort_by :
    (p : SnapshotRow → Bool) (xs : List SnapshotRow)
    → Distinct xs
    → filter p (sort_by newest_first xs) ≡ sort_by newest_first (filter p xs)
unfolding sort_by
filter-sort_by p [] d = refl
filter-sort_by p (x ∷ xs) d = ground (
  arith,
  filter-insert_sorted p x (sort_by newest_first xs) (sort-Falling xs d.1),
  filter-sort_by p xs d.1,
)

-- The rows from the one at an index on are those that are as new.
abbrev pub from_seq : ℕ → SnapshotRow → Bool
from_seq seq row = not (ltb row.snapshot_seq seq)

get_or-lt :
    (i : ℕ) (xs : List SnapshotRow) (x : SnapshotRow)
    → All (λ (y : SnapshotRow). y.snapshot_seq < x.snapshot_seq) xs
    → i < length xs
    → get_or (map seq_of xs) i 0 < x.snapshot_seq
get_or-lt i [] x h lt = absurd (omega arith)
get_or-lt zero (y ∷ ys) x h lt = h.0
get_or-lt (suc i) (y ∷ ys) x h lt = get_or-lt i ys x h.1 (omega arith)

pub filter-take :
    (i : ℕ) (rows : List SnapshotRow)
    → Falling rows
    → i < length rows
    → filter (from_seq (get_or (map seq_of rows) i 0)) rows ≡ take (suc i) rows
filter-take i [] f lt = absurd (omega arith)
filter-take zero (x ∷ xs) f lt =
    let gone = filter-none (from_seq x.snapshot_seq) xs (
      All-map (λ (z : SnapshotRow). z.snapshot_seq < x.snapshot_seq)
        (λ (z : SnapshotRow). from_seq x.snapshot_seq z ≡ false) (λ z h. ground arith) xs f.0) in
    ground (arith, gone)
filter-take (suc i) (x ∷ xs) f lt =
    ground (arith, filter-take i xs f.1 (omega arith), get_or-lt i xs x f.0 (omega arith))
