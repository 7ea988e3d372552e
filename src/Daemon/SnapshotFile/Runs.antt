-- ===== src/Daemon/SnapshotFile/Runs.antt =====
-- crates/daemon/src/store/snapshot.rs: run-length encoding.
use scriptum.Prelude.{
  ℕ, zero, suc, ◌+◌, ◌%◌, ◌&&◌, some, List, [], ◌∷◌, ◌++◌, ◌≡◌, refl, ap, ◌∙◌, sym, arith, inl, inr,
  length, replicate, ltb, ◌==◌, nat_eq, Bool-cases,
}
use scriptum.Daemon.SnapshotFile.{rle_runs, rle_compress, rle_expand, rle_decompress}

-- A run that is one longer.
replicate-suc : (n b : ℕ) (xs : List ℕ) → replicate (suc n) b ++ xs ≡ replicate n b ++ (b ∷ xs)
replicate-suc zero b xs = refl
replicate-suc (suc n) b xs = ap (◌∷◌ b) (replicate-suc n b xs)

expand-runs : (xs : List ℕ) (b n : ℕ) → rle_expand (rle_runs b n xs) ≡ replicate n b ++ xs
unfolding rle_expand rle_runs
expand-runs [] b n = refl
expand-runs (x ∷ xs) b n = elim (Bool-cases (x == b && ltb n 255)) [
  | inl same ↦
      let e : x ≡ b = ground arith in
      let k : n + 1 ≡ suc n = omega arith in
      rw (same, rle_runs)
        (expand-runs xs b (n + 1)
          ∙ ap (λ (m : ℕ). replicate m b ++ xs) k
          ∙ replicate-suc n b xs
          ∙ ap (λ (y : ℕ). replicate n b ++ (y ∷ xs)) (sym e))
  | inr other ↦ rw (other, rle_runs) (ap (λ (r : List ℕ). replicate n b ++ r) (expand-runs xs x 1))
]

even-runs : (xs : List ℕ) (b n : ℕ) → length (rle_runs b n xs) % 2 ≡ 0
unfolding rle_runs
even-runs [] b n = omega arith
even-runs (x ∷ xs) b n = elim (Bool-cases (x == b && ltb n 255)) [
  | inl same ↦ rw (same, rle_runs) (even-runs xs b (n + 1))
  | inr other ↦ rw (other, rle_runs) (omega (arith, even-runs xs x 1))
]

-- What run-length encoding compresses it decompresses to the input.
pub decompress-compress : (input : List ℕ) → rle_decompress (rle_compress input) ≡ some input
unfolding rle_decompress rle_compress rle_expand
decompress-compress [] = refl
decompress-compress (b ∷ input) = ground (arith, even-runs input b 1, expand-runs input b 1)
