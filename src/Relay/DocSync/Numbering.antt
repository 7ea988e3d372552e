-- ===== src/Relay/DocSync/Numbering.antt =====
-- crates/relay/src/ws/session.rs, `DocSyncStore`: sequence numbers across a history of calls, for
-- retransmitted updates and for new ones.
use scriptum.Prelude.{
  ℕ, ◌≤◌, ◌<◌, String, some, List, [], ◌∷◌, ◌≡◌, refl, arith, inl, inr, ◌∙◌, ap, Bool-cases, All,
  ◌==◌, pair_eq, nat_eq, if◌then◌else◌, pair_beq_iff,
}
use native.Mathlib.Nat.{le_trans}
use scriptum.Prelude.HashMap
use scriptum.Prelude.HashMap.{get-insert, get-insert_self}
use scriptum.Prelude.Numbers.{Uuid, i64_max, pair_key, ℤ, saturating_add_i64}
use scriptum.Relay.DocSync.{
  DocSyncState, DocSyncStore, UpdateAttribution, push_update, put_state, apply_to_state,
  apply_client_update, state_of, accepted_update, applied, duplicate, set_snapshot, append_update,
  snapshot_state,
}
use scriptum.Relay.DocSync.Invariant.{IsValid}
use scriptum.Relay.DocSync.History.{
  Call, set_snapshot_call, append_update_call, apply_client_update_call, InRange, step, run,
  IsValidStore, step-IsValid, state_of-IsValid,
}
use scriptum.Relay.DocSync.Updates.{result_of, after, after-apply, apply_refuses, refusal}

state_of-put :
    (w d w' d' : Uuid) (s : DocSyncState) (docs : DocSyncStore)
    → state_of w d (put_state w' d' s docs)
      ≡ (if pair_key w' d' == pair_key w d then s else state_of w d docs)
state_of-put w d w' d' s docs = ground (arith, get-insert (w', d') (w, d) s docs)

-- What holds of a document's state after any call that is made for it holds after a call for any
-- document, if it held before.
keeps_by_state {κ} :
    (P : DocSyncState → Type κ) (w d w' d' : Uuid) (t : DocSyncState) (docs : DocSyncStore)
    → (pair_key w' d' ≡ pair_key w d → P t)
    → P (state_of w d docs)
    → P (state_of w d (put_state w' d' t docs))
keeps_by_state P w d w' d' t docs hit kept = elim (Bool-cases (pair_key w' d' == pair_key w d)) [
  | inl same ↦
      rw (state_of-put w d w' d' t docs, same) (hit ((pair_beq_iff (w', d') (w, d)).0 same))
  | inr other ↦ rw (state_of-put w d w' d' t docs, other) kept
]

-- `append_update` is the loader of the log; it may number an update anew.
abbrev pub NoAppend : Call → Type 0
NoAppend (set_snapshot_call n payload) = Unit
NoAppend (append_update_call n client update payload) = ⊥
NoAppend (apply_client_update_call client update base payload a) = Unit

apply-keeps_key :
    (k : Uuid × Uuid) (n : ℕ) (client update : Uuid) (base : ℕ) (payload : String)
    (a : UpdateAttribution) (s : DocSyncState)
    → HashMap.get k s.dedupe ≡ some n
    → HashMap.get k (apply_to_state client update base payload a s).0.dedupe ≡ some n
unfolding apply_to_state push_update
apply-keeps_key k n client update base payload a s h = ground (
  arith,
  get-insert (client, update) k (accepted_update client update payload a s).server_seq s.dedupe,
  pair_beq_iff (client, update) k,
)

pair_path :
    (w d w' d' : Uuid)
    → pair_key w' d' ≡ pair_key w d
    → (docs : DocSyncStore) → state_of w' d' docs ≡ state_of w d docs
pair_path w d w' d' e docs = ap (λ (k : Uuid × Uuid). state_of k.0 k.1 docs) e

step-keeps_key :
    (w d : Uuid) (k : Uuid × Uuid) (n : ℕ) (w' d' : Uuid) (c : Call) (docs : DocSyncStore)
    → NoAppend c
    → HashMap.get k (state_of w d docs).dedupe ≡ some n
    → HashMap.get k (state_of w d (step w' d' c docs)).dedupe ≡ some n
unfolding step set_snapshot apply_client_update snapshot_state
step-keeps_key w d k n w' d' (set_snapshot_call m payload) docs ok h =
    keeps_by_state (λ s. HashMap.get k s.dedupe ≡ some n) w d w' d' _ docs
      (λ e. rw (pair_path w d w' d' e docs) h) h
step-keeps_key w d k n w' d' (append_update_call m client update payload) docs ok h = absurd ok
step-keeps_key w d k n w' d' (apply_client_update_call client update base payload a) docs ok h =
    keeps_by_state (λ s. HashMap.get k s.dedupe ≡ some n) w d w' d' _ docs
      (λ e.
        rw (pair_path w d w' d' e docs)
          (apply-keeps_key k n client update base payload a (state_of w d docs) h))
      h

run-keeps_key :
    (w d : Uuid) (k : Uuid × Uuid) (n : ℕ) (calls : List (Uuid × Uuid × Call)) (docs : DocSyncStore)
    → All (λ (c : Uuid × Uuid × Call). NoAppend c.2) calls
    → HashMap.get k (state_of w d docs).dedupe ≡ some n
    → HashMap.get k (state_of w d (run calls docs)).dedupe ≡ some n
unfolding run
run-keeps_key w d k n [] docs ok h = h
run-keeps_key w d k n ((w', d', c) ∷ calls) docs ok h =
    run-keeps_key w d k n calls (step w' d' c docs) ok.1
      (step-keeps_key w d k n w' d' c docs ok.0 h)

applied-recorded :
    (client update : Uuid) (base n : ℕ) (b : ℤ) (payload : String) (a : UpdateAttribution)
    (s : DocSyncState)
    → (apply_to_state client update base payload a s).1 ≡ applied n b
    → (HashMap.get (client, update) (apply_to_state client update base payload a s).0.dedupe
        ≡ some n)
      × ((apply_to_state client update base payload a s).0.head_server_seq ≡ n)
      × (n ≡ saturating_add_i64 s.head_server_seq 1)
unfolding apply_to_state push_update
applied-recorded client update base n b payload a s h = ground (
  arith,
  get-insert_self (client, update) (accepted_update client update payload a s).server_seq s.dedupe,
)

apply-head :
    (client update : Uuid) (base : ℕ) (payload : String) (a : UpdateAttribution) (s : DocSyncState)
    → s.head_server_seq ≤ i64_max
    → s.head_server_seq ≤ (apply_to_state client update base payload a s).0.head_server_seq
unfolding apply_to_state push_update
apply-head client update base payload a s h = ground arith

step-head :
    (w d : Uuid) (n : ℕ) (w' d' : Uuid) (c : Call) (docs : DocSyncStore)
    → IsValidStore docs
    → n ≤ (state_of w d docs).head_server_seq
    → n ≤ (state_of w d (step w' d' c docs)).head_server_seq
unfolding step set_snapshot append_update apply_client_update snapshot_state push_update
step-head w d n w' d' (set_snapshot_call m payload) docs v h =
    keeps_by_state (λ s. n ≤ s.head_server_seq) w d w' d' _ docs
      (λ e. rw (pair_path w d w' d' e docs) (omega arith)) h
step-head w d n w' d' (append_update_call m client update payload) docs v h =
    keeps_by_state (λ s. n ≤ s.head_server_seq) w d w' d' _ docs
      (λ e. rw (pair_path w d w' d' e docs) (omega arith)) h
step-head w d n w' d' (apply_client_update_call client update base payload a) docs v h =
    let valid : IsValid (state_of w d docs) = state_of-IsValid w d docs v in
    keeps_by_state (λ s. n ≤ s.head_server_seq) w d w' d' _ docs
      (λ e.
        rw (pair_path w d w' d' e docs)
          (le_trans h (apply-head client update base payload a (state_of w d docs) valid.in_range)))
      h

run-head :
    (w d : Uuid) (n : ℕ) (calls : List (Uuid × Uuid × Call)) (docs : DocSyncStore)
    → All (λ (c : Uuid × Uuid × Call). InRange c.2) calls
    → IsValidStore docs
    → n ≤ (state_of w d docs).head_server_seq
    → n ≤ (state_of w d (run calls docs)).head_server_seq
unfolding run
run-head w d n [] docs ok v h = h
run-head w d n ((w', d', c) ∷ calls) docs ok v h =
    run-head w d n calls (step w' d' c docs) ok.1 (step-IsValid w' d' c docs v ok.0)
      (step-head w d n w' d' c docs v h)

module _ (w d client update : Uuid) (base n : ℕ) (b : ℤ) (payload : String) (a : UpdateAttribution)
    (docs : DocSyncStore) (calls : List (Uuid × Uuid × Call))
    (first : result_of w d client update base payload a docs ≡ applied n b) where
  -- The store after the update was applied and the later calls were made.
  abbrev pub later : DocSyncStore
  unfolding apply_client_update
  later = run calls (apply_client_update w d client update base payload a docs).0

  -- An update that was applied is never applied again: after any later calls other than
  -- `append_update`, for any documents, sending it again with any base, payload and attribution
  -- returns the number that it was given, and leaves the document as it is.
  pub apply_once :
      (base' : ℕ) (payload' : String) (a' : UpdateAttribution)
      → All (λ (c : Uuid × Uuid × Call). NoAppend c.2) calls
      → (result_of w d client update base' payload' a' later ≡ duplicate n)
        × (after w d client update base' payload' a' later ≡ state_of w d later)
  unfolding apply_client_update
  apply_once base' payload' a' ok =
      let known : HashMap.get (client, update) (state_of w d later).dedupe ≡ some n =
        run-keeps_key w d (client, update) n calls _ ok recorded in
      let refused =
        apply_refuses w d client update base' payload' a' later (inl (λ e. cc (e, known))) in
      (refused.2 ∙ rw (known, refusal) refl, refused.0)
    where
      recorded :
          HashMap.get (client, update) (after w d client update base payload a docs).dedupe ≡ some n
      recorded =
          rw (after-apply w d client update base payload a docs)
            (applied-recorded client update base n b payload a (state_of w d docs) first).0

  -- The numbers of a document only grow: below the largest `i64`, whatever is applied to the document
  -- after any later calls has a larger number than the update that was applied before them.
  pub numbers_increase :
      (client' update' : Uuid) (base' m : ℕ) (b' : ℤ) (payload' : String) (a' : UpdateAttribution)
      → IsValidStore docs
      → All (λ (c : Uuid × Uuid × Call). InRange c.2) calls
      → result_of w d client' update' base' payload' a' later ≡ applied m b'
      → (state_of w d later).head_server_seq < i64_max
      → n < m
  unfolding apply_client_update step
  numbers_increase client' update' base' m b' payload' a' v ok second room =
      let s = state_of w d docs in
      let one = applied-recorded client update base n b payload a s first in
      let two =
        applied-recorded client' update' base' m b' payload' a' (state_of w d later) second in
      let grown : n ≤ (state_of w d later).head_server_seq =
        run-head w d n calls _ ok
          (step-IsValid w d (apply_client_update_call client update base payload a) docs v tt)
          (rw (after-apply w d client update base payload a docs) (omega (arith, one.1))) in
      omega (arith, two.2)
