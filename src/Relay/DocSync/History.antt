-- ===== src/Relay/DocSync/History.antt =====
-- crates/relay/src/ws/session.rs, `DocSyncStore`: histories of calls, in the order in which they take
-- the lock of the store.
use scriptum.Prelude.{
  ℕ, ◌≤◌, String, some, List, [], ◌∷◌, ◌≡◌, ◌≢◌, arith, inl, inr, Bool-cases, Option-cases, All,
  ◌==◌, pair_eq, nat_eq, ==_ne, max,
}
use scriptum.Prelude.HashMap
use scriptum.Prelude.HashMap.{get-insert}
use scriptum.Prelude.Numbers.{Uuid, i64_max}
use scriptum.Relay.DocSync.{
  DocSyncState, DocSyncStore, UpdateAttribution, put_state, set_snapshot, append_update,
  apply_client_update, state_of,
}
use scriptum.Relay.DocSync.Invariant.{
  IsValid, default-IsValid, push_update-IsValid, snapshot_state-IsValid, apply_to_state-IsValid,
}

-- A call of a method that changes the store, with its arguments behind the workspace and document.
pub data Call : Type 0 where
  set_snapshot_call : ℕ → String → Call
  append_update_call : ℕ → Uuid → Uuid → String → Call
  apply_client_update_call : Uuid → Uuid → ℕ → String → UpdateAttribution → Call

-- Sequence numbers that callers pass are `i64`s.
abbrev pub InRange : Call → Type 0
InRange (set_snapshot_call n payload) = n ≤ i64_max
InRange (append_update_call n client update payload) = n ≤ i64_max
InRange (apply_client_update_call client update base payload a) = Unit

unfoldable pub step : Uuid → Uuid → Call → DocSyncStore → DocSyncStore
unfolding set_snapshot append_update apply_client_update
step w d (set_snapshot_call n payload) docs = set_snapshot w d n payload docs
step w d (append_update_call n client update payload) docs =
    (append_update w d n client update payload docs).0
step w d (apply_client_update_call client update base payload a) docs =
    (apply_client_update w d client update base payload a docs).0

unfoldable pub run : List (Uuid × Uuid × Call) → DocSyncStore → DocSyncStore
unfolding step
run [] docs = docs
run ((w, d, c) ∷ calls) docs = run calls (step w d c docs)

-- Every document of the store is valid.
abbrev pub IsValidStore : DocSyncStore → Type 0
IsValidStore docs = (k : Uuid × Uuid) (s : DocSyncState) → HashMap.get k docs ≡ some s → IsValid s

pub state_of-IsValid :
    (w d : Uuid) (docs : DocSyncStore) → IsValidStore docs → IsValid (state_of w d docs)
state_of-IsValid w d docs v = elim (Option-cases (HashMap.get (w, d) docs)) [
  | inl e ↦ rw e default-IsValid
  | inr (s, e) ↦ rw e (v (w, d) s e)
]

put-IsValid :
    (w d : Uuid) (s : DocSyncState) (docs : DocSyncStore)
    → IsValidStore docs
    → IsValid s
    → IsValidStore (put_state w d s docs)
put-IsValid w d s docs v h k t e = elim (Bool-cases ((w, d) == k)) [
  | inl same ↦ let q : s ≡ t = ground (arith, get-insert (w, d) k s docs) in rw (← q) h
  | inr other ↦ v k t (ground (arith, get-insert (w, d) k s docs))
]

pub step-IsValid :
    (w d : Uuid) (c : Call) (docs : DocSyncStore)
    → IsValidStore docs
    → InRange c
    → IsValidStore (step w d c docs)
unfolding step
step-IsValid w d (set_snapshot_call n payload) docs v h =
    put-IsValid w d _ docs v (snapshot_state-IsValid n payload _ (state_of-IsValid w d docs v) h)
step-IsValid w d (append_update_call n client update payload) docs v h =
    let s = state_of w d docs in
    let sv : IsValid s = state_of-IsValid w d docs v in
    put-IsValid w d _ docs v (
      push_update-IsValid _ (max s.head_server_seq n) s sv (omega arith) (omega arith)
        (omega (arith, sv.in_range)))
step-IsValid w d (apply_client_update_call client update base payload a) docs v h =
    put-IsValid w d _ docs v
      (apply_to_state-IsValid client update base payload a _ (state_of-IsValid w d docs v))

-- After any history of calls whose sequence numbers are `i64`s, in every document the log is sorted
-- by sequence number, every logged update is in the dedupe table, and no logged, deduplicated or
-- snapshot sequence number lies above the head.
pub run-IsValidStore :
    (calls : List (Uuid × Uuid × Call)) (docs : DocSyncStore)
    → All (λ (c : Uuid × Uuid × Call). InRange c.2) calls
    → IsValidStore docs
    → IsValidStore (run calls docs)
unfolding run
run-IsValidStore [] docs h v = v
run-IsValidStore ((w, d, c) ∷ calls) docs h v =
    run-IsValidStore calls (step w d c docs) h.1 (step-IsValid w d c docs v h.0)

-- A call for one document leaves the state of every other document as it was.
pub step_other :
    (w d : Uuid) (c : Call) (k : Uuid × Uuid) (docs : DocSyncStore)
    → (w, d) ≢ k
    → HashMap.get k (step w d c docs) ≡ HashMap.get k docs
unfolding step
step_other w d (set_snapshot_call n payload) k docs h = rw (get-insert, ==_ne (w, d) k h)
step_other w d (append_update_call n client update payload) k docs h =
    rw (get-insert, ==_ne (w, d) k h)
step_other w d (apply_client_update_call client update base payload a) k docs h =
    rw (get-insert, ==_ne (w, d) k h)
