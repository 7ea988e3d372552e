-- ===== src/Relay/DocSync/Updates.antt =====
-- crates/relay/src/ws/session.rs, `apply_client_update`: its result on every branch, and what a
-- client that sends an update again observes.
use scriptum.Prelude.{
  ℕ, ◌≤◌, ◌<◌, ◌+◌, String, Option, none, some, [], ◌∷◌, ◌++◌, ◌≡◌, ◌≢◌, ◌⊎◌, refl, arith, ◌∙◌, ap,
  All-map, pair_eq, nat_eq,
}
use scriptum.Prelude.HashMap
use scriptum.Prelude.HashMap.{get-insert, get-insert_self}
use scriptum.Prelude.Sort.{sort_by_key, sort_by-Sorted', Sorted-snoc, by_key}
use scriptum.Prelude.Numbers.{Uuid, i64_max, pos, pred_i64}
use scriptum.Relay.DocSync.{
  DocSyncState, DocSyncStore, UpdateAttribution, push_update, put_state, seq_of, apply_to_state,
  apply_client_update, state_of, accepted_update, depth_metric, ApplyClientUpdateResult, applied,
  duplicate, rejected_base_seq,
}
use scriptum.Relay.DocSync.Invariant.{IsValid}

module _ (w d client update : Uuid) (base : ℕ) (payload : String) (a : UpdateAttribution)
    (docs : DocSyncStore) where
  -- The result of a call, and the state of its document before and after.
  abbrev pub result_of : ApplyClientUpdateResult
  unfolding apply_client_update
  result_of = (apply_client_update w d client update base payload a docs).1

  abbrev pub before : DocSyncState
  before = state_of w d docs

  abbrev pub after : DocSyncState
  unfolding apply_client_update
  after = state_of w d (apply_client_update w d client update base payload a docs).0

  pub after-apply : after ≡ (apply_to_state client update base payload a before).0
  unfolding apply_client_update
  after-apply = rw get-insert_self refl

  -- The log of a valid document that accepts an update: the entry goes to the end.
  pub sorted_push :
      (s : DocSyncState)
      → IsValid s
      → s.head_server_seq < i64_max
      → sort_by_key seq_of (s.updates ++ accepted_update client update payload a s ∷ [])
        ≡ s.updates ++ accepted_update client update payload a s ∷ []
  sorted_push s v room = sort_by-Sorted' (by_key seq_of) _ (
      Sorted-snoc (by_key seq_of) s.updates _ v.sorted
        (All-map _ _ (λ u h. ground arith) s.updates v.below_head))

  -- The accepting branch of `apply_to_state`.
  accepting :
      (s : DocSyncState)
      → HashMap.get (client, update) s.dedupe ≡ none
      → base ≤ s.head_server_seq
      → apply_to_state client update base payload a s ≡ (
          let u = accepted_update client update payload a s in
          (push_update u u.server_seq s, applied u.server_seq (pred_i64 u.server_seq)))
  unfolding apply_to_state
  accepting s fresh based = rw (fresh, apply_to_state) (ground arith)

  -- A new update that is based on nothing above the head is accepted: it gets the next number, goes
  -- to the end of the log with its attribution, and the dedupe table and the head know that number;
  -- the snapshot stays.
  pub apply_accepts :
      IsValid before
      → HashMap.get (client, update) before.dedupe ≡ none
      → base ≤ before.head_server_seq
      → before.head_server_seq < i64_max
      → (result_of ≡ applied (before.head_server_seq + 1) (pos before.head_server_seq))
        × (after.updates ≡ before.updates ++ accepted_update client update payload a before ∷ [])
        × (after.head_server_seq ≡ before.head_server_seq + 1)
        × (HashMap.get (client, update) after.dedupe ≡ some (before.head_server_seq + 1))
        × (after.snapshot ≡ before.snapshot)
  unfolding apply_client_update push_update
  apply_accepts v fresh based room =
      rw (get-insert_self, accepting before fresh based)
        (
          ground arith,
          sorted_push before v room,
          omega arith,
          get-insert_self _ _ before.dedupe ∙ ap some (omega arith),
          refl,
        )

  -- What a refused update is answered with.
  abbrev pub refusal : DocSyncState → ApplyClientUpdateResult
  refusal s = elim (HashMap.get (client, update) s.dedupe) [
    | some n ↦ duplicate n
    | none ↦ rejected_base_seq s.head_server_seq
  ]

  refusing :
      (s : DocSyncState)
      → (HashMap.get (client, update) s.dedupe ≢ none) ⊎ (s.head_server_seq < base)
      → apply_to_state client update base payload a s ≡ (s, refusal s)
  unfolding apply_to_state
  refusing s h = ground arith

  -- An update that the document has seen, and one that is based above its head, is answered with the
  -- number that the document knows, changes nothing in the document, and sets no metric.
  pub apply_refuses :
      (HashMap.get (client, update) before.dedupe ≢ none) ⊎ (before.head_server_seq < base)
      → (after ≡ before)
        × ((apply_client_update w d client update base payload a docs).2 ≡ [])
        × (result_of ≡ refusal before)
  unfolding apply_client_update depth_metric
  apply_refuses h =
      rw (get-insert_self, refusing before h)
        (
          refl,
          no_metric (HashMap.get (client, update) before.dedupe),
          ap (λ (r : DocSyncState × ApplyClientUpdateResult). r.1) (refusing before h),
        )
    where
      no_metric :
          (o : Option ℕ)
          → depth_metric w
              (put_state w d before docs)
              (elim o [ some n ↦ duplicate n | none ↦ rejected_base_seq before.head_server_seq ])
            ≡ []
      no_metric (some n) = refl
      no_metric none = refl
